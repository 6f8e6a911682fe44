-- ===== src/Strings/Copy.antt =====
-- Copies within one memory.
use cs162_group.Prelude.{
  ℕ, zero, suc, ◌+◌, ◌-◌, ◌%◌, ◌≤◌, ◌<◌, ◌≡◌, ◌⊎◌, inl, inr, refl, ap, ◌∙◌, some, List, ◌>>=◌, ltb,
  ◌==◌, if◌then◌else◌, arith, Returns, Bool-cases, get_or, set, length, length-set,
}
use cs162_group.Bitmap.Bit.{get_of_or, get_or-set}
use cs162_group.Bitmap.Range.{within}
use cs162_group.Strings.{store, copy_up, copy_down, memcpy, memmove, fill, memset}

-- `mem'` is `mem` with the bytes of a run given by `f`.
pub record Put (mem : List ℕ) (dst count : ℕ) (f : ℕ → ℕ) (mem' : List ℕ) : Type 0 where
  pub size : length mem' ≡ length mem
  pub bytes : (j : ℕ) → get_or mem' j 0 ≡ (if within dst count j then f j else get_or mem j 0)

pub store-Returns : (mem : List ℕ) (p b : ℕ) → p < length mem → store mem p b ≡ some (set mem p b)
store-Returns mem p b lt = ground arith

-- One byte copied at the low end, before the others.
up :
    (size dst src : ℕ) (mem : List ℕ) (j : ℕ)
    → dst < length mem
    → (dst ≤ src) ⊎ (src + suc size ≤ dst)
    → (if within (dst + 1) size j
        then get_or (set mem dst (get_or mem src 0)) (src + 1 + (j - (dst + 1))) 0
        else get_or (set mem dst (get_or mem src 0)) j 0)
      ≡ (if within dst (suc size) j then get_or mem (src + (j - dst)) 0 else get_or mem j 0)
up size dst src mem j lt apart =
    let b = get_or mem src 0 in
    let there = get_or-set mem dst (src + 1 + (j - (dst + 1))) b 0 lt in
    let here = get_or-set mem dst j b 0 lt in
    elim (Bool-cases (j == dst)) [
      | inl same ↦
          let idx : get_or mem (src + (j - dst)) 0 ≡ b = ap (λ i. get_or mem i 0) (ground arith) in
          ground (arith, here, idx, same)
      | inr other ↦ elim (Bool-cases (within (dst + 1) size j)) [
        | inl inside ↦
            let idx : get_or mem (src + 1 + (j - (dst + 1))) 0 ≡ get_or mem (src + (j - dst)) 0 =
              ap (λ i. get_or mem i 0) (ground arith) in
            ground (arith, there, idx, inside)
        | inr outside ↦ ground (arith, here, other, outside)
      ]
    ]

copy_up-Put :
    (size dst src : ℕ) (mem : List ℕ)
    → src + size ≤ length mem
    → dst + size ≤ length mem
    → (dst ≤ src) ⊎ (src + size ≤ dst)
    → Returns (copy_up size dst src mem) (Put mem dst size λ j. get_or mem (src + (j - dst)) 0)
unfolding copy_up
copy_up-Put zero dst src mem h h' apart =
    (mem, refl, record { size = refl; bytes = λ j. ground arith })
copy_up-Put (suc size) dst src mem h h' apart =
    let b = get_or mem src 0 in
    let got = get_of_or mem src 0 (omega arith) in
    let put = store-Returns mem dst b (omega arith) in
    let len = length-set mem dst b in
    let (r, run, p) =
      copy_up-Put size (dst + 1) (src + 1) (set mem dst b) (omega (arith, len)) (omega (arith, len))
        (omega arith) in
    (
      r,
      rw (got, ◌>>=◌, put) run,
      record {
        size = p.size ∙ len;
        bytes = λ j. p.bytes j ∙ up size dst src mem j (omega arith) apart;
      },
    )

-- One byte copied at the high end, before the others.
down :
    (size dst src : ℕ) (mem : List ℕ) (j : ℕ)
    → dst + size < length mem
    → src ≤ dst
    → (if within dst size j
        then get_or (set mem (dst + size) (get_or mem (src + size) 0)) (src + (j - dst)) 0
        else get_or (set mem (dst + size) (get_or mem (src + size) 0)) j 0)
      ≡ (if within dst (suc size) j then get_or mem (src + (j - dst)) 0 else get_or mem j 0)
down size dst src mem j lt le =
    let b = get_or mem (src + size) 0 in
    let there = get_or-set mem (dst + size) (src + (j - dst)) b 0 lt in
    let here = get_or-set mem (dst + size) j b 0 lt in
    elim (Bool-cases (j == dst + size)) [
      | inl same ↦
          let idx : get_or mem (src + (j - dst)) 0 ≡ b = ap (λ i. get_or mem i 0) (ground arith) in
          ground (arith, here, idx, same)
      | inr other ↦ elim (Bool-cases (within dst size j)) [
        | inl inside ↦ ground (arith, there, inside)
        | inr outside ↦ ground (arith, here, other, outside)
      ]
    ]

-- The first round of the loop that counts down.
copy_down-suc :
    (size dst src : ℕ) (mem : List ℕ)
    → src + size < length mem
    → dst + size < length mem
    → copy_down (suc size) (dst + suc size) (src + suc size) mem
      ≡ copy_down size (dst + size) (src + size) (set mem (dst + size) (get_or mem (src + size) 0))
unfolding copy_down
copy_down-suc size dst src mem h h' =
    let s' : src + suc size - 1 ≡ src + size = omega arith in
    let d' : dst + suc size - 1 ≡ dst + size = omega arith in
    let got = get_of_or mem (src + size) 0 h in
    let put = store-Returns mem (dst + size) (get_or mem (src + size) 0) h' in
    rw (s', d', got, ◌>>=◌, put) refl

copy_down-Put :
    (size dst src : ℕ) (mem : List ℕ)
    → src + size ≤ length mem
    → dst + size ≤ length mem
    → src ≤ dst
    → Returns
        (copy_down size (dst + size) (src + size) mem)
        (Put mem dst size λ j. get_or mem (src + (j - dst)) 0)
unfolding copy_down
copy_down-Put zero dst src mem h h' le =
    (mem, refl, record { size = refl; bytes = λ j. ground arith })
copy_down-Put (suc size) dst src mem h h' le =
    let b = get_or mem (src + size) 0 in
    let len = length-set mem (dst + size) b in
    let (r, run, p) =
      copy_down-Put size dst src (set mem (dst + size) b) (omega (arith, len)) (omega (arith, len))
        le in
    (
      r,
      copy_down-suc size dst src mem (omega arith) (omega arith) ∙ run,
      record {
        size = p.size ∙ len;
        bytes = λ j. p.bytes j ∙ down size dst src mem j (omega arith) le;
      },
    )

module _ (mem : List ℕ) (dst src size : ℕ) (fits : src + size ≤ length mem)
    (fits' : dst + size ≤ length mem) where
  -- Copying inside the memory does not panic, and puts at the destination the bytes that the source had
  -- before, however the two overlap; no other byte changes. The pointer returned is the destination
  -- only where it is not below the source, else it is the end of the destination.
  pub memmove-Put : Returns (memmove dst src size mem) λ r.
      Put mem dst size (λ j. get_or mem (src + (j - dst)) 0) r.1
      × (r.0 ≡ (if ltb dst src then dst + size else dst))
  unfolding memmove
  memmove-Put = elim (Bool-cases (ltb dst src)) [
    | inl low ↦
        let (r, run, p) = copy_up-Put size dst src mem fits fits' (inl (ground arith)) in
        ((dst + size, r), rw (low, run, ◌>>=◌) refl, (p, rw low refl))
    | inr high ↦
        let (r, run, p) = copy_down-Put size dst src mem fits fits' (ground arith) in
        ((dst, r), rw (high, run, ◌>>=◌) refl, (p, rw high refl))
  ]

  -- Where the destination is not above the source or past its end, `memcpy` puts the same bytes as
  -- `memmove` and returns the destination.
  pub memcpy-Put :
      (dst ≤ src) ⊎ (src + size ≤ dst)
      → Returns
          (memcpy dst src size mem)
          λ r. Put mem dst size (λ j. get_or mem (src + (j - dst)) 0) r.1 × (r.0 ≡ dst)
  unfolding memcpy
  memcpy-Put apart =
      let (r, run, p) = copy_up-Put size dst src mem fits fits' apart in
      ((dst, r), rw (run, ◌>>=◌) refl, (p, refl))

fill-Put :
    (size dst value : ℕ) (mem : List ℕ)
    → dst + size ≤ length mem
    → Returns (fill size dst value mem) (Put mem dst size λ j. value % 256)
unfolding fill
fill-Put zero dst value mem h = (mem, refl, record { size = refl; bytes = λ j. ground arith })
fill-Put (suc size) dst value mem h =
    let put = store-Returns mem dst (value % 256) (omega arith) in
    let len = length-set mem dst (value % 256) in
    let (r, run, p) =
      fill-Put size (dst + 1) value (set mem dst (value % 256)) (omega (arith, len)) in
    (
      r,
      rw (put, ◌>>=◌) run,
      record {
        size = p.size ∙ len;
        bytes = λ j. p.bytes j ∙ ground (arith, get_or-set mem dst j (value % 256) 0 (omega arith));
      },
    )

-- `memset` inside the memory puts the value's low byte at each place of the run, and changes no other.
pub memset-Put :
    (mem : List ℕ) (dst value size : ℕ)
    → dst + size ≤ length mem
    → Returns (memset dst value size mem) λ r. Put mem dst size (λ j. value % 256) r.1 × (r.0 ≡ dst)
unfolding memset
memset-Put mem dst value size h =
    let (r, run, p) = fill-Put size dst value mem h in ((dst, r), rw (run, ◌>>=◌) refl, (p, refl))
