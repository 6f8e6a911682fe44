-- ===== src/Bitmap/Scan.antt =====
-- Looking for a run of bits of one value, and flipping the run found.
use cs162_group.Prelude.{
  ℕ, ◌+◌, ◌-◌, ◌≤◌, ◌<◌, ◌≡◌, refl, Bool, true, false, not, some, ◌⊎◌, zero, suc, ◌>>=◌, arith,
  ◌==◌, leb, if◌then◌else◌, Returns, ◌∙◌, Bool-cases, le→leb, inl, inr,
}
use cs162_group.Bitmap.{Bitmap, bitmap_error, scan_loop, bitmap_scan, bitmap_scan_and_flip}
use cs162_group.Bitmap.Bit.{bit_at, IsValid, Wrote}
use cs162_group.Bitmap.Range.{
  within, has, has-false, has-true, bitmap_contains-has, bitmap_set_multiple-Wrote,
}

-- Every bit of the run has the value.
abbrev pub IsRun : (ℕ → Bool) → ℕ → ℕ → Bool → Type 0
IsRun f i cnt value = (j : ℕ) → i ≤ j → j < i + cnt → f j ≡ value

-- Some bit of the run has the other value.
abbrev pub IsBroken : (ℕ → Bool) → ℕ → ℕ → Bool → Type 0
IsBroken f i cnt value = (j : ℕ) × (i ≤ j) × (j < i + cnt) × (f j ≡ not value)

-- The first run at or after `start`.
pub record IsFirst (b : Bitmap) (start cnt : ℕ) (value : Bool) (idx : ℕ) : Type 0 where
  pub after : start ≤ idx
  pub fits : idx + cnt ≤ b.bit_cnt
  pub run : IsRun (bit_at b) idx cnt value
  pub first : (i : ℕ) → start ≤ i → i < idx → IsBroken (bit_at b) i cnt value

-- No run at or after `start`.
abbrev pub HasNone : Bitmap → ℕ → ℕ → Bool → Type 0
HasNone b start cnt value =
    (i : ℕ) → start ≤ i → i + cnt ≤ b.bit_cnt → IsBroken (bit_at b) i cnt value

not-not : (b : Bool) → not (not b) ≡ b
not-not true = refl
not-not false = refl

-- What holds at `i` and from `i + 1` on holds from `i` on.
from_here : (P : ℕ → Type 0) (i j : ℕ) → P i → (i + 1 ≤ j → P j) → i ≤ j → P j
from_here P i j here rest lo = elim (Bool-cases (j == i)) [
  | inl e ↦ let e' : j ≡ i = ground arith in rw e' here
  | inr e ↦ rest (ground arith)
]

module _ (b : Bitmap) (v : IsValid b) (cnt : ℕ) (value : Bool) where
  abbrev pub Outcome : ℕ → ℕ → Type 0
  Outcome i idx = IsFirst b i cnt value idx ⊎ (idx ≡ bitmap_error) × HasNone b i cnt value

  extend : (i idx : ℕ) → IsBroken (bit_at b) i cnt value → Outcome (i + 1) idx → Outcome i idx
  extend i idx here (inl w) = inl (record {
    after = omega (arith, w.after);
    fits = w.fits;
    run = w.run;
    first = λ j lo hi.
        from_here (λ k. IsBroken (bit_at b) k cnt value) i j here (λ up. w.first j up hi) lo;
  })
  extend i idx here (inr (e, out)) = inr (
    e,
    λ j lo hi. from_here (λ k. IsBroken (bit_at b) k cnt value) i j here (λ up. out j up hi) lo,
  )

  scan_loop-IsFirst :
      (n i : ℕ)
      → i + n + cnt ≡ suc b.bit_cnt ⊎ (n ≡ 0) × (suc b.bit_cnt ≤ i + cnt)
      → Returns (scan_loop n b i cnt value) (Outcome i)
  unfolding scan_loop
  scan_loop-IsFirst zero i e = (bitmap_error, refl, inr (refl, λ j lo hi. absurd (omega arith)))
  scan_loop-IsFirst (suc n) i e =
      let fits : i + cnt ≤ b.bit_cnt = omega arith in
      let test = bitmap_contains-has b i cnt (not value) v fits in
      elim (Bool-cases (has (bit_at b) i cnt (not value))) [
        | inr clear ↦ (
          i,
          rw (test, clear, ◌>>=◌) refl,
          inl (record {
            after = omega arith;
            fits = fits;
            run = λ j lo hi. has-false (bit_at b) i cnt (not value) clear j lo hi ∙ not-not value;
            first = λ j lo hi. absurd (omega arith);
          }),
        )
        | inl broken ↦
            let here = has-true (bit_at b) i cnt (not value) broken in
            let (idx, later, w) = scan_loop-IsFirst n (i + 1) (inl (omega arith)) in
            (idx, rw (test, broken, ◌>>=◌) later, extend i idx here w)
      ]

  -- A scan finds the first run at or after `start`, or says that there is none.
  pub bitmap_scan-Outcome :
      (start : ℕ) → start ≤ b.bit_cnt → Returns (bitmap_scan b start cnt value) (Outcome start)
  unfolding bitmap_scan
  bitmap_scan-Outcome start h = elim (Bool-cases (leb cnt b.bit_cnt)) [
    | inl le ↦
        let (idx, run, w) = scan_loop-IsFirst (b.bit_cnt - cnt + 1 - start) start (ground arith) in
        (idx, rw (le→leb start b.bit_cnt h, ◌>>=◌, le) run, w)
    | inr gt ↦ (
      bitmap_error,
      rw (le→leb start b.bit_cnt h, ◌>>=◌, gt) refl,
      inr (refl, λ j lo hi. absurd (ground arith)),
    )
  ]

  -- In a valid bitmap, with `start` inside it, scan and flip gives the first run of at least one
  -- bit of the value, at or after `start`, and turns exactly that run over; where there is no
  -- such run it says so and changes nothing.
  pub bitmap_scan_and_flip-Wrote :
      (start : ℕ)
      → start ≤ b.bit_cnt
      → 0 < cnt
      → Returns (bitmap_scan_and_flip b start cnt value) λ r.
        (IsFirst b start cnt value r.0
          × Wrote b (λ j. if within r.0 cnt j then not value else bit_at b j) r.1)
        ⊎ (r.0 ≡ bitmap_error) × (r.1 ≡ b) × HasNone b start cnt value
  unfolding bitmap_scan_and_flip
  bitmap_scan_and_flip-Wrote start h pos =
      let (idx, run, w) = bitmap_scan-Outcome start h in flip idx run w
    where
      flip :
          (idx : ℕ)
          → bitmap_scan b start cnt value ≡ some idx
          → Outcome start idx
          → Returns (bitmap_scan_and_flip b start cnt value) λ r.
            (IsFirst b start cnt value r.0
              × Wrote b (λ j. if within r.0 cnt j then not value else bit_at b j) r.1)
            ⊎ (r.0 ≡ bitmap_error) × (r.1 ≡ b) × HasNone b start cnt value
      flip idx run (inl w) =
          let (b', set, u) = bitmap_set_multiple-Wrote b idx cnt (not value) v w.fits in
          let ne : (idx == bitmap_error) ≡ false = ground (arith, v.small, w.fits) in
          ((idx, b'), rw (run, ◌>>=◌, ne, set) refl, inl (w, u))
      flip idx run (inr (e, out)) = ((idx, b), rw (run, ◌>>=◌, e) refl, inr (e, refl, out))
