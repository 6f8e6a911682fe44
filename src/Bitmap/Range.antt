-- ===== src/Bitmap/Range.antt =====
-- Runs of bits: setting a run, and looking for a value in one.
use cs162_group.Prelude.{
  ℕ, ◌+◌, ◌%◌, ◌≤◌, ◌<◌, ◌≡◌, ◌↔◌, refl, Bool, true, false, not, some, ◌&&◌, zero, suc, ◌>>=◌,
  arith, ◌==◌, leb, ltb, if◌then◌else◌, Returns, ◌∙◌, Bool-cases, inl, inr,
}
use cs162_group.Bitmap.{
  Bitmap, word_mod, in_bounds, set_loop, bitmap_set_multiple, contains_loop, bitmap_contains, same,
  count_loop, bitmap_count, bitmap_none, bitmap_all,
}
use cs162_group.Bitmap.Bit.{bit_at, IsValid, Wrote, bitmap_set-Wrote, bitmap_test-bit_at}

-- `j` is one of the `cnt` positions from `start` on.
abbrev pub within : ℕ → ℕ → ℕ → Bool
within start cnt j = leb start j && ltb j (start + cnt)

set_loop-Wrote :
    (n : ℕ) (b : Bitmap) (pos : ℕ) (value : Bool)
    → IsValid b
    → pos + n ≤ b.bit_cnt
    → Returns (set_loop n b pos value) (Wrote b λ j. if within pos n j then value else bit_at b j)
unfolding set_loop
set_loop-Wrote zero b pos value v h =
    (b, refl, record { valid = v; size = refl; bits = λ j. ground arith })
set_loop-Wrote (suc n) b pos value v h =
    let (b₁, now, w) = bitmap_set-Wrote b v pos (omega arith) value in
    let (b₂, later, u) = set_loop-Wrote n b₁ (pos + 1) value w.valid (omega (arith, w.size)) in
    (
      b₂,
      rw (now, ◌>>=◌) later,
      record {
        valid = u.valid;
        size = u.size ∙ w.size;
        bits = λ j. ground (arith, u.bits j, w.bits j);
      },
    )

-- The assertions on a run pass exactly on a run inside the bitmap, if the sum does not wrap.
bounds_pass :
    (b : Bitmap) (start cnt : ℕ)
    → IsValid b
    → start + cnt ≤ b.bit_cnt
    → in_bounds b start cnt ≡ true
bounds_pass b start cnt v h =
    let e : (start + cnt) % word_mod ≡ start + cnt = omega (arith, v.small) in ground (arith, e)

-- In a valid bitmap, setting a run inside it does not panic, gives each bit of the run the value
-- and leaves the others.
pub bitmap_set_multiple-Wrote :
    (b : Bitmap) (start cnt : ℕ) (value : Bool)
    → IsValid b
    → start + cnt ≤ b.bit_cnt
    → Returns
        (bitmap_set_multiple b start cnt value)
        (Wrote b λ j. if within start cnt j then value else bit_at b j)
unfolding bitmap_set_multiple
bitmap_set_multiple-Wrote b start cnt value v h =
    let (b', run, w) = set_loop-Wrote cnt b start value v h in
    (b', rw (bounds_pass b start cnt v h, ◌>>=◌) run, w)

-- Some bit of the run has the value.
abbrev pub has : (ℕ → Bool) → ℕ → ℕ → Bool → Bool
has f pos zero value = false
has f pos (suc n) value = if same (f pos) value then true else has f (pos + 1) n value

-- How many bits of the run have the value.
abbrev pub tally : (ℕ → Bool) → ℕ → ℕ → Bool → ℕ
tally f pos zero value = 0
tally f pos (suc n) value = (if same (f pos) value then 1 else 0) + tally f (pos + 1) n value

contains_loop-has :
    (n : ℕ) (b : Bitmap) (pos : ℕ) (value : Bool)
    → IsValid b
    → pos + n ≤ b.bit_cnt
    → contains_loop n b pos value ≡ some (has (bit_at b) pos n value)
unfolding contains_loop
contains_loop-has zero b pos value v h = refl
contains_loop-has (suc n) b pos value v h =
    rw
      (
        bitmap_test-bit_at b pos v (omega arith),
        ◌>>=◌,
        contains_loop-has n b (pos + 1) value v (omega arith),
      )
      (ground arith)

pub bitmap_contains-has :
    (b : Bitmap) (start cnt : ℕ) (value : Bool)
    → IsValid b
    → start + cnt ≤ b.bit_cnt
    → bitmap_contains b start cnt value ≡ some (has (bit_at b) start cnt value)
unfolding bitmap_contains
bitmap_contains-has b start cnt value v h =
    rw (bounds_pass b start cnt v h, ◌>>=◌) (contains_loop-has cnt b start value v h)

count_loop-tally :
    (n : ℕ) (b : Bitmap) (pos : ℕ) (value : Bool) (acc : ℕ)
    → IsValid b
    → pos + n ≤ b.bit_cnt
    → count_loop n b pos value acc ≡ some (acc + tally (bit_at b) pos n value)
unfolding count_loop
count_loop-tally zero b pos value acc v h = ground arith
count_loop-tally (suc n) b pos value acc v h =
    rw (bitmap_test-bit_at b pos v (omega arith), ◌>>=◌)
      (ground (
        arith,
        count_loop-tally n b (pos + 1) value acc v,
        count_loop-tally n b (pos + 1) value (acc + 1) v,
      ))

-- In a valid bitmap, the count of a run inside it is the number of its bits that have the value.
pub bitmap_count-tally :
    (b : Bitmap) (start cnt : ℕ) (value : Bool)
    → IsValid b
    → start + cnt ≤ b.bit_cnt
    → bitmap_count b start cnt value ≡ some (tally (bit_at b) start cnt value)
unfolding bitmap_count
bitmap_count-tally b start cnt value v h =
    rw (bounds_pass b start cnt v h, ◌>>=◌)
      (ground (arith, count_loop-tally cnt b start value 0 v h))

-- A run has a value exactly if it is not the other value throughout.
pub has-false :
    (f : ℕ → Bool) (pos n : ℕ) (value : Bool)
    → has f pos n value ≡ false
    → (j : ℕ) → pos ≤ j
    → j < pos + n
    → f j ≡ not value
has-false f pos zero value h j lo hi = absurd (omega arith)
has-false f pos (suc n) value h j lo hi = elim (Bool-cases (j == pos)) [
  | inl e ↦ let e' : j ≡ pos = ground arith in rw e' (ground arith)
  | inr e ↦ has-false f (pos + 1) n value (ground arith) j (ground arith) (ground arith)
]

pub has-true :
    (f : ℕ → Bool) (pos n : ℕ) (value : Bool)
    → has f pos n value ≡ true
    → (j : ℕ) × (pos ≤ j) × (j < pos + n) × (f j ≡ value)
has-true f pos zero value h = cc
has-true f pos (suc n) value h = elim (Bool-cases (same (f pos) value)) [
  | inl e ↦ (pos, omega arith, omega arith, ground arith)
  | inr e ↦
      let (j, lo, hi, at) = has-true f (pos + 1) n value (ground arith) in
      (j, omega arith, omega arith, at)
]

pub has-all :
    (f : ℕ → Bool) (pos n : ℕ) (value : Bool)
    → ((j : ℕ) → pos ≤ j → j < pos + n → f j ≡ not value)
    → has f pos n value ≡ false
has-all f pos zero value h = refl
has-all f pos (suc n) value h =
    let rest = has-all f (pos + 1) n value (λ j lo hi. h j (omega arith) (omega arith)) in
    ground (arith, rest, h pos (omega arith) (omega arith))

module _ (b : Bitmap) (start cnt : ℕ) (v : IsValid b) (h : start + cnt ≤ b.bit_cnt) where
  -- In a valid bitmap, on a run inside it, `bitmap_all` says true exactly if every bit of the run
  -- is set, and `bitmap_none` exactly if none is.
  pub all-none_iff :
      ((bitmap_all b start cnt ≡ some true)
        ↔ ((j : ℕ) → start ≤ j → j < start + cnt → bit_at b j ≡ true))
      × ((bitmap_none b start cnt ≡ some true)
          ↔ ((j : ℕ) → start ≤ j → j < start + cnt → bit_at b j ≡ false))
  unfolding bitmap_all bitmap_none
  all-none_iff =
      let f = bit_at b in
      let all : bitmap_contains b start cnt false ≡ some (has f start cnt false) =
        bitmap_contains-has b start cnt false v h in
      let any : bitmap_contains b start cnt true ≡ some (has f start cnt true) =
        bitmap_contains-has b start cnt true v h in
      (
        (
          (λ e. has-false f start cnt false (ground (arith, all))),
          (λ on. ground (arith, all, has-all f start cnt false on)),
        ),
        (
          (λ e. has-false f start cnt true (ground (arith, any))),
          (λ off. ground (arith, any, has-all f start cnt true off)),
        ),
      )

  -- One bit of the run that is clear makes `bitmap_all` say false.
  pub bitmap_all-false :
      (j : ℕ)
      → start ≤ j
      → j < start + cnt
      → bit_at b j ≡ false
      → bitmap_all b start cnt ≡ some false
  unfolding bitmap_all
  bitmap_all-false j lo hi off =
      let f = bit_at b in
      let all : bitmap_contains b start cnt false ≡ some (has f start cnt false) =
        bitmap_contains-has b start cnt false v h in
      elim (Bool-cases (has f start cnt false)) [
        | inl e ↦ rw (all, e, ◌>>=◌) refl
        | inr e ↦ let on = has-false f start cnt false e j lo hi in absurd (ground (arith, on))
      ]
