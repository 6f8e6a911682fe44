-- ===== src/Inode/Splice.antt =====
-- The bytes of a sector in which a run of bytes was replaced.
use cs162_group.Prelude.{
  ℕ, zero, suc, ◌+◌, ◌-◌, ◌≤◌, ◌<◌, ◌≡◌, refl, ap, ◌∙◌, List, [], ◌∷◌, ◌++◌, ltb, if◌then◌else◌,
  arith, Bool-cases, inl, inr, get_or, take, drop, length, length-take, length-drop, length-append,
}
use cs162_group.Bitmap.Range.{within}
use cs162_group.Store.{Store}
use cs162_group.Inode.{sector_size}
use cs162_group.Inode.Read.{splice}

get_or-take : (n : ℕ) (xs : List ℕ) (j : ℕ) → j < n → get_or (take n xs) j 0 ≡ get_or xs j 0
get_or-take zero xs j h = absurd (omega arith)
get_or-take (suc n) [] j h = refl
get_or-take (suc n) (x ∷ xs) zero h = refl
get_or-take (suc n) (x ∷ xs) (suc j) h = get_or-take n xs j (omega arith)

pub get_or-drop :
    (n : ℕ) (xs : List ℕ) (j k : ℕ) → k ≡ n + j → get_or (drop n xs) j 0 ≡ get_or xs k 0
get_or-drop zero xs j k e = ap (λ i. get_or xs i 0) (omega (arith, e))
get_or-drop (suc n) [] j k e = refl
get_or-drop (suc n) (x ∷ xs) j zero e = absurd (omega (arith, e))
get_or-drop (suc n) (x ∷ xs) j (suc k) e = get_or-drop n xs j k (omega (arith, e))

get_or-left : (xs ys : List ℕ) (j : ℕ) → j < length xs → get_or (xs ++ ys) j 0 ≡ get_or xs j 0
get_or-left [] ys j h = absurd (omega arith)
get_or-left (x ∷ xs) ys zero h = refl
get_or-left (x ∷ xs) ys (suc j) h = get_or-left xs ys j (omega arith)

get_or-right :
    (xs ys : List ℕ) (j k : ℕ) → j ≡ length xs + k → get_or (xs ++ ys) j 0 ≡ get_or ys k 0
get_or-right [] ys j k e = ap (λ i. get_or ys i 0) (omega (arith, e))
get_or-right (x ∷ xs) ys zero k e = absurd (omega (arith, e))
get_or-right (x ∷ xs) ys (suc j) k e = get_or-right xs ys j k (omega (arith, e))

-- `x` is `old` with its `c` bytes from `o` on taken from `buffer`.
pub record Spliced (old : List ℕ) (o c : ℕ) (buffer x : List ℕ) : Type 0 where
  pub size : length x ≡ sector_size
  pub bytes :
      (j : ℕ)
      → j < sector_size
      → get_or x j 0 ≡ (if within o c j then get_or buffer (j - o) 0 else get_or old j 0)

module _ (store : Store) (old buffer : List ℕ) (o c : ℕ) (len : length old ≡ sector_size)
    (fits : o + c ≤ sector_size) (enough : c ≤ length buffer) where
  pub splice-Spliced : Spliced old o c buffer (splice store old o (take c buffer) c)
  splice-Spliced =
      let a = take o old in
      let b = take c buffer in
      let z = drop (o + c) old in
      let la : length a ≡ o = omega (arith, length-take o old, len) in
      let lb : length b ≡ c = omega (arith, length-take c buffer) in
      let lz : length z ≡ sector_size - (o + c) = omega (arith, length-drop (o + c) old, len) in
      record {
        size = omega (arith, length-append a (b ++ z), length-append b z, la, lb, lz);
        bytes = λ j lt. elim (Bool-cases (ltb j o)) [
          | inl low ↦
              let e =
                get_or-left a (b ++ z) j (ground (arith, la))
                ∙ get_or-take o old j (ground arith) in
              ground (arith, e, low)
          | inr high ↦
              let e = get_or-right a (b ++ z) j (j - o) (ground (arith, la)) in
              elim (Bool-cases (ltb (j - o) c)) [
                | inl mid ↦
                    let e' =
                      get_or-left b z (j - o) (ground (arith, lb))
                      ∙ get_or-take c buffer (j - o) (ground arith) in
                    ground (arith, e, e', high, mid)
                | inr far ↦
                    let e' = get_or-right b z (j - o) (j - o - c) (ground (arith, lb)) in
                    let e'' = get_or-drop (o + c) old (j - o - c) j (ground arith) in
                    ground (arith, e, e', e'', high, far)
              ]
        ];
      }

  -- A sector that is written whole.
  pub whole-Spliced : o ≡ 0 → c ≡ sector_size → Spliced old o c buffer (take c buffer)
  whole-Spliced z w = record {
    size = omega (arith, length-take c buffer);
    bytes = λ j lt.
        let e = get_or-take c buffer j (omega (arith, w)) in
        let i : get_or buffer (j - o) 0 ≡ get_or buffer j 0 =
          ap (λ k. get_or buffer k 0) (omega (arith, z)) in
        ground (arith, e, i, z, w);
  }
