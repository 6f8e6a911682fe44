-- ===== src/Strings/Bound.antt =====
-- What `strlcpy` writes stays within its bound.
use Prim.Native.Nat.{min}
use cs162_group.Prelude.{
  ℕ, ◌+◌, ◌-◌, ◌≤◌, ◌<◌, ◌≡◌, ◌⊎◌, refl, ◌∙◌, true, some, List, [], ◌∷◌, ◌>>=◌, ltb, ◌==◌,
  if◌then◌else◌, arith, Returns, Bool-cases, Option-cases, inl, inr, get_or, set, length,
  length-drop, length-set, drop,
}
use cs162_group.Bitmap.Bit.{get_or-set}
use cs162_group.Bitmap.Range.{within}
use cs162_group.Strings.{store, memcpy, strlen}
use cs162_group.Strings.Copy.{memcpy-Put, store-Returns}
use cs162_group.Strings.Build.{at_most, strlcpy}

strlen-bound : (xs : List ℕ) (n : ℕ) → strlen xs ≡ some n → n < length xs
unfolding strlen
strlen-bound [] n e = absurd (ground (arith, e))
strlen-bound (x ∷ xs) n e = elim (Bool-cases (x == 0)) [
  | inl z ↦ ground (arith, e, z)
  | inr z ↦ elim (Option-cases (strlen xs)) [
    | inl none' ↦ absurd (ground (arith, e, z, none'))
    | inr (k, at) ↦ let lt = strlen-bound xs k at in ground (arith, e, z, at, lt)
  ]
]

strlcpy-run :
    (mem mem₁ mem₂ : List ℕ) (dst src size n p : ℕ)
    → strlen (drop src mem) ≡ some n
    → 0 < size
    → memcpy dst src (min n (size - 1)) mem ≡ some (p, mem₁)
    → store mem₁ (dst + min n (size - 1)) 0 ≡ some mem₂
    → strlcpy dst src size mem ≡ some (n, mem₂)
unfolding strlcpy
strlcpy-run mem mem₁ mem₂ dst src size n p len pos run stored =
    let cut : at_most n (size - 1) ≡ min n (size - 1) = ground arith in
    let go : ltb 0 size ≡ true = ground arith in rw (len, ◌>>=◌, go, cut, run, stored) refl

-- A copy of a string within `size` bytes at a place apart from it does not panic. It gives the length of
-- the string, puts as much of the string as leaves room for a terminator, and the terminator, and
-- changes no other byte.
pub strlcpy-bytes :
    (mem : List ℕ) (dst src size n : ℕ)
    → strlen (drop src mem) ≡ some n
    → dst + size ≤ length mem
    → 0 < size
    → (dst ≤ src) ⊎ (src + n ≤ dst)
    → Returns (strlcpy dst src size mem) λ r.
      (r.0 ≡ n)
      × (length r.1 ≡ length mem)
      × ((j : ℕ)
          → get_or r.1 j 0 ≡ (
              if j == dst + min n (size - 1)
              then 0
              else if within dst (min n (size - 1)) j
              then get_or mem (src + (j - dst)) 0
              else get_or mem j 0))
strlcpy-bytes mem dst src size n len room pos apart =
    let k = min n (size - 1) in
    let inside : src + n < length mem =
      omega (arith, strlen-bound (drop src mem) n len, length-drop src mem) in
    let ((p, mem₁), run, (put, same)) =
      memcpy-Put mem dst src k (omega arith) (omega arith) (omega arith) in
    let end : dst + k < length mem₁ = omega (arith, put.size) in
    let stored = store-Returns mem₁ (dst + k) 0 end in
    (
      (n, set mem₁ (dst + k) 0),
      strlcpy-run mem mem₁ (set mem₁ (dst + k) 0) dst src size n p len pos run stored,
      (
        refl,
        length-set mem₁ (dst + k) 0 ∙ put.size,
        λ j. ground (arith, get_or-set mem₁ (dst + k) j 0 0 end, put.bytes j),
      ),
    )
