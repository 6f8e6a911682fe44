-- ===== src/Strings/Search.antt =====
-- Searches in strings.
use cs162_group.Prelude.{
  ℕ, zero, suc, ◌%◌, ◌<◌, ◌≡◌, ◌≢◌, refl, ◌∙◌, Bool, true, false, not, Option, none, some, List, [],
  ◌∷◌, ◌++◌, ◌>>=◌, ◌==◌, ◌||◌, if◌then◌else◌, arith, Returns, Bool-cases, inl, inr, length,
  get_elem?,
}
use cs162_group.Strings.{strchr, find_char, is_in, later, strcspn, strspn, strlen}
use cs162_group.Strings.Compare.{AllBytes}

-- The length of a string is the number of bytes before its terminator.
pub strlen-length : (a rest : List ℕ) → AllBytes a → strlen (a ++ 0 ∷ rest) ≡ some (length a)
unfolding strlen
strlen-length [] rest h = refl
strlen-length (x ∷ a) rest h =
    let x' : (x == 0) ≡ false = ground (arith, h.0) in rw (x', strlen-length a rest h.1) refl

-- What a search for `c` may give: the first place of `c`, or nothing if there is none.
abbrev pub Found : ℕ → List ℕ → Option ℕ → Type 0
Found c xs none = (j : ℕ) → get_elem? xs j ≢ some c
Found c xs (some i) = (get_elem? xs i ≡ some c) × ((j : ℕ) → j < i → get_elem? xs j ≢ some c)

-- The place of `c` is not that of a head that differs from it.
past_head :
    (x c : ℕ) (xs : List ℕ) (j : ℕ)
    → (x == c) ≡ false
    → get_elem? (x ∷ xs) j ≡ some c
    → (k : ℕ) × (j ≡ suc k) × (get_elem? xs k ≡ some c)
past_head x c xs zero ne e = absurd (ground (arith, ne, e))
past_head x c xs (suc k) ne e = (k, refl, e)

Found-later :
    (x c : ℕ) (xs : List ℕ) (r : Option ℕ)
    → (x == c) ≡ false
    → Found c xs r
    → Returns (later (some r)) (Found c (x ∷ xs))
Found-later x c xs none ne h =
    (none, refl, λ j e. let (k, _, at) = past_head x c xs j ne e in h k at)
Found-later x c xs (some i) ne h = (
  some (suc i),
  refl,
  (h.0, λ j lt e. let (k, s, at) = past_head x c xs j ne e in h.1 k (omega (arith, s)) at),
)

find_char-Found :
    (a rest : List ℕ) (c : ℕ)
    → AllBytes a
    → Returns (find_char (a ++ 0 ∷ rest) c) (Found c (a ++ 0 ∷ []))
unfolding find_char
find_char-Found [] rest c h = elim (Bool-cases (0 == c)) [
  | inl e ↦ (some 0, rw e refl, (ground (arith, e), λ j lt. absurd (omega arith)))
  | inr e ↦ (
    none,
    rw e refl,
    λ j at. let (k, _, at') = past_head 0 c [] j e at in absurd (ground (arith, at')),
  )
]
find_char-Found (x ∷ a) rest c h =
    let x' : (x == 0) ≡ false = ground (arith, h.0) in
    elim (Bool-cases (x == c)) [
      | inl e ↦ (some 0, rw e refl, (ground (arith, e), λ j lt. absurd (omega arith)))
      | inr e ↦
          let (r, run, f) = find_char-Found a rest c h.1 in
          let (q, eq, g) = Found-later x c (a ++ 0 ∷ []) r e f in (q, rw (e, x', run) eq, g)
    ]

-- `strchr` finds the first place of a character in a string, the terminator counted, or tells that there
-- is none; it does not read past the terminator. The character is the low byte of the argument.
pub strchr-Found :
    (a rest : List ℕ) (c : ℕ)
    → AllBytes a
    → Returns (strchr (a ++ 0 ∷ rest) c) (Found (c % 256) (a ++ 0 ∷ []))
unfolding strchr
strchr-Found a rest c h = find_char-Found a rest (c % 256) h

abbrev pub member : ℕ → List ℕ → Bool
member x [] = false
member x (y ∷ ys) = y == x || member x ys

-- The length of the longest prefix whose bytes all pass a test.
abbrev pub prefix_length : (ℕ → Bool) → List ℕ → ℕ
prefix_length test [] = 0
prefix_length test (x ∷ xs) = if test x then suc (prefix_length test xs) else 0

is_in-later : (r : Option ℕ) → Returns (later (some r)) λ q. is_in q ≡ is_in r
is_in-later none = (none, refl, refl)
is_in-later (some i) = (some (suc i), refl, refl)

find_char-member :
    (s rest : List ℕ) (x : ℕ)
    → AllBytes s
    → 0 < x
    → Returns (find_char (s ++ 0 ∷ rest) x) λ r. is_in r ≡ member x s
unfolding find_char
find_char-member [] rest x h pos = (none, ground arith, refl)
find_char-member (y ∷ s) rest x h pos =
    let y' : (y == 0) ≡ false = ground (arith, h.0) in
    elim (Bool-cases (y == x)) [
      | inl e ↦ (some 0, rw e refl, rw e refl)
      | inr e ↦
          let (r, run, same) = find_char-member s rest x h.1 pos in
          let (q, eq, same') = is_in-later r in (q, rw (e, y', run) eq, rw e (same' ∙ same))
    ]

-- On strings of bytes that are not 0, `strcspn` gives the length of the longest prefix with no byte of
-- `stop`, and `strspn` that of the longest prefix with bytes of `stop` alone. Neither reads past a
-- terminator.
pub strcspn-prefix_length :
    (a stop rest rest' : List ℕ)
    → AllBytes a
    → AllBytes stop
    → (strcspn (a ++ 0 ∷ rest) (stop ++ 0 ∷ rest')
        ≡ some (prefix_length (λ x. not (member x stop)) a))
      × (strspn (a ++ 0 ∷ rest) (stop ++ 0 ∷ rest') ≡ some (prefix_length (λ x. member x stop) a))
unfolding strcspn strspn
strcspn-prefix_length [] stop rest rest' h h' = (refl, refl)
strcspn-prefix_length (x ∷ a) stop rest rest' h h' =
    let x' : (x == 0) ≡ false = ground (arith, h.0) in
    let (r, run, same) = find_char-member stop rest' x h' h.0 in
    let (c, s) = strcspn-prefix_length a stop rest rest' h.1 h' in
    elim (Bool-cases (member x stop)) [
      | inl e ↦
          let in' : is_in r ≡ true = same ∙ e in
          (rw (x', run, ◌>>=◌, in', e) refl, rw (x', run, ◌>>=◌, in', e, s) refl)
      | inr e ↦
          let out : is_in r ≡ false = same ∙ e in
          (rw (x', run, ◌>>=◌, out, e, c) refl, rw (x', run, ◌>>=◌, out, e) refl)
    ]
