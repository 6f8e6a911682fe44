-- ===== src/Strings/Compare.antt =====
-- Comparisons, and what they decide.
use cs162_group.Prelude.{
  ℕ, zero, suc, ◌≤◌, ◌<◌, ◌≡◌, refl, some, List, [], ◌∷◌, ◌++◌, ◌==◌, ltb, if◌then◌else◌, arith,
  Bool-cases, inl, inr, length, take,
}
use cs162_group.Prelude.Int.{ℤ, pos, negsuc}
use cs162_group.Strings.{memcmp, strcmp}

-- The order of the first bytes in which two runs of bytes differ.
abbrev pub first_difference : List ℕ → List ℕ → ℤ
first_difference [] b = pos 0
first_difference (x ∷ a) [] = pos 0
first_difference (x ∷ a) (y ∷ b) =
    if x == y then first_difference a b else if ltb y x then pos 1 else negsuc 0

-- On blocks that are long enough `memcmp` gives the order of the first difference within `size` bytes.
pub memcmp-first_difference :
    (size : ℕ) (a b : List ℕ)
    → size ≤ length a
    → size ≤ length b
    → memcmp size a b ≡ some (first_difference (take size a) (take size b))
unfolding memcmp
memcmp-first_difference zero a b h h' = refl
memcmp-first_difference (suc size) [] b h h' = absurd (omega arith)
memcmp-first_difference (suc size) (x ∷ a) [] h h' = absurd (omega arith)
memcmp-first_difference (suc size) (x ∷ a) (y ∷ b) h h' = elim (Bool-cases (x == y)) [
  | inl e ↦ rw e (memcmp-first_difference size a b (omega arith) (omega arith))
  | inr e ↦ rw e refl
]

-- A string without its terminator.
abbrev pub AllBytes : List ℕ → Type 0
AllBytes [] = Unit
AllBytes (x ∷ xs) = (0 < x) × AllBytes xs

-- The order of two strings: that of their first difference, a prefix before what it is a prefix of.
abbrev pub lexical : List ℕ → List ℕ → ℤ
lexical [] [] = pos 0
lexical [] (y ∷ b) = negsuc 0
lexical (x ∷ a) [] = pos 1
lexical (x ∷ a) (y ∷ b) = if ltb x y then negsuc 0 else if ltb y x then pos 1 else lexical a b

-- Two strings of bytes that are not 0, each ended by a 0, are compared without a read past the
-- memory, and give the order of the two strings, whatever follows the 0.
pub strcmp-lexical :
    (a b rest rest' : List ℕ)
    → AllBytes a
    → AllBytes b
    → strcmp (a ++ 0 ∷ rest) (b ++ 0 ∷ rest') ≡ some (lexical a b)
unfolding strcmp
strcmp-lexical [] [] rest rest' h h' = refl
strcmp-lexical [] (y ∷ b) rest rest' h h' = ground (arith, h'.0)
strcmp-lexical (x ∷ a) [] rest rest' h h' = ground (arith, h.0)
strcmp-lexical (x ∷ a) (y ∷ b) rest rest' h h' =
    let more = strcmp-lexical a b rest rest' h.1 h'.1 in ground (arith, more, h.0, h'.0)
