-- ===== src/Directory/Names.antt =====
-- Names of entries.
use cs162_group.Prelude.{
  ℕ, ◌≡◌, refl, sym, ap, ◌∙◌, Bool, true, false, some, List, [], ◌∷◌, ◌++◌, arith, Bool-cases, inl,
  inr, ltb,
}
use mathlib.Core.Path.{ap₂}
use cs162_group.Prelude.Int.{pos}
use cs162_group.Strings.{strcmp}
use cs162_group.Strings.Build.{is_zero}
use cs162_group.Strings.Compare.{AllBytes, lexical, strcmp-lexical}
use cs162_group.Directory.{DirEntry, is_match}

-- The entry's name is this string.
abbrev pub IsNamed : List ℕ → DirEntry → Type 0
IsNamed a e = (rest : List ℕ) × (e.name ≡ a ++ 0 ∷ rest)

-- An entry that is in use has a name that is ended by a 0.
abbrev pub IsEnded : DirEntry → Type 0
IsEnded e = e.in_use ≡ true → (b : List ℕ) × AllBytes b × IsNamed b e

lexical_zero : (a b : List ℕ) → is_zero (lexical a b) ≡ true → a ≡ b
lexical_zero [] [] h = refl
lexical_zero [] (y ∷ b) h = absurd (ground arith)
lexical_zero (x ∷ a) [] h = absurd (ground arith)
lexical_zero (x ∷ a) (y ∷ b) h = elim (Bool-cases (ltb x y)) [
  | inl lt ↦ absurd (ground (arith, h, lt))
  | inr nlt ↦ elim (Bool-cases (ltb y x)) [
    | inl gt ↦ absurd (ground (arith, h, nlt, gt))
    | inr ngt ↦
        let more : is_zero (lexical a b) ≡ true = rw (nlt, ngt) at h in
        let same : x ≡ y = ground arith in ap₂ ◌∷◌ same (lexical_zero a b more)
  ]
]

lexical_refl : (a : List ℕ) → lexical a a ≡ pos 0
lexical_refl [] = refl
lexical_refl (x ∷ a) = let n : ltb x x ≡ false = ground arith in rw n (lexical_refl a)

-- The comparison of `lookup` says whether an entry is in use and has the name.
pub is_match-IsNamed :
    (a rest : List ℕ) (e : DirEntry)
    → AllBytes a
    → IsEnded e
    → (found : Bool) × (is_match (a ++ 0 ∷ rest) e ≡ some found)
      × (found ≡ true → (e.in_use ≡ true) × IsNamed a e)
      × (found ≡ false → e.in_use ≡ true → ¬ IsNamed a e)
is_match-IsNamed a rest e bytes ended = elim (Bool-cases e.in_use) [
  | inl used ↦
      let (b, bytes', (rest', named)) = ended used in
      let z : strcmp (a ++ 0 ∷ rest) e.name ≡ some (lexical a b) =
        ap (strcmp (a ++ 0 ∷ rest)) named ∙ strcmp-lexical a b rest rest' bytes bytes' in
      (
        is_zero (lexical a b),
        rw (used, z) refl,
        (λ h. (used, (rest', named ∙ ap (λ x. x ++ 0 ∷ rest') (sym (lexical_zero a b h))))),
        (λ h used' (rest'', named').
            let z' =
              ap (strcmp (a ++ 0 ∷ rest)) named' ∙ strcmp-lexical a a rest rest'' bytes bytes in
            let same : lexical a b ≡ lexical a a = cc in
            absurd (cc (h, ap is_zero (same ∙ lexical_refl a)))),
      )
  | inr unused ↦ (false, rw unused refl, (λ h. cc), (λ h used. cc))
]
