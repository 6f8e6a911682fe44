-- ===== src/Prelude/Count.antt =====
-- Occurrences of a number in a list.
use Prim.Native.Nat.{ℕ, ◌+◌}
use mathlib.Core.Path.{◌≡◌}
use mathlib.Core.List.{List, [], ◌∷◌, ◌++◌}
use native.Mathlib.Omega.{arith}
use cs162_group.Prelude.Tests.{◌==◌, if◌then◌else◌}

abbrev pub count : ℕ → List ℕ → ℕ
count a [] = 0
count a (x ∷ xs) = (if x == a then 1 else 0) + count a xs

pub count-append :
    (t : ℕ) (front back : List ℕ) → count t (front ++ back) ≡ count t back + count t front
count-append t [] back = omega arith
count-append t (u ∷ front) back = let later = count-append t front back in omega (arith, later)
