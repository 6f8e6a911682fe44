-- ===== src/Store/Pieces.antt =====
-- The parts of a list made of two.
use cs162_group.Prelude.{
  ℕ, zero, suc, ◌+◌, ◌≡◌, refl, ap, List, [], ◌∷◌, ◌++◌, arith, take, get_or, length,
}

pub take-append : (xs ys : List ℕ) (n : ℕ) → length xs ≡ n → take n (xs ++ ys) ≡ xs
take-append [] ys zero e = refl
take-append [] ys (suc n) e = absurd (omega (arith, e))
take-append (x ∷ xs) ys zero e = absurd (omega (arith, e))
take-append (x ∷ xs) ys (suc n) e = ap (λ l. x ∷ l) (take-append xs ys n (omega (arith, e)))

pub get_or-append :
    (xs ys : List ℕ) (i k d : ℕ) → i ≡ length xs + k → get_or (xs ++ ys) i d ≡ get_or ys k d
get_or-append [] ys i k d e = ap (λ j. get_or ys j d) (omega (arith, e))
get_or-append (x ∷ xs) ys zero k d e = absurd (omega (arith, e))
get_or-append (x ∷ xs) ys (suc i) k d e = get_or-append xs ys i k d (omega (arith, e))
