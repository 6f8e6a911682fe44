-- ===== src/Prelude/Options.antt =====
-- Runs that may panic: `none` is a failed assertion or a kernel panic.
use mathlib.Core.Option.{Option, none, some}
use mathlib.Core.Path.{◌≡◌}

infixl 5 ◌>>=◌
abbrev pub ◌>>=◌ {ℓ κ} : {A : Type ℓ} {B : Type κ} → Option A → (A → Option B) → Option B
none >>= f = none
some a >>= f = f a

-- The run does not panic, and its result satisfies `P`.
abbrev pub Returns {ℓ κ} : {A : Type ℓ} → Option A → (A → Type κ) → Type (ℓ ⊔ κ)
Returns {A} r P = (a : A) × (r ≡ some a) × P a
