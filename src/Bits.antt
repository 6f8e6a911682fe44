-- ===== src/Bits.antt =====
-- Single bits of a machine word, and what `|`, `^` with a one-bit mask, `& mask` and `& ~mask` do.
use Prim.Native.Nat.{
  bit_and, bit_or, bit_xor, digits, differ, bit_and-bitwise, bit_or-bitwise, bit_xor-bitwise, min,
  max,
}
use native.Mathlib.Nat.{pow-suc}
use cs162_group.Prelude.{
  ℕ, zero, suc, ◌+◌, ◌-◌, ◌*◌, ◌/◌, ◌%◌, ◌^◌, ◌≤◌, ◌<◌, ◌≡◌, refl, ap, Bool, true, false, not,
  arith, ◌==◌, if◌then◌else◌,
}

-- Bit `k` of the word `w`.
unfoldable pub nth_bit : ℕ → ℕ → Bool
nth_bit w zero = w % 2 == 1
nth_bit w (suc k) = nth_bit (w / 2) k

-- A digit-wise operation takes the lowest digits apart, however many digits it is told to read.
module _ (z : ℕ → ℕ) (f : ℕ → ℕ → ℕ) where
  digits_enough : (n m a b : ℕ) → a ≤ n → a ≤ m → digits z f n a b ≡ digits z f m a b
  digits_enough zero zero zero b p q = refl
  digits_enough zero (suc m) zero b p q = refl
  digits_enough (suc n) zero zero b p q = refl
  digits_enough (suc n) (suc m) zero b p q = refl
  digits_enough zero zero (suc a) b p q = refl
  digits_enough zero (suc m) (suc a) b p q = absurd (omega arith)
  digits_enough (suc n) zero (suc a) b p q = absurd (omega arith)
  digits_enough (suc n) (suc m) (suc a) b p q =
      omega (arith, digits_enough n m (suc a / 2) (b / 2) (omega arith) (omega arith))

  digits_step :
      (a b : ℕ)
      → z b ≡ z (b / 2) * 2 + f 0 (b % 2)
      → digits z f a a b ≡ digits z f (a / 2) (a / 2) (b / 2) * 2 + f (a % 2) (b % 2)
  digits_step zero b h = h
  digits_step (suc a) b h =
      omega (arith, digits_enough a (suc a / 2) (suc a / 2) (b / 2) (omega arith) (omega arith))

pub bit_or_step : (a b : ℕ) → bit_or a b ≡ bit_or (a / 2) (b / 2) * 2 + max (a % 2) (b % 2)
bit_or_step a b = omega (
  arith,
  bit_or-bitwise a b,
  bit_or-bitwise (a / 2) (b / 2),
  digits_step (λ b. b) max a b (omega arith),
)

pub bit_and_step : (a b : ℕ) → bit_and a b ≡ bit_and (a / 2) (b / 2) * 2 + min (a % 2) (b % 2)
bit_and_step a b = omega (
  arith,
  bit_and-bitwise a b,
  bit_and-bitwise (a / 2) (b / 2),
  digits_step (λ b. 0) min a b (omega arith),
)

pub bit_xor_step : (a b : ℕ) → bit_xor a b ≡ bit_xor (a / 2) (b / 2) * 2 + differ (a % 2) (b % 2)
bit_xor_step a b = omega (
  arith,
  bit_xor-bitwise a b,
  bit_xor-bitwise (a / 2) (b / 2),
  digits_step (λ b. b) differ a b (omega arith),
)

differ-zero : (a : ℕ) → a < 2 → differ a 0 ≡ a
differ-zero zero h = refl
differ-zero (suc a) h = refl

differ-one : (a : ℕ) → a < 2 → differ a 1 ≡ 1 - a
differ-one zero h = refl
differ-one (suc zero) h = refl
differ-one (suc (suc a)) h = absurd (omega arith)

bit_or-zero : (n a : ℕ) → a ≤ n → bit_or a 0 ≡ a
bit_or-zero n zero h = omega (arith, bit_or_step 0 0, bit_or-bitwise 0 0)
bit_or-zero zero (suc a) h = absurd (omega arith)
bit_or-zero (suc n) (suc a) h =
    omega (arith, bit_or_step (suc a) 0, bit_or-zero n (suc a / 2) (omega arith))

bit_xor-zero : (n a : ℕ) → a ≤ n → bit_xor a 0 ≡ a
bit_xor-zero n zero h = refl
bit_xor-zero zero (suc a) h = absurd (omega arith)
bit_xor-zero (suc n) (suc a) h = omega (
  arith,
  bit_xor_step (suc a) 0,
  bit_xor-zero n (suc a / 2) (omega arith),
  differ-zero (suc a % 2) (omega arith),
)

bit_and-zero : (n a : ℕ) → a ≤ n → bit_and a 0 ≡ 0
bit_and-zero n zero h = refl
bit_and-zero zero (suc a) h = absurd (omega arith)
bit_and-zero (suc n) (suc a) h =
    omega (arith, bit_and_step (suc a) 0, bit_and-zero n (suc a / 2) (omega arith))

pub pow_pos : (n : ℕ) → 0 < 2 ^ n
pow_pos zero = omega arith
pow_pos (suc n) = omega (arith, pow-suc 2 n, pow_pos n)

-- A mask of one bit, halved.
half_mask : (k : ℕ) → 2 ^ suc k / 2 ≡ 2 ^ k
half_mask k = omega (arith, pow-suc 2 k)

even_mask : (k : ℕ) → 2 ^ suc k % 2 ≡ 0
even_mask k = omega (arith, pow-suc 2 k)

-- What a mask of one bit selects.
pub bit_and-mask : (w k : ℕ) → bit_and w (2 ^ k) ≡ (if nth_bit w k then 2 ^ k else 0)
unfolding nth_bit
bit_and-mask w zero = ground (arith, bit_and_step w 1, bit_and-zero (w / 2) (w / 2) (omega arith))
bit_and-mask w (suc k) = ground (
  arith,
  bit_and_step w (2 ^ suc k),
  ap (bit_and (w / 2)) (half_mask k),
  even_mask k,
  bit_and-mask (w / 2) k,
  pow-suc 2 k,
)

-- `w | mask` sets the bit and no other.
pub nth_bit-bit_or :
    (w k j : ℕ) → nth_bit (bit_or w (2 ^ k)) j ≡ (if j == k then true else nth_bit w j)
unfolding nth_bit
nth_bit-bit_or w zero zero = ground (arith, bit_or_step w 1)
nth_bit-bit_or w zero (suc j) =
    let e : bit_or w 1 / 2 ≡ w / 2 =
      omega (arith, bit_or_step w 1, bit_or-zero (w / 2) (w / 2) (omega arith)) in
    ground (arith, e)
nth_bit-bit_or w (suc k) zero = ground (arith, bit_or_step w (2 ^ suc k), even_mask k)
nth_bit-bit_or w (suc k) (suc j) =
    let e : bit_or w (2 ^ suc k) / 2 ≡ bit_or (w / 2) (2 ^ k) =
      omega (arith, bit_or_step w (2 ^ suc k), even_mask k, ap (bit_or (w / 2)) (half_mask k)) in
    ground (arith, e, nth_bit-bit_or (w / 2) k j)

-- `w ^ mask` turns the bit over and no other.
pub nth_bit-bit_xor :
    (w k j : ℕ)
    → nth_bit (bit_xor w (2 ^ k)) j ≡ (if j == k then not (nth_bit w j) else nth_bit w j)
unfolding nth_bit
nth_bit-bit_xor w zero zero = ground (arith, bit_xor_step w 1, differ-one (w % 2) (omega arith))
nth_bit-bit_xor w zero (suc j) =
    let e : bit_xor w 1 / 2 ≡ w / 2 = omega (
      arith,
      bit_xor_step w 1,
      bit_xor-zero (w / 2) (w / 2) (omega arith),
      differ-one (w % 2) (omega arith),
    ) in
    ground (arith, e)
nth_bit-bit_xor w (suc k) zero =
    ground (arith, bit_xor_step w (2 ^ suc k), even_mask k, differ-zero (w % 2) (omega arith))
nth_bit-bit_xor w (suc k) (suc j) =
    let e : bit_xor w (2 ^ suc k) / 2 ≡ bit_xor (w / 2) (2 ^ k) = omega (
      arith,
      bit_xor_step w (2 ^ suc k),
      even_mask k,
      ap (bit_xor (w / 2)) (half_mask k),
      ap (differ (w % 2)) (even_mask k),
      differ-zero (w % 2) (omega arith),
    ) in
    ground (arith, e, nth_bit-bit_xor (w / 2) k j)

pow_lt : (k n : ℕ) → k < n → 2 ^ k < 2 ^ n
pow_lt k zero h = elim h [ ]
pow_lt zero (suc n) h = omega (arith, pow-suc 2 n, pow_pos n)
pow_lt (suc k) (suc n) h = omega (arith, pow-suc 2 n, pow-suc 2 k, pow_lt k n (omega arith))

-- All of `n` bits set.
bit_and_ones : (n a : ℕ) → a < 2 ^ n → bit_and a (2 ^ n - 1) ≡ a
bit_and_ones zero a h = let e : a ≡ 0 = omega (arith, h) in rw e refl
bit_and_ones (suc n) a h =
    let half : (2 ^ suc n - 1) / 2 ≡ 2 ^ n - 1 = omega (arith, pow-suc 2 n, pow_pos n) in
    omega (
      arith,
      bit_and_step a (2 ^ suc n - 1),
      bit_and_ones n (a / 2) (omega (arith, pow-suc 2 n)),
      ap (bit_and (a / 2)) half,
      pow-suc 2 n,
      pow_pos n,
    )

-- `w & ~mask`, in words of `n` bits, clears the bit and no other.
pub nth_bit-clear :
    (n w k j : ℕ)
    → w < 2 ^ n
    → k < n
    → nth_bit (bit_and w (2 ^ n - 1 - 2 ^ k)) j ≡ (if j == k then false else nth_bit w j)
unfolding nth_bit
nth_bit-clear zero w k j h lt = absurd (omega arith)
nth_bit-clear (suc n) w zero zero h lt =
    ground (arith, bit_and_step w (2 ^ suc n - 1 - 1), pow-suc 2 n, pow_pos n)
nth_bit-clear (suc n) w zero (suc j) h lt =
    let half : (2 ^ suc n - 1 - 1) / 2 ≡ 2 ^ n - 1 = omega (arith, pow-suc 2 n, pow_pos n) in
    let e : bit_and w (2 ^ suc n - 1 - 1) / 2 ≡ w / 2 = omega (
      arith,
      bit_and_step w (2 ^ suc n - 1 - 1),
      ap (bit_and (w / 2)) half,
      pow-suc 2 n,
      pow_pos n,
      bit_and_ones n (w / 2) (omega (arith, pow-suc 2 n)),
    ) in
    ground (arith, e)
nth_bit-clear (suc n) w (suc k) zero h lt =
    let odd : (2 ^ suc n - 1 - 2 ^ suc k) % 2 ≡ 1 =
      omega (arith, pow-suc 2 n, pow-suc 2 k, pow_lt k n (omega arith)) in
    ground (arith, bit_and_step w (2 ^ suc n - 1 - 2 ^ suc k), odd)
nth_bit-clear (suc n) w (suc k) (suc j) h lt =
    let m = 2 ^ suc n - 1 - 2 ^ suc k in
    let lt' : 2 ^ k < 2 ^ n = pow_lt k n (omega arith) in
    let half : m / 2 ≡ 2 ^ n - 1 - 2 ^ k = omega (arith, pow-suc 2 n, pow-suc 2 k) in
    let e : bit_and w m / 2 ≡ bit_and (w / 2) (2 ^ n - 1 - 2 ^ k) =
      omega (arith, bit_and_step w m, ap (bit_and (w / 2)) half) in
    ground (arith, e, nth_bit-clear n (w / 2) k j (omega (arith, pow-suc 2 n)) (omega arith))

-- The operations stay inside words of `n` bits.
pub bit_or-lt : (n w k : ℕ) → w < 2 ^ n → k < n → bit_or w (2 ^ k) < 2 ^ n
bit_or-lt zero w k h lt = absurd (omega arith)
bit_or-lt (suc n) w zero h lt =
    omega (arith, bit_or_step w 1, bit_or-zero (w / 2) (w / 2) (omega arith), pow-suc 2 n)
bit_or-lt (suc n) w (suc k) h lt = omega (
  arith,
  bit_or_step w (2 ^ suc k),
  even_mask k,
  ap (bit_or (w / 2)) (half_mask k),
  bit_or-lt n (w / 2) k (omega (arith, pow-suc 2 n)) (omega arith),
  pow-suc 2 n,
)

pub bit_xor-lt : (n w k : ℕ) → w < 2 ^ n → k < n → bit_xor w (2 ^ k) < 2 ^ n
bit_xor-lt zero w k h lt = absurd (omega arith)
bit_xor-lt (suc n) w zero h lt = omega (
  arith,
  bit_xor_step w 1,
  bit_xor-zero (w / 2) (w / 2) (omega arith),
  differ-one (w % 2) (omega arith),
  pow-suc 2 n,
)
bit_xor-lt (suc n) w (suc k) h lt = omega (
  arith,
  bit_xor_step w (2 ^ suc k),
  ap (differ (w % 2)) (even_mask k),
  differ-zero (w % 2) (omega arith),
  ap (bit_xor (w / 2)) (half_mask k),
  bit_xor-lt n (w / 2) k (omega (arith, pow-suc 2 n)) (omega arith),
  pow-suc 2 n,
)

bit_and-le_fuel : (n a b : ℕ) → a ≤ n → bit_and a b ≤ a
bit_and-le_fuel n zero b h = omega (arith, bit_and-bitwise 0 b)
bit_and-le_fuel zero (suc a) b h = absurd (omega arith)
bit_and-le_fuel (suc n) (suc a) b h =
    omega (arith, bit_and_step (suc a) b, bit_and-le_fuel n (suc a / 2) (b / 2) (omega arith))

pub bit_and-le : (a b : ℕ) → bit_and a b ≤ a
bit_and-le a b = bit_and-le_fuel a a b (omega arith)
