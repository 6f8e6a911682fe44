-- ===== src/Bitmap.antt =====
-- pintos/src/lib/kernel/bitmap.c: an array of bits packed in 32-bit words. A failed assertion, and
-- an access outside the array of words, is `none`; memory allocation is taken to succeed.
pub mod Bit
pub mod Range
pub mod Scan
pub mod Sample
mod Tests
use Prim.Native.Nat.{bit_and, bit_or, bit_xor}
use cs162_group.Prelude.{
  ℕ, zero, suc, ◌+◌, ◌-◌, ◌*◌, ◌/◌, ◌%◌, ◌^◌, Bool, true, false, not, ◌&&◌, Option, none, some,
  List, ◌>>=◌, ltb, leb, ◌==◌, if◌then◌else◌, get_elem?, set, replicate,
}

-- `struct bitmap`.
pub record Bitmap : Type 0 where
  pub bit_cnt : ℕ
  pub bits : List ℕ

-- `size_t` and `elem_type` have 32 bits.
abbrev pub word_mod : ℕ
word_mod = 2 ^ 32

abbrev pub elem_bits : ℕ
elem_bits = 32

-- `SIZE_MAX`.
abbrev pub bitmap_error : ℕ
bitmap_error = word_mod - 1

abbrev pub elem_idx : ℕ → ℕ
elem_idx bit_idx = bit_idx / elem_bits

abbrev pub bit_mask : ℕ → ℕ
bit_mask bit_idx = 2 ^ (bit_idx % elem_bits)

-- `DIV_ROUND_UP (bit_cnt, ELEM_BITS)`, whose sum may wrap.
unfoldable pub elem_cnt : ℕ → ℕ
elem_cnt bit_cnt = (bit_cnt + elem_bits - 1) % word_mod / elem_bits

unfoldable pub byte_cnt : ℕ → ℕ
byte_cnt bit_cnt = 4 * elem_cnt bit_cnt

unfoldable pub last_mask : Bitmap → ℕ
last_mask b =
    let last_bits = b.bit_cnt % elem_bits in
    if last_bits == 0 then word_mod - 1 else 2 ^ last_bits - 1

abbrev pub assert : Bool → Option (Unit {0})
assert true = some tt
assert false = none

-- `bits[i] = op (bits[i])`.
abbrev pub change : Bitmap → ℕ → (ℕ → ℕ) → Option Bitmap
change b i op = do w ← get_elem? b.bits i; some (record b { bits = set b.bits i (op w) })

unfoldable pub bitmap_mark : Bitmap → ℕ → Option Bitmap
bitmap_mark b idx = change b (elem_idx idx) (λ w. bit_or w (bit_mask idx))

-- The complement of the mask is taken in 32 bits.
unfoldable pub bitmap_reset : Bitmap → ℕ → Option Bitmap
bitmap_reset b idx = change b (elem_idx idx) (λ w. bit_and w (word_mod - 1 - bit_mask idx))

unfoldable pub bitmap_flip : Bitmap → ℕ → Option Bitmap
bitmap_flip b idx = change b (elem_idx idx) (λ w. bit_xor w (bit_mask idx))

unfoldable pub bitmap_set : Bitmap → ℕ → Bool → Option Bitmap
unfolding bitmap_mark bitmap_reset
bitmap_set b idx value = do
  _ ← assert (ltb idx b.bit_cnt)
  if value then bitmap_mark b idx else bitmap_reset b idx

unfoldable pub bitmap_test : Bitmap → ℕ → Option Bool
bitmap_test b idx = do
  _ ← assert (ltb idx b.bit_cnt)
  w ← get_elem? b.bits (elem_idx idx)
  some (not (bit_and w (bit_mask idx) == 0))

-- The assertions of the operations on `cnt` bits from `start` on; the sum may wrap.
abbrev pub in_bounds : Bitmap → ℕ → ℕ → Bool
in_bounds b start cnt = leb start b.bit_cnt && leb ((start + cnt) % word_mod) b.bit_cnt

-- `for (i = 0; i < cnt; i++) bitmap_set (b, start + i, value)`, on the rounds left.
unfoldable pub set_loop : ℕ → Bitmap → ℕ → Bool → Option Bitmap
set_loop zero b pos value = some b
set_loop (suc n) b pos value = do b' ← bitmap_set b pos value; set_loop n b' (pos + 1) value

unfoldable pub bitmap_set_multiple : Bitmap → ℕ → ℕ → Bool → Option Bitmap
unfolding set_loop bitmap_set
bitmap_set_multiple b start cnt value = do
  _ ← assert (in_bounds b start cnt)
  set_loop cnt b start value

unfoldable pub bitmap_set_all : Bitmap → Bool → Option Bitmap
unfolding bitmap_set_multiple
bitmap_set_all b value = bitmap_set_multiple b 0 b.bit_cnt value

-- `garbage` is what the freshly allocated words hold.
unfoldable pub bitmap_create : ℕ → (ℕ → List ℕ) → Option Bitmap
unfolding bitmap_set_all elem_cnt
bitmap_create bit_cnt garbage =
    bitmap_set_all (record { bit_cnt = bit_cnt; bits = garbage (elem_cnt bit_cnt) }) false

abbrev pub same : Bool → Bool → Bool
same true v = v
same false v = not v

unfoldable pub count_loop : ℕ → Bitmap → ℕ → Bool → ℕ → Option ℕ
count_loop zero b pos value value_cnt = some value_cnt
count_loop (suc n) b pos value value_cnt = do
  t ← bitmap_test b pos
  count_loop n b (pos + 1) value (if same t value then value_cnt + 1 else value_cnt)

unfoldable pub bitmap_count : Bitmap → ℕ → ℕ → Bool → Option ℕ
unfolding count_loop bitmap_test
bitmap_count b start cnt value = do
  _ ← assert (in_bounds b start cnt)
  count_loop cnt b start value 0

unfoldable pub contains_loop : ℕ → Bitmap → ℕ → Bool → Option Bool
contains_loop zero b pos value = some false
contains_loop (suc n) b pos value = do
  t ← bitmap_test b pos
  let rest = contains_loop n b (pos + 1) value
  if same t value then some true else rest

unfoldable pub bitmap_contains : Bitmap → ℕ → ℕ → Bool → Option Bool
unfolding contains_loop bitmap_test
bitmap_contains b start cnt value = do
  _ ← assert (in_bounds b start cnt)
  contains_loop cnt b start value

unfoldable pub bitmap_any : Bitmap → ℕ → ℕ → Option Bool
unfolding bitmap_contains
bitmap_any b start cnt = bitmap_contains b start cnt true

unfoldable pub bitmap_none : Bitmap → ℕ → ℕ → Option Bool
unfolding bitmap_contains
bitmap_none b start cnt = do t ← bitmap_contains b start cnt true; some (not t)

unfoldable pub bitmap_all : Bitmap → ℕ → ℕ → Option Bool
unfolding bitmap_contains
bitmap_all b start cnt = do t ← bitmap_contains b start cnt false; some (not t)

-- `for (i = start; i <= last; i++)`, on the rounds left.
unfoldable pub scan_loop : ℕ → Bitmap → ℕ → ℕ → Bool → Option ℕ
scan_loop zero b i cnt value = some bitmap_error
scan_loop (suc n) b i cnt value = do
  t ← bitmap_contains b i cnt (not value)
  let rest = scan_loop n b (i + 1) cnt value
  if t then rest else some i

unfoldable pub bitmap_scan : Bitmap → ℕ → ℕ → Bool → Option ℕ
unfolding scan_loop bitmap_contains
bitmap_scan b start cnt value = do
  _ ← assert (leb start b.bit_cnt)
  if leb cnt b.bit_cnt
      then scan_loop (b.bit_cnt - cnt + 1 - start) b start cnt value
      else some bitmap_error

unfoldable pub bitmap_scan_and_flip : Bitmap → ℕ → ℕ → Bool → Option (ℕ × Bitmap)
unfolding bitmap_scan bitmap_set_multiple
bitmap_scan_and_flip b start cnt value = do
  idx ← bitmap_scan b start cnt value
  if idx == bitmap_error
      then some (idx, b)
      else (do b' ← bitmap_set_multiple b idx cnt (not value); some (idx, b'))
