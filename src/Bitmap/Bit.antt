-- ===== src/Bitmap/Bit.antt =====
-- Single bits: each operation changes the bit that it names, and the invariant of the packed words.
use Prim.Native.Nat.{bit_and, bit_or, bit_xor}
use cs162_group.Prelude.{
  ℕ, ◌-◌, ◌*◌, ◌%◌, ◌≤◌, ◌<◌, ◌≡◌, refl, Bool, true, false, not, some, List, [], ◌∷◌, zero, suc,
  arith, ◌==◌, if◌then◌else◌, get_elem?, get_or, set, length, length-set, Returns,
}
use cs162_group.Bits.{
  nth_bit, bit_and-mask, nth_bit-bit_or, nth_bit-bit_xor, nth_bit-clear, bit_or-lt, bit_xor-lt,
  bit_and-le, pow_pos,
}
use cs162_group.Bitmap.{
  Bitmap, word_mod, elem_idx, bit_mask, elem_bits, change, bitmap_mark, bitmap_reset, bitmap_flip,
  bitmap_set, bitmap_test, bitmap_error,
}

-- Bit `i` of the bitmap.
unfoldable pub bit_at : Bitmap → ℕ → Bool
bit_at b i = nth_bit (get_or b.bits (elem_idx i) 0) (i % elem_bits)

-- Each bit has a word to stand in, and the words have 32 bits.
pub record IsValid (b : Bitmap) : Type 0 where
  pub room : b.bit_cnt ≤ elem_bits * length b.bits
  pub small : b.bit_cnt ≤ bitmap_error
  pub words : (i : ℕ) → get_or b.bits i 0 < word_mod

module _ {ℓ} {A : Type ℓ} where
  pub get_of_or :
      (xs : List A) (i : ℕ) (d : A) → i < length xs → get_elem? xs i ≡ some (get_or xs i d)
  get_of_or [] i d h = absurd (omega arith)
  get_of_or (x ∷ xs) zero d h = refl
  get_of_or (x ∷ xs) (suc i) d h = get_of_or xs i d (omega arith)

  pub get_or-set :
      (xs : List A) (i j : ℕ) (v d : A)
      → i < length xs
      → get_or (set xs i v) j d ≡ (if j == i then v else get_or xs j d)
  get_or-set [] i j v d h = absurd (omega arith)
  get_or-set (x ∷ xs) zero zero v d h = refl
  get_or-set (x ∷ xs) zero (suc j) v d h = ground arith
  get_or-set (x ∷ xs) (suc i) zero v d h = ground arith
  get_or-set (x ∷ xs) (suc i) (suc j) v d h = ground (arith, get_or-set xs i j v d)

-- The test of a bit in range gives that bit.
pub bitmap_test-bit_at :
    (b : Bitmap) (i : ℕ) → IsValid b → i < b.bit_cnt → bitmap_test b i ≡ some (bit_at b i)
unfolding bitmap_test bit_at
bitmap_test-bit_at b i v h =
    let w = get_or b.bits (elem_idx i) 0 in
    ground (
      arith,
      get_of_or b.bits (elem_idx i) 0 (omega (arith, v.room)),
      bit_and-mask w (i % elem_bits),
      pow_pos (i % elem_bits),
    )

-- Bit `i` is now `value`, and no other bit has changed.
pub record Wrote (b : Bitmap) (f : ℕ → Bool) (b' : Bitmap) : Type 0 where
  pub valid : IsValid b'
  pub size : b'.bit_cnt ≡ b.bit_cnt
  pub bits : (j : ℕ) → bit_at b' j ≡ f j

module _ (b : Bitmap) (v : IsValid b) (i : ℕ) (h : i < b.bit_cnt) where
  in_words : elem_idx i < length b.bits
  in_words = omega (arith, v.room)

  -- A word operation that keeps to 32 bits and changes one bit of the word.
  change-Wrote :
      (op : ℕ → ℕ) (f : ℕ → Bool)
      → op (get_or b.bits (elem_idx i) 0) < word_mod
      → ((j : ℕ)
          → nth_bit (op (get_or b.bits (elem_idx i) 0)) (j % elem_bits) ≡ (
              if j % elem_bits == i % elem_bits
              then f i
              else nth_bit (get_or b.bits (elem_idx i) 0) (j % elem_bits)))
      → Returns (change b (elem_idx i) op) (Wrote b λ j. if j == i then f i else bit_at b j)
  unfolding bit_at
  change-Wrote op f fits bits =
      let w = get_or b.bits (elem_idx i) 0 in
      let now = λ (j : ℕ). get_or-set b.bits (elem_idx i) j (op w) 0 in_words in
      (
        record b { bits = set b.bits (elem_idx i) (op w) },
        rw (get_of_or b.bits (elem_idx i) 0 in_words) refl,
        record {
          valid = record {
            room = omega (arith, v.room, length-set b.bits (elem_idx i) (op w));
            small = v.small;
            words = λ j. ground (arith, now j, v.words j);
          };
          size = refl;
          bits = λ j. ground (arith, now (elem_idx j), bits j);
        },
      )

  -- Marking sets bit `i` alone.
  pub bitmap_mark-Wrote :
      Returns (bitmap_mark b i) (Wrote b λ j. if j == i then true else bit_at b j)
  unfolding bitmap_mark
  bitmap_mark-Wrote =
      let w = get_or b.bits (elem_idx i) 0 in
      change-Wrote (λ w. bit_or w (bit_mask i)) (λ _. true)
        (bit_or-lt 32 w (i % 32) (v.words (elem_idx i)) (omega arith))
        (λ j. nth_bit-bit_or w (i % 32) (j % 32))

  -- Resetting clears bit `i` alone.
  pub bitmap_reset-Wrote :
      Returns (bitmap_reset b i) (Wrote b λ j. if j == i then false else bit_at b j)
  unfolding bitmap_reset
  bitmap_reset-Wrote =
      let w = get_or b.bits (elem_idx i) 0 in
      change-Wrote (λ w. bit_and w (word_mod - 1 - bit_mask i)) (λ _. false)
        (omega (arith, bit_and-le w (word_mod - 1 - bit_mask i), v.words (elem_idx i)))
        (λ j. nth_bit-clear 32 w (i % 32) (j % 32) (v.words (elem_idx i)) (omega arith))

  -- In a valid bitmap, flipping a bit in range does not panic, turns it over and leaves every
  -- other bit.
  pub bitmap_flip-Wrote :
      Returns (bitmap_flip b i) (Wrote b λ j. if j == i then not (bit_at b i) else bit_at b j)
  unfolding bitmap_flip bit_at
  bitmap_flip-Wrote =
      let w = get_or b.bits (elem_idx i) 0 in
      change-Wrote (λ w. bit_xor w (bit_mask i)) (λ j. not (bit_at b j))
        (bit_xor-lt 32 w (i % 32) (v.words (elem_idx i)) (omega arith))
        (λ j. ground (arith, nth_bit-bit_xor w (i % 32) (j % 32)))

  -- In a valid bitmap, setting a bit in range to a value does not panic and changes that bit
  -- alone, whichever the value.
  pub bitmap_set-Wrote :
      (value : Bool)
      → Returns (bitmap_set b i value) (Wrote b λ j. if j == i then value else bit_at b j)
  unfolding bitmap_set
  bitmap_set-Wrote true = let (b', run, w) = bitmap_mark-Wrote in (b', ground (arith, run), w)
  bitmap_set-Wrote false = let (b', run, w) = bitmap_reset-Wrote in (b', ground (arith, run), w)
