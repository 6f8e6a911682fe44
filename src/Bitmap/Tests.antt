-- ===== src/Bitmap/Tests.antt =====
-- Runs of bitmap.c on the sample bitmap.
use cs162_group.Prelude.{
  ℕ, ◌≤◌, ◌<◌, ◌≡◌, ◌⊎◌, ◌↔◌, refl, true, false, some, [], ◌∷◌, Returns, arith, if◌then◌else◌,
}
use cs162_group.Bits.{nth_bit}
use cs162_group.Bitmap.Sample.{map40, map40-IsValid}
use cs162_group.Bitmap.{
  bitmap_error, bitmap_set, bitmap_test, bitmap_set_multiple, bitmap_count, bitmap_all, bitmap_none,
  bitmap_scan_and_flip, bitmap_scan,
}
use cs162_group.Bitmap.Bit.{bit_at, Wrote, bitmap_test-bit_at}
use cs162_group.Bitmap.Range.{
  within, tally, bitmap_set_multiple-Wrote, bitmap_count-tally, all-none_iff,
}
use cs162_group.Bitmap.Scan.{IsFirst, HasNone, bitmap_scan_and_flip-Wrote}

program : Unit {0}
unfolding bitmap_test bitmap_set bitmap_scan bitmap_scan_and_flip bitmap_count nth_bit
program = tt

test_33 : bitmap_test map40 33 ≡ some true
unfolding program
test_33 = refl

scan_four :
    bitmap_scan_and_flip map40 0 4 false ≡ some (3, record { bit_cnt = 40; bits = 127 ∷ 2 ∷ [] })
unfolding program
scan_four = refl

scan_too_many : bitmap_scan map40 0 33 false ≡ some bitmap_error
unfolding program
scan_too_many = refl

bitmap_test-bit_at_example : bitmap_test map40 33 ≡ some (bit_at map40 33)
bitmap_test-bit_at_example = bitmap_test-bit_at map40 33 map40-IsValid (omega arith)

bitmap_set_multiple-Wrote_example :
    Returns
      (bitmap_set_multiple map40 30 4 true)
      (Wrote map40 λ j. if within 30 4 j then true else bit_at map40 j)
bitmap_set_multiple-Wrote_example =
    bitmap_set_multiple-Wrote map40 30 4 true map40-IsValid (omega arith)

bitmap_count-tally_example : bitmap_count map40 0 40 true ≡ some (tally (bit_at map40) 0 40 true)
bitmap_count-tally_example = bitmap_count-tally map40 0 40 true map40-IsValid (omega arith)

all-none_iff_example :
    ((bitmap_all map40 0 3 ≡ some true) ↔ ((j : ℕ) → 0 ≤ j → j < 3 → bit_at map40 j ≡ true))
    × ((bitmap_none map40 0 3 ≡ some true) ↔ ((j : ℕ) → 0 ≤ j → j < 3 → bit_at map40 j ≡ false))
all-none_iff_example = all-none_iff map40 0 3 map40-IsValid (omega arith)

bitmap_scan_and_flip-Wrote_example : Returns (bitmap_scan_and_flip map40 0 4 false) λ r.
    (IsFirst map40 0 4 false r.0
      × Wrote map40 (λ j. if within r.0 4 j then true else bit_at map40 j) r.1)
    ⊎ (r.0 ≡ bitmap_error) × (r.1 ≡ map40) × HasNone map40 0 4 false
bitmap_scan_and_flip-Wrote_example =
    bitmap_scan_and_flip-Wrote map40 map40-IsValid 4 false 0 (omega arith) (omega arith)
