-- ===== src/Bitmap/Sample.antt =====
-- A bitmap of 40 bits in two words, of which 0 to 2 and 33 are set.
use cs162_group.Prelude.{ℕ, zero, suc, ◌<◌, [], ◌∷◌, arith, get_or}
use cs162_group.Bitmap.{Bitmap, word_mod}
use cs162_group.Bitmap.Bit.{IsValid}

abbrev pub map40 : Bitmap
map40 = record { bit_cnt = 40; bits = 7 ∷ 2 ∷ [] }

map40_words : (i : ℕ) → get_or map40.bits i 0 < word_mod
map40_words zero = omega arith
map40_words (suc zero) = omega arith
map40_words (suc (suc i)) = omega arith

pub map40-IsValid : IsValid map40
map40-IsValid = record { room = omega arith; small = omega arith; words = map40_words }
