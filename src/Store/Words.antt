-- ===== src/Store/Words.antt =====
-- Little-endian 32-bit words in a run of bytes: how a sector is read and written as an array of
-- sector numbers.
use cs162_group.Prelude.{ℕ, ◌+◌, ◌*◌, ◌/◌, ◌%◌, ◌^◌, ◌<◌, ◌≡◌, refl, List, [], ◌∷◌, arith, length}
use mathlib.Core.Path.{ap₂}

unfoldable pub decode : List ℕ → List ℕ
decode (a ∷ b ∷ c ∷ d ∷ rest) = (a + 256 * b + 65536 * c + 16777216 * d) ∷ decode rest
decode _ = []

unfoldable pub encode : List ℕ → List ℕ
encode [] = []
encode (w ∷ ws) = w % 256 ∷ (w / 256 % 256) ∷ (w / 65536 % 256) ∷ (w / 16777216 % 256) ∷ encode ws

abbrev pub AllWords : List ℕ → Type 0
AllWords [] = Unit
AllWords (w ∷ ws) = (w < 2 ^ 32) × AllWords ws

-- Words of 32 bits come back from the bytes that they are stored as.
pub decode-encode : (ws : List ℕ) → AllWords ws → decode (encode ws) ≡ ws
unfolding decode encode
decode-encode [] h = refl
decode-encode (w ∷ ws) h = ap₂ ◌∷◌ (omega (arith, h.0)) (decode-encode ws h.1)

pub length-encode : (ws : List ℕ) → length (encode ws) ≡ 4 * length ws
unfolding encode
length-encode [] = refl
length-encode (w ∷ ws) = omega (arith, length-encode ws)

pub length-decode : (bs : List ℕ) → length (decode bs) ≡ length bs / 4
unfolding decode
length-decode (a ∷ b ∷ c ∷ d ∷ rest) = omega (arith, length-decode rest)
length-decode _ = refl
