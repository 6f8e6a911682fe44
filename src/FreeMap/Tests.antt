-- ===== src/FreeMap/Tests.antt =====
-- The free map on concrete maps, with no state but the map.
use cs162_group.Prelude.{
  ℕ, ◌+◌, ◌≤◌, ◌<◌, ◌≡◌, refl, Bool, true, false, Option, none, some, Returns, if◌then◌else◌, arith,
}
use cs162_group.Bitmap.{Bitmap}
use cs162_group.Bitmap.Bit.{bit_at, Wrote}
use cs162_group.Bitmap.Range.{within}
use cs162_group.FreeMap.{free_map_release}
use cs162_group.FreeMap.Laws.{Writes, free_map_release-Wrote}
use cs162_group.Bitmap.Sample.{map40, map40-IsValid}

-- A write of the map that succeeds, and one that does not.
abbrev taken : Bitmap → Unit {0} → Option (Bool × Unit {0})
taken m w = some (true, w)

abbrev refused : Bitmap → Unit {0} → Option (Bool × Unit {0})
refused m w = some (false, w)

abbrev Any : Unit {0} → Type 0
Any w = Unit

taken_total : Writes true taken Any
taken_total m w good = ((true, w), refl, tt)

free_map_release-Wrote_example :
    (((j : ℕ) → 0 ≤ j → j < 0 + 3 → bit_at map40 j ≡ true)
      → Returns
          (free_map_release true taken 0 3 (map40, tt))
          λ r. Wrote map40 (λ j. if within 0 3 j then false else bit_at map40 j) r.0 × Any r.1)
    × ((j : ℕ)
        → 0 ≤ j
        → j < 0 + 3
        → bit_at map40 j ≡ false
        → free_map_release true taken 0 3 (map40, tt) ≡ none)
free_map_release-Wrote_example =
    free_map_release-Wrote true taken Any taken_total 0 3 map40 tt map40-IsValid tt (omega arith)
