-- ===== src/Block/Laws.antt =====
-- What a sector read and a sector write do to a block device, on every branch.
use cs162_group.Prelude.{
  ℕ, ◌+◌, ◌%◌, ◌^◌, ◌≤◌, ◌<◌, ◌≡◌, false, none, ◌==◌, arith, if◌then◌else◌, Returns, refl,
}
use cs162_group.Block.{Device, Data, is_foreign, block_read, block_write}

-- A write inside a device that is not foreign succeeds, changes that sector alone, and counts.
pub block_write-Returns :
    (dev : Device) (sector : ℕ) (d : Data)
    → sector < dev.size
    → is_foreign dev.type ≡ false
    → Returns (block_write dev sector d) λ dev'.
      ((s : ℕ) → dev'.sectors s ≡ (if s == sector then d else dev.sectors s))
      × (dev'.size ≡ dev.size)
      × (dev'.type ≡ dev.type)
      × (dev'.read_cnt ≡ dev.read_cnt)
      × (dev'.write_cnt ≡ (dev.write_cnt + 1) % 2 ^ 64)
unfolding block_write
block_write-Returns dev sector d h k = (
  record dev {
    sectors = λ t. if t == sector then d else dev.sectors t;
    write_cnt = (dev.write_cnt + 1) % 2 ^ 64;
  },
  ground arith,
  ((λ s. refl), refl, refl, refl, refl),
)

-- A sector past the end makes either operation panic.
pub past_end_panics :
    (dev : Device) (sector : ℕ) (d : Data)
    → dev.size ≤ sector
    → (block_read dev sector ≡ none) × (block_write dev sector d ≡ none)
unfolding block_read block_write
past_end_panics dev sector d h = ground arith
