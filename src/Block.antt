-- ===== src/Block.antt =====
-- pintos/src/devices/block.c: sector reads and writes of one block device. The driver behind the
-- operation table is a store of sectors; a panic is `none`.
pub mod Laws
mod Tests
use cs162_group.Prelude.{
  ℕ, ◌+◌, ◌%◌, ◌^◌, Bool, Option, none, some, List, ◌>>=◌, ltb, leb, ◌==◌, if◌then◌else◌,
}

-- The bytes of a sector.
abbrev pub Data : Type 0
Data = List ℕ

-- `enum block_type`; the constructors after `raw` are no roles.
pub data BlockType : Type 0 where
  kernel filesys scratch swap raw foreign : BlockType

-- `struct block`, the driver's private data being the sectors themselves.
pub record Device : Type 0 where
  pub type : BlockType
  pub size : ℕ
  pub sectors : ℕ → Data
  pub read_cnt : ℕ
  pub write_cnt : ℕ

abbrev pub is_foreign : BlockType → Bool
is_foreign foreign = Bool.true
is_foreign _ = Bool.false

-- The driver's write operation: one sector changes.
abbrev pub overwrite : (ℕ → Data) → ℕ → Data → ℕ → Data
overwrite f s d t = if t == s then d else f t

-- Panics on a sector past the end of the device.
unfoldable pub check_sector : Device → ℕ → Option (Unit {0})
check_sector dev sector = if leb dev.size sector then none else some tt

unfoldable pub block_read : Device → ℕ → Option (Data × Device)
unfolding check_sector
block_read dev sector = do
  _ ← check_sector dev sector
  some (dev.sectors sector, record dev { read_cnt = (dev.read_cnt + 1) % 2 ^ 64 })

unfoldable pub block_write : Device → ℕ → Data → Option Device
unfolding check_sector
block_write dev sector buffer = do
  _ ← check_sector dev sector
  if is_foreign dev.type
      then none
      else some (record dev {
        sectors = overwrite dev.sectors sector buffer;
        write_cnt = (dev.write_cnt + 1) % 2 ^ 64;
      })
