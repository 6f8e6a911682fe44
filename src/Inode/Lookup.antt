-- ===== src/Inode/Lookup.antt =====
-- `byte_to_sector`: from a byte position to the sector that holds it.
use cs162_group.Prelude.{ℕ, ◌-◌, ◌/◌, ◌%◌, Option, some, List, ◌>>=◌, ltb, if◌then◌else◌, get_elem?}
use cs162_group.Prelude.Int.{ℤ, pos, negsuc}
use cs162_group.Store.{Store}
use cs162_group.Store.Words.{decode}
use cs162_group.Inode.{
  InodeDisk, sector_size, direct_limit, indirect_limit, doubly_indirect_limit, indirect_block_ptrs,
  no_sector,
}

module _ (store : Store) where
  open store use {State, read}

  -- A sector read into a `struct indirect_block`.
  unfoldable pub read_block : ℕ → State → Option (List ℕ × State)
  read_block s w = do (d, w') ← read s w; some (decode d, w')

  unfoldable pub byte_to_sector : InodeDisk → ℤ → State → Option (ℕ × State)
  unfolding read_block
  byte_to_sector d (negsuc _) w = some (no_sector, w)
  byte_to_sector d (pos p) w =
      let block_index = p / sector_size in
      if ltb d.length' p
      then some (no_sector, w)
      else if ltb block_index direct_limit
      then (do s ← get_elem? d.direct block_index; some (s, w))
      else if ltb block_index indirect_limit
      then (do
        (ptrs, w₁) ← read_block d.indirect_ptr w
        s ← get_elem? ptrs (block_index - direct_limit)
        some (s, w₁))
      else if ltb block_index doubly_indirect_limit
      then (do
        (outer, w₁) ← read_block d.doubly_indirect_ptr w
        t ← get_elem? outer ((block_index - indirect_limit) / indirect_block_ptrs)
        (ptrs, w₂) ← read_block t w₁
        s ← get_elem? ptrs ((block_index - indirect_limit) % indirect_block_ptrs)
        some (s, w₂))
      else some (no_sector, w)
