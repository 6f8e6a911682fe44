-- ===== src/Extend.antt =====
-- pintos/src/filesys/inode.c: the making, growing and freeing of an inode's blocks, over a volume. A
-- result of false leaves the pointers set so far, as the code does. Memory allocation is taken to
-- succeed, and lengths to stay 511 below 2 ^ 31, where `bytes_to_sectors` does not overflow.
pub mod Grow
pub mod Make
pub mod Free
pub mod Alloc
pub mod Gaps
pub mod Leak
pub mod Laws
mod Tests
use cs162_group.Prelude.{
  ℕ, zero, suc, ◌+◌, ◌-◌, ◌*◌, ◌/◌, ◌%◌, Bool, true, false, Option, none, some, List, ◌>>=◌, leb,
  ltb, ◌==◌, if◌then◌else◌, set, get_elem?, replicate,
}
use cs162_group.Block.{Data}
use cs162_group.Bitmap.{assert}
use cs162_group.Store.Words.{decode, encode}
use cs162_group.Volume.{Volume}
use cs162_group.Inode.{InodeDisk, sector_size, indirect_block_ptrs}

-- `DIV_ROUND_UP`.
abbrev pub div_round_up : ℕ → ℕ → ℕ
div_round_up x step = (x + step - 1) / step

abbrev pub bytes_to_sectors : ℕ → ℕ
bytes_to_sectors size = div_round_up size sector_size

abbrev pub empty : Data
empty = replicate sector_size 0

module _ (v : Volume) where
  open v use {State, read, write, allocate}

  -- A sector as a `struct indirect_block`, read and written.
  unfoldable pub load_block : ℕ → State → Option (List ℕ × State)
  load_block s w = do (d, w') ← read s w; some (decode d, w')

  unfoldable pub save_block : ℕ → List ℕ → State → Option State
  save_block s ptrs w = write s (encode ptrs) w

  -- The loop that allocates and clears a sector for each pointer from `i` on, on the rounds left.
  unfoldable pub alloc_ptrs : ℕ → List ℕ → ℕ → State → Option (Bool × List ℕ × State)
  alloc_ptrs zero ptrs i w = some (true, ptrs, w)
  alloc_ptrs (suc k) ptrs i w = do
    (got, w₁) ← allocate w
    elim got [
      | none ↦ some (false, ptrs, w₁)
      | some s ↦ (do w₂ ← write s empty w₁; alloc_ptrs k (set ptrs i s) (i + 1) w₂)
    ]

  -- `stop` is one past the `stop_index` of the code, which may be -1.
  unfoldable pub allocate_indirect_block : List ℕ → ℕ → ℕ → State → Option (Bool × List ℕ × State)
  unfolding alloc_ptrs
  allocate_indirect_block ptrs start stop w = do
    _ ← assert (leb stop indirect_block_ptrs)
    alloc_ptrs (stop - start) ptrs start w
