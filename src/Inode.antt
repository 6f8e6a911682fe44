-- ===== src/Inode.antt =====
-- pintos/src/filesys/inode.c: the on-disk inode with its three levels of sector pointers. `Lookup`
-- and `Read` follow the pointers, over any store of sectors. A panic is `none`; memory allocation is
-- taken to succeed.
pub mod Lookup
pub mod Table
pub mod Read
pub mod Content
pub mod Splice
pub mod Patch
pub mod Sample
mod Tests
use cs162_group.Prelude.{ℕ, Bool, List, ◌+◌, ◌-◌, ◌*◌, ◌/◌, ◌^◌}

abbrev pub sector_size : ℕ
sector_size = 512

abbrev pub direct_ptrs : ℕ
direct_ptrs = 122

abbrev pub indirect_block_ptrs : ℕ
indirect_block_ptrs = 128

-- The first block indices that the direct, indirect and doubly indirect pointers do not reach.
abbrev pub direct_limit : ℕ
direct_limit = direct_ptrs

abbrev pub indirect_limit : ℕ
indirect_limit = direct_limit + indirect_block_ptrs

abbrev pub doubly_indirect_limit : ℕ
doubly_indirect_limit = indirect_limit + indirect_block_ptrs * indirect_block_ptrs

-- `(block_sector_t) -1`.
abbrev pub no_sector : ℕ
no_sector = 2 ^ 32 - 1

-- `struct inode_disk`. `inode_create` asserts that a length is not negative.
pub record InodeDisk : Type 0 where
  pub direct : List ℕ
  pub indirect_ptr : ℕ
  pub doubly_indirect_ptr : ℕ
  pub directory : Bool
  pub parent_node : ℕ
  pub length' : ℕ
  pub magic : ℕ
