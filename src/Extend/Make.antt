-- ===== src/Extend/Make.antt =====
-- `inode_alloc` and `inode_create`.
use cs162_group.Prelude.{
  ℕ, Bool, true, false, ◌&&◌, Option, none, some, [], ◌∷◌, ◌++◌, ◌>>=◌, replicate,
}
use cs162_group.Block.{Data}
use cs162_group.Store.Words.{encode}
use cs162_group.Volume.{Volume}
use cs162_group.Inode.{InodeDisk, direct_ptrs}
use cs162_group.Extend.{empty}
use cs162_group.Extend.Grow.{inode_extend}

abbrev pub inode_magic : ℕ
inode_magic = 0x494e4f44

abbrev pub bool_word : Bool → ℕ
bool_word true = 1
bool_word false = 0

-- The 512 bytes of a `struct inode_disk`: 128 words, the `bool` in the first byte of its own.
unfoldable pub to_sector : InodeDisk → Data
to_sector d = encode (
    d.direct
    ++ (d.indirect_ptr
        ∷ d.doubly_indirect_ptr
        ∷ bool_word d.directory
        ∷ d.parent_node
        ∷ d.length'
        ∷ d.magic
        ∷ []))

-- What `calloc` gives, with the two fields that are set at once.
abbrev pub new_inode : Bool → InodeDisk
new_inode directory = record {
  direct = replicate direct_ptrs 0;
  indirect_ptr = 0;
  doubly_indirect_ptr = 0;
  directory = directory;
  parent_node = 0;
  length' = 0;
  magic = inode_magic;
}

module _ (v : Volume) where
  open v use {State, write, allocate}

  unfoldable pub alloc_doubly : InodeDisk → State → Option (Bool × InodeDisk × State)
  alloc_doubly d w = do
    (got, w₁) ← allocate w
    elim got [
      | none ↦ some (false, d, w₁)
      | some s ↦ (do w₂ ← write s empty w₁; some (true, record d { doubly_indirect_ptr = s }, w₂))
    ]

  unfoldable pub inode_alloc : InodeDisk → State → Option (Bool × InodeDisk × State)
  unfolding alloc_doubly
  inode_alloc d w = do
    (got, w₁) ← allocate w
    elim got [
      | none ↦ some (false, d, w₁)
      | some s ↦ (do w₂ ← write s empty w₁; alloc_doubly (record d { indirect_ptr = s }) w₂)
    ]

  -- The inode is extended and written to its sector even if `inode_alloc` failed.
  unfoldable pub inode_create : ℕ → ℕ → Bool → State → Option (Bool × State)
  inode_create sector len directory w = do
    (success, d₁, w₁) ← inode_alloc (new_inode directory) w
    (extended, d₂, w₂) ← inode_extend v d₁ len w₁
    w₃ ← write sector (to_sector d₂) w₂
    some (extended && success, w₃)
