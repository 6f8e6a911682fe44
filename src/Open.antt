-- ===== src/Open.antt =====
-- pintos/src/filesys/inode.c: the inodes that are open, shared by all who have them open. An address
-- stands for the pointer to a `struct inode`; the next one is new. A use of an address that is not
-- open is `none`, as a failed assertion is. Pointers are not null.
pub mod Write
pub mod Invariant
pub mod Laws
pub mod Append
pub mod Inside
pub mod Sample
mod Tests
use cs162_group.Prelude.{
  ℕ, zero, suc, ◌+◌, ◌-◌, Bool, true, false, Option, none, some, List, [], ◌∷◌, ◌>>=◌, leb, ltb,
  ◌==◌, ◌&&◌, not, if◌then◌else◌, take, get_or, ◌%◌,
}
use cs162_group.Block.{Data}
use cs162_group.Bitmap.{assert}
use cs162_group.Store.Words.{decode}
use cs162_group.Volume.{Volume}
use cs162_group.Inode.{InodeDisk, direct_ptrs}
use cs162_group.Extend.Free.{inode_dealloc}

-- `struct inode`, without its list element.
pub record OpenInode : Type 0 where
  pub sector : ℕ
  pub open_cnt : ℕ
  pub removed : Bool
  pub deny_write_cnt : ℕ
  pub data' : InodeDisk

-- `open_inodes` in the order of the list, each inode under its address.
pub record OpenInodes : Type 0 where
  pub next : ℕ
  pub nodes : List (ℕ × OpenInode)

-- A sector as a `struct inode_disk`.
unfoldable pub of_sector : Data → InodeDisk
of_sector bytes =
    let ws = decode bytes in
    record {
      direct = take direct_ptrs ws;
      indirect_ptr = get_or ws 122 0;
      doubly_indirect_ptr = get_or ws 123 0;
      directory = not (get_or ws 124 0 % 256 == 0);
      parent_node = get_or ws 125 0;
      length' = get_or ws 126 0;
      magic = get_or ws 127 0;
    }

-- The search of `inode_open` for a sector.
abbrev pub open_at : ℕ → List (ℕ × OpenInode) → Option ℕ
open_at sector [] = none
open_at sector ((a, n) ∷ rest) = if n.sector == sector then some a else open_at sector rest

-- The memory behind an address: read, written and freed.
abbrev pub node_at : ℕ → List (ℕ × OpenInode) → Option OpenInode
node_at p [] = none
node_at p ((a, n) ∷ rest) = if a == p then some n else node_at p rest

abbrev pub put_node : ℕ → OpenInode → List (ℕ × OpenInode) → List (ℕ × OpenInode)
put_node p x [] = []
put_node p x ((a, n) ∷ rest) = if a == p then (a, x) ∷ rest else (a, n) ∷ put_node p x rest

abbrev pub remove_node : ℕ → List (ℕ × OpenInode) → List (ℕ × OpenInode)
remove_node p [] = []
remove_node p ((a, n) ∷ rest) = if a == p then rest else (a, n) ∷ remove_node p rest

-- `f` applied to the inode at an address.
unfoldable pub update : ℕ → (OpenInode → Option OpenInode) → OpenInodes → Option OpenInodes
update p f t = do n ← node_at p t.nodes; n' ← f n; some (record t { nodes = put_node p n' t.nodes })

abbrev pub inode_init : OpenInodes
inode_init = record { next = 0; nodes = [] }

unfoldable pub inode_reopen : ℕ → OpenInodes → Option OpenInodes
unfolding update
inode_reopen p t = update p (λ n. some (record n { open_cnt = n.open_cnt + 1 })) t

unfoldable pub inode_remove : ℕ → OpenInodes → Option OpenInodes
unfolding update
inode_remove p t = update p (λ n. some (record n { removed = true })) t

unfoldable pub inode_deny_write : ℕ → OpenInodes → Option OpenInodes
unfolding update
inode_deny_write p t =
    update p
      (λ n. do
        _ ← assert (leb (n.deny_write_cnt + 1) n.open_cnt)
        some (record n { deny_write_cnt = n.deny_write_cnt + 1 }))
      t

unfoldable pub inode_allow_write : ℕ → OpenInodes → Option OpenInodes
unfolding update
inode_allow_write p t =
    update p
      (λ n. do
        _ ← assert (ltb 0 n.deny_write_cnt && leb n.deny_write_cnt n.open_cnt)
        some (record n { deny_write_cnt = n.deny_write_cnt - 1 }))
      t

unfoldable pub inode_length : ℕ → OpenInodes → Option ℕ
inode_length p t = do n ← node_at p t.nodes; some n.data'.length'

unfoldable pub inode_get_inumber : ℕ → OpenInodes → Option ℕ
inode_get_inumber p t = do n ← node_at p t.nodes; some n.sector

unfoldable pub inode_removed : ℕ → OpenInodes → Option Bool
inode_removed p t = do n ← node_at p t.nodes; some n.removed

unfoldable pub inode_is_dir : ℕ → OpenInodes → Option Bool
inode_is_dir p t = do n ← node_at p t.nodes; some n.data'.directory

-- Only the copy in memory is changed.
unfoldable pub inode_set_parent : ℕ → ℕ → OpenInodes → Option OpenInodes
unfolding update
inode_set_parent dest parent t = do
  q ← node_at parent t.nodes
  update dest (λ n. some (record n { data' = record n.data' { parent_node = q.sector } })) t

unfoldable pub inode_set_disknode_directory : ℕ → Bool → OpenInodes → Option OpenInodes
unfolding update
inode_set_disknode_directory p is_dir t =
    update p (λ n. some (record n { data' = record n.data' { directory = is_dir } })) t

unfoldable pub inode_get_parent : ℕ → OpenInodes → Option ℕ
inode_get_parent p t = do n ← node_at p t.nodes; some n.data'.parent_node

module _ (v : Volume) where
  open v use {State, read, release}

  unfoldable pub inode_open : ℕ → OpenInodes → State → Option (ℕ × OpenInodes × State)
  unfolding inode_reopen update of_sector
  inode_open sector t w = elim (open_at sector t.nodes) [
    | some p ↦ (do t' ← inode_reopen p t; some (p, t', w))
    | none ↦ (do
      (bytes, w') ← read sector w
      let n : OpenInode = record {
        sector = sector;
        open_cnt = 1;
        removed = false;
        deny_write_cnt = 0;
        data' = of_sector bytes;
      }
      some (t.next, record { next = t.next + 1; nodes = (t.next, n) ∷ t.nodes }, w'))
  ]

  -- The blocks of an inode that was removed.
  unfoldable pub close_blocks : OpenInode → State → Option State
  close_blocks n w =
      if n.removed then (do w₁ ← release n.sector w; inode_dealloc v n.data' w₁) else some w

  -- The count of an inode that is open is not 0.
  unfoldable pub inode_close : ℕ → OpenInodes → State → Option (OpenInodes × State)
  unfolding close_blocks
  inode_close p t w = do
    n ← node_at p t.nodes
    let c = n.open_cnt - 1
    if n.open_cnt == 1
        then (do w' ← close_blocks n w; some (record t { nodes = remove_node p t.nodes }, w'))
        else some (record t { nodes = put_node p (record n { open_cnt = c }) t.nodes }, w)
