-- ===== src/Open/Write.antt =====
-- `inode_write_at` on an open inode.
use cs162_group.Prelude.{
  ℕ, zero, suc, ◌+◌, Bool, true, false, not, Option, some, List, ◌>>=◌, ◌==◌, if◌then◌else◌,
}
use cs162_group.Prelude.Int.{ℤ, pos, negsuc}
use cs162_group.Bitmap.{Bitmap}
use cs162_group.Store.{Store}
use cs162_group.Volume.{Volume, of_free_map}
use cs162_group.Inode.{no_sector}
use cs162_group.Inode.Lookup.{byte_to_sector}
use cs162_group.Inode.Read.{write_loop}
use cs162_group.Extend.Grow.{inode_extend}
use cs162_group.Extend.Make.{to_sector}
use cs162_group.Open.{OpenInode, OpenInodes, node_at, put_node}

-- `offset + size - 1`, which is -1 for an empty write at the start.
abbrev pub last_byte : ℕ → ℕ → ℤ
last_byte offset zero = minus_one offset
  where
    minus_one : ℕ → ℤ
    minus_one zero = negsuc 0
    minus_one (suc o) = pos o
last_byte offset (suc size) = pos (offset + size)

module _ (store : Store) (has_file : Bool)
    (write_map : Bitmap → store.State → Option (Bool × store.State)) where
  open store use {State}

  abbrev pub volume : Volume
  volume = of_free_map store has_file write_map

  -- The extension before the loop, if the last byte has no sector: whether to go on, and the inode in
  -- memory, which keeps the new pointers of an extension that failed.
  unfoldable pub grow_for :
      OpenInode → ℕ → ℕ → Bitmap × State → Option (Bool × OpenInode × (Bitmap × State))
  grow_for n size offset (m, w) = do
    (s, w₁) ← byte_to_sector store n.data' (last_byte offset size) w
    if s == no_sector
        then (do
          (ok, d, w₂) ← inode_extend volume n.data' (offset + size) (m, w₁)
          let n' : OpenInode = record n { data' = d }
          let n'' : OpenInode = record n { data' = record d { length' = offset + size } }
          if ok
              then (do w₃ ← volume.write n.sector (to_sector n''.data') w₂; some (true, n'', w₃))
              else some (false, n', w₂))
        else some (true, n, (m, w₁))

  -- `buffer` has `size` bytes or more. The result is the number of bytes written.
  unfoldable pub inode_write_at :
      ℕ → List ℕ → ℕ → ℕ → OpenInodes → Bitmap × State → Option (ℕ × OpenInodes × (Bitmap × State))
  unfolding grow_for write_loop
  inode_write_at p buffer size offset t w = do
    n ← node_at p t.nodes
    if not (n.deny_write_cnt == 0) then some (0, t, w) else (do
      (go, n', (m, w₁)) ← grow_for n size offset w
      let t' : OpenInodes = record t { nodes = put_node p n' t.nodes }
      if go
          then (do
            (written, w₂) ← write_loop store (suc size) n'.data' buffer size offset 0 w₁
            some (written, t', (m, w₂)))
          else some (0, t', (m, w₁)))
