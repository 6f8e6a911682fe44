-- ===== src/File.antt =====
-- pintos/src/filesys/file.c: a file is an open inode with a position. A `struct file` is passed in and
-- handed out; its inode is an address among the open inodes. `calloc` is taken to succeed, so
-- `file_open` gives null exactly for a null inode.
pub mod Laws
mod Tests
use cs162_group.Prelude.{
  ℕ, ◌+◌, Bool, true, false, Option, none, some, List, ◌>>=◌, if◌then◌else◌, length,
}
use cs162_group.Bitmap.{Bitmap}
use cs162_group.Store.{Store}
use cs162_group.Volume.{Volume}
use cs162_group.Inode.Read.{inode_read_at}
use cs162_group.Open.{
  OpenInodes, node_at, inode_reopen, inode_close, inode_length, inode_deny_write, inode_allow_write,
}
use cs162_group.Open.Write.{volume, inode_write_at}

-- `struct file`.
pub record File : Type 0 where
  pub inode : ℕ
  pub pos : ℕ
  pub deny_write : Bool

unfoldable pub file_open : Option ℕ → Option File
file_open none = none
file_open (some inode) = some (record { inode = inode; pos = 0; deny_write = false })

unfoldable pub file_reopen : File → OpenInodes → Option (Option File × OpenInodes)
unfolding file_open
file_reopen f t = do t' ← inode_reopen f.inode t; some (file_open (some f.inode), t')

unfoldable pub file_get_inode : File → ℕ
file_get_inode f = f.inode

unfoldable pub file_deny_write : File → OpenInodes → Option (File × OpenInodes)
file_deny_write f t =
    if f.deny_write
    then some (f, t)
    else (do t' ← inode_deny_write f.inode t; some (record f { deny_write = true }, t'))

unfoldable pub file_allow_write : File → OpenInodes → Option (File × OpenInodes)
file_allow_write f t =
    if f.deny_write
    then (do t' ← inode_allow_write f.inode t; some (record f { deny_write = false }, t'))
    else some (f, t)

unfoldable pub file_length : File → OpenInodes → Option ℕ
file_length f t = inode_length f.inode t

-- The new position is not negative.
unfoldable pub file_seek : File → ℕ → File
file_seek f new_pos = record f { pos = new_pos }

unfoldable pub file_tell : File → ℕ
file_tell f = f.pos

module _ (v : Volume) where
  open v use {State}

  unfoldable pub file_close : Option File → OpenInodes → State → Option (OpenInodes × State)
  unfolding file_allow_write
  file_close none t w = some (t, w)
  file_close (some f) t w = do (f', t') ← file_allow_write f t; inode_close v f'.inode t' w

module _ (store : Store) (has_file : Bool)
    (write_map : Bitmap → store.State → Option (Bool × store.State)) where
  open store use {State}

  -- The bytes read; their number is the function's result.
  unfoldable pub file_read_at : File → ℕ → ℕ → OpenInodes → State → Option (List ℕ × State)
  file_read_at f size file_ofs t w = do
    n ← node_at f.inode t.nodes
    inode_read_at store n.data' size file_ofs w

  unfoldable pub file_read : File → ℕ → OpenInodes → State → Option (List ℕ × File × State)
  unfolding file_read_at
  file_read f size t w = do
    (bytes, w') ← file_read_at f size f.pos t w
    some (bytes, record f { pos = f.pos + length bytes }, w')

  unfoldable pub file_write_at :
      File
      → List ℕ
      → ℕ
      → ℕ
      → OpenInodes
      → Bitmap × State
      → Option (ℕ × OpenInodes × (Bitmap × State))
  file_write_at f buffer size file_ofs t w =
      inode_write_at store has_file write_map f.inode buffer size file_ofs t w

  unfoldable pub file_write :
      File
      → List ℕ
      → ℕ
      → OpenInodes
      → Bitmap × State
      → Option (ℕ × File × OpenInodes × (Bitmap × State))
  unfolding file_write_at
  file_write f buffer size t w = do
    (written, t', w') ← file_write_at f buffer size f.pos t w
    some (written, record f { pos = f.pos + written }, t', w')
