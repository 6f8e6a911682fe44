-- ===== src/Open/Append.antt =====
-- A write of one byte at the end of a file.
use cs162_group.Prelude.{
  ℕ, ◌≡◌, ◌≢◌, refl, ap, Bool, true, false, not, Option, some, List, ◌>>=◌, ◌==◌, arith, Returns,
}
use cs162_group.Prelude.Int.{pos}
use cs162_group.Block.{Data}
use cs162_group.Bitmap.{Bitmap}
use cs162_group.Store.{Store}
use cs162_group.Inode.{no_sector}
use cs162_group.Inode.Table.{IsMapped, located, byte_to_sector-table}
use cs162_group.Inode.Read.{chunk_size, write_loop}
use cs162_group.Open.{OpenInode, OpenInodes, node_at, put_node}
use cs162_group.Open.Write.{last_byte, grow_for, inode_write_at}

module _ (store : Store) (has_file : Bool)
    (write_map : Bitmap → store.State → Option (Bool × store.State)) (n : OpenInode) (f : ℕ → Data)
    (size : ℕ) (mapped : IsMapped n.data' f size) where
  open store use {State, Holds}

  abbrev eof : ℕ
  eof = n.data'.length'

  -- For an open inode whose blocks of pointers are on the device and that nobody denies writes
  -- to: where the position at the end of the file has a sector, a write of one byte there does
  -- not panic, but it writes no byte, takes no sector and changes no sector, and the inode stays
  -- as it was.
  pub inode_write_at-eof :
      (p : ℕ) (buffer : List ℕ) (t : OpenInodes) (m : Bitmap) (w : State)
      → node_at p t.nodes ≡ some n
      → n.deny_write_cnt ≡ 0
      → Holds w f size
      → located store n.data' f size mapped eof ≢ no_sector
      → Returns
          (inode_write_at store has_file write_map p buffer 1 eof t (m, w))
          λ r. (r.0 ≡ 0) × (r.1.nodes ≡ put_node p n t.nodes) × (r.2.0 ≡ m) × Holds r.2.1 f size
  unfolding inode_write_at grow_for write_loop
  inode_write_at-eof p buffer t m w at deny h ne =
      let ((s, w₁), run, (e, h₁)) = byte_to_sector-table store n.data' f size mapped w eof h in
      let ((s', w₂), run', (_, h₂)) = byte_to_sector-table store n.data' f size mapped w₁ eof h₁ in
      let keep : (s == no_sector) ≡ false = ground (arith, e, ne) in
      let open' : not (n.deny_write_cnt == 0) ≡ false = ground arith in
      let last : last_byte eof 1 ≡ pos eof = ap pos (omega arith) in
      let stop : (chunk_size n.data' 1 eof == 0) ≡ true = ground arith in
      (
        (0, record t { nodes = put_node p n t.nodes }, (m, w₂)),
        rw (at, ◌>>=◌, open', grow_for, last, run, keep, run', stop) refl,
        (refl, refl, refl, h₂),
      )
