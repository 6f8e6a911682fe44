-- ===== src/File/Laws.antt =====
-- Reads one after the other, and the denial of writes.
use Prim.Native.Nat.{min}
use cs162_group.Prelude.{
  ℕ, zero, suc, ◌+◌, ◌-◌, ◌<◌, ◌≡◌, refl, ap, sym, ◌∙◌, Bool, true, false, not, Option, some, List,
  ◌++◌, ◌>>=◌, ◌==◌, leb, ltb, arith, Returns, length,
}
use cs162_group.Block.{Data}
use cs162_group.Bitmap.{Bitmap}
use cs162_group.Store.{Store}
use cs162_group.Inode.{InodeDisk}
use cs162_group.Inode.Content.{bytes_from, bytes_from-append, HasBlocks, inode_read_at-bytes_from}
use cs162_group.Open.{
  OpenInode, OpenInodes, node_at, put_node, update, inode_deny_write, inode_allow_write,
}
use cs162_group.Open.Invariant.{node_at-put, put-put}
use cs162_group.Open.Write.{inode_write_at}
use cs162_group.File.{
  File, file_read, file_read_at, file_write, file_write_at, file_deny_write, file_allow_write,
}

pub length-bytes_from : (d : InodeDisk) (f : ℕ → Data) (i n : ℕ) → length (bytes_from d f i n) ≡ n
length-bytes_from d f i zero = refl
length-bytes_from d f i (suc n) = ap suc (length-bytes_from d f (i + 1) n)

module _ (store : Store) (has_file : Bool)
    (write_map : Bitmap → store.State → Option (Bool × store.State)) where
  open store use {State, Holds}

  read-bytes_from :
      (file : File) (n : OpenInode) (f : ℕ → Data) (size a : ℕ) (t : OpenInodes) (w : State)
      → node_at file.inode t.nodes ≡ some n
      → HasBlocks n.data' f size
      → Holds w f size
      → Returns (file_read store has_file write_map file a t w) λ r.
        (r.0 ≡ bytes_from n.data' f file.pos (min a (n.data'.length' - file.pos)))
        × (r.1 ≡ record file { pos = file.pos + min a (n.data'.length' - file.pos) })
        × Holds r.2 f size
  unfolding file_read file_read_at
  read-bytes_from file n f size a t w at blocks h =
      let ((bytes, w'), run, (e, h')) =
        inode_read_at-bytes_from store n.data' f size blocks a file.pos w h in
      let len =
        ap length e ∙ length-bytes_from n.data' f file.pos (min a (n.data'.length' - file.pos)) in
      (
        (bytes, record file { pos = file.pos + length bytes }, w'),
        rw (at, ◌>>=◌, run) refl,
        (e, ap (λ k. record file { pos = file.pos + k }) len, h'),
      )

  -- For a file whose blocks are on the device, two reads in turn hand out what one read of both
  -- sizes does: the bytes of the file from the position on, as far as the file has them, with the
  -- position moved past them. Neither panics.
  pub file_read-file_read :
      (file : File) (n : OpenInode) (f : ℕ → Data) (size a b : ℕ) (t : OpenInodes) (w : State)
      → node_at file.inode t.nodes ≡ some n
      → HasBlocks n.data' f size
      → Holds w f size
      → Returns (file_read store has_file write_map file a t w) λ r.
        Returns (file_read store has_file write_map r.1 b t r.2) λ q.
          (r.0 ++ q.0 ≡ bytes_from n.data' f file.pos (min (a + b) (n.data'.length' - file.pos)))
          × (q.1.pos ≡ file.pos + min (a + b) (n.data'.length' - file.pos))
          × Holds q.2 f size
  file_read-file_read file n f size a b t w at blocks h =
      let (r, run, (e, moved, h₁)) = read-bytes_from file n f size a t w at blocks h in
      let at₁ : node_at r.1.inode t.nodes ≡ some n = ap (λ z. node_at z.inode t.nodes) moved ∙ at in
      let (q, run', (e', moved', h₂)) = read-bytes_from r.1 n f size b t r.2 at₁ blocks h₁ in
      let p : r.1.pos ≡ file.pos + min a (n.data'.length' - file.pos) = ap (λ z. z.pos) moved in
      let len = n.data'.length' in
      let whole : min (a + b) (len - file.pos) ≡ min a (len - file.pos) + min b (len - r.1.pos) =
        omega (arith, p) in
      (
        r,
        run,
        (
          q,
          run',
          (
            rw (e, e', p)
                (bytes_from-append n.data' f file.pos (min a (len - file.pos)) _ _
                  (omega (arith, whole, p))),
            ap (λ z. z.pos) moved' ∙ omega (arith, p, whole),
            h₂,
          ),
        ),
      )

  -- While a file has denied writes to its inode, a write through any file on the inode writes nothing
  -- and changes nothing; allowing writes again gives back the file and the inode as they were. The
  -- inode must have an opener that has not denied writes yet.
  pub file_allow_write-file_deny_write :
      (file : File) (n : OpenInode) (t : OpenInodes)
      → node_at file.inode t.nodes ≡ some n
      → file.deny_write ≡ false
      → n.deny_write_cnt < n.open_cnt
      → Returns (file_deny_write file t) λ r.
        ((other : File) (buffer : List ℕ) (size : ℕ) (w : Bitmap × State)
          → other.inode ≡ file.inode
          → file_write store has_file write_map other buffer size r.1 w
            ≡ some (0, record other { pos = other.pos + 0 }, r.1, w))
        × Returns (file_allow_write r.0 r.1) λ q. (q.0 ≡ file) × (q.1.nodes ≡ t.nodes)
  unfolding file_deny_write file_allow_write file_write file_write_at inode_write_at
      inode_deny_write inode_allow_write update
  file_allow_write-file_deny_write file n t at off room =
      let n' : OpenInode = record n { deny_write_cnt = n.deny_write_cnt + 1 } in
      let n'' : OpenInode = record n { deny_write_cnt = n.deny_write_cnt + 1 - 1 } in
      let now : node_at file.inode (put_node file.inode n' t.nodes) ≡ some n' =
        ground (arith, node_at-put t.nodes file.inode file.inode n' n at) in
      let fits : leb (n.deny_write_cnt + 1) n.open_cnt ≡ true = ground arith in
      let some_denied : ltb 0 (n.deny_write_cnt + 1) ≡ true = ground arith in
      let denied : not (n.deny_write_cnt + 1 == 0) ≡ true = ground arith in
      (
        (record file { deny_write = true }, record t { nodes = put_node file.inode n' t.nodes }),
        rw (off, at, ◌>>=◌, fits) refl,
        (
          (λ other buffer size w same.
              let now' = ap (λ p. node_at p (put_node file.inode n' t.nodes)) same ∙ now in
              rw (now', ◌>>=◌, denied) refl),
          (
            (
              record file { deny_write = false },
              record t { nodes = put_node file.inode n'' (put_node file.inode n' t.nodes) },
            ),
            rw (now, ◌>>=◌, some_denied, fits) refl,
            (
              ap (λ b. record file { deny_write = b }) (sym off),
              put-put t.nodes file.inode n' n n'' at
                  (ap (λ c. record n { deny_write_cnt = c }) (omega arith)),
            ),
          ),
        ),
      )
