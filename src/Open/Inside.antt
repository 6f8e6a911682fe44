-- ===== src/Open/Inside.antt =====
-- Writes within a file, and reads after them.
use Prim.Native.Nat.{min}
use cs162_group.Prelude.{
  ℕ, zero, suc, ◌+◌, ◌-◌, ◌≤◌, ◌<◌, ◌≡◌, refl, ap, ◌∙◌, Bool, false, not, Option, some, List, [],
  ◌∷◌, ◌>>=◌, ◌==◌, arith, Returns, get_or, take, length,
}
use mathlib.Core.Path.{ap₂}
use cs162_group.Block.{Data}
use cs162_group.Bitmap.{Bitmap}
use cs162_group.Store.{Store}
use cs162_group.Inode.{InodeDisk, no_sector}
use cs162_group.Inode.Table.{byte_to_sector-table}
use cs162_group.Inode.Read.{inode_read_at}
use cs162_group.Inode.Content.{
  byte_at, bytes_from, HasBlocks, located_inside, block_inside, inode_read_at-bytes_from,
}
use cs162_group.Inode.Patch.{IsApart, Patched, blocks_kept, write_loop-Patched}
use cs162_group.Open.{OpenInode, OpenInodes, node_at, put_node}
use cs162_group.Open.Write.{grow_for, inode_write_at}

-- A run of the file that reads as a buffer.
pub bytes_from-take :
    (d : InodeDisk) (g : ℕ → Data) (size i : ℕ) (buffer : List ℕ)
    → size ≤ length buffer
    → ((j : ℕ) → j < size → byte_at d g (i + j) ≡ get_or buffer j 0)
    → bytes_from d g i size ≡ take size buffer
bytes_from-take d g zero i buffer h e = refl
bytes_from-take d g (suc size) i [] h e = absurd (omega arith)
bytes_from-take d g (suc size) i (x ∷ buffer) h e =
    ap₂ ◌∷◌ (ap (λ k. byte_at d g k) (omega arith) ∙ e 0 (omega arith)) (
      bytes_from-take d g size (i + 1) buffer (omega arith)
        (λ j lt. ap (λ k. byte_at d g k) (omega arith) ∙ e (suc j) (omega arith)))

module _ (store : Store) (has_file : Bool)
    (write_map : Bitmap → store.State → Option (Bool × store.State)) where
  open store use {State, Holds}

  -- A write of some bytes within an open file that nobody denies writes to does not panic and writes them
  -- all: the file has the buffer's bytes from the offset on and its own elsewhere, the free map and the
  -- inode stay, and a read of the same run hands out the bytes that were written. The blocks of the file
  -- are on the device and apart from each other and from the blocks of pointers.
  pub inode_write_at-Patched :
      (n : OpenInode) (f : ℕ → Data) (count p size offset : ℕ) (buffer : List ℕ) (t : OpenInodes)
      (m : Bitmap) (w : State)
      → node_at p t.nodes ≡ some n
      → n.deny_write_cnt ≡ 0
      → Holds w f count
      → HasBlocks n.data' f count
      → IsApart n.data' f
      → count ≤ no_sector
      → 0 < size
      → offset + size ≤ n.data'.length'
      → size ≤ length buffer
      → Returns (inode_write_at store has_file write_map p buffer size offset t (m, w)) λ r.
        (r.0 ≡ size)
        × (r.1 ≡ record t { nodes = put_node p n t.nodes })
        × (r.2.0 ≡ m)
        × ((g : ℕ → Data) × Holds r.2.1 g count × Patched n.data' f offset size buffer g)
        × Returns (inode_read_at store n.data' size offset r.2.1) λ q. q.0 ≡ take size buffer
  unfolding inode_write_at grow_for
  inode_write_at-Patched n f count p zero offset buffer t m w at deny h blocks apart small pos' fits
        enough =
      absurd (omega arith)
  inode_write_at-Patched n f count p (suc k) offset buffer t m w at deny h blocks apart small pos'
        fits enough =
      let last = offset + k in
      let in' : last < n.data'.length' = omega arith in
      let ((s, w₁), run, (e, h₁)) =
        byte_to_sector-table store n.data' f count blocks.mapped w last h in
      let s' = e ∙ located_inside store n.data' f count blocks last in' in
      let reach = block_inside store n.data' f count blocks last in' in
      let keep : (s == no_sector) ≡ false = ground (arith, s', reach, small) in
      let open' : not (n.deny_write_cnt == 0) ≡ false = ground arith in
      let ((done, w₂), later, (all, (g, h₂, q))) =
        write_loop-Patched store n.data' count (suc (suc k)) (suc k) offset 0 buffer f w₁ h₁ blocks
          apart fits enough (omega arith) in
      let (r, read', (bytes, _)) =
        inode_read_at-bytes_from store n.data' g count
          (blocks_kept n.data' f g count offset (suc k) buffer q blocks) (suc k) offset w₂ h₂ in
      let whole : min (suc k) (n.data'.length' - offset) ≡ suc k = omega arith in
      let back = bytes_from-take n.data' g (suc k) offset buffer enough (λ j lt.
        let i : get_or buffer (offset + j - offset) 0 ≡ get_or buffer j 0 =
          ap (λ z. get_or buffer z 0) (omega arith) in
        ground (arith, q.bytes (offset + j) (omega arith), i)) in
      (
        (done, record t { nodes = put_node p n t.nodes }, (m, w₂)),
        rw (at, ◌>>=◌, open', run, keep, later) refl,
        (
          omega (arith, all),
          refl,
          refl,
          (g, h₂, q),
          (r, read', bytes ∙ ap (bytes_from n.data' g offset) whole ∙ back),
        ),
      )
