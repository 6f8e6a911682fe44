-- ===== src/Open/Tests.antt =====
-- One open file over plain sectors.
use cs162_group.Prelude.{ℕ, zero, suc, ◌≡◌, ◌≢◌, refl, sym, true, some, Returns, [], ◌∷◌, arith}
use cs162_group.Bitmap.Sample.{map40}
use cs162_group.Store.Plain.{plain}
use cs162_group.Inode.Table.{table}
use cs162_group.Inode.Sample.{sectors, file600, file600-IsMapped}
use cs162_group.Open.{OpenInode, node_at, put_node, inode_open}
use cs162_group.Open.Write.{inode_write_at}
use cs162_group.Open.Invariant.{IsOpen}
use cs162_group.Open.Laws.{inode_open-IsOpen}
use cs162_group.Prelude.{take}
use cs162_group.Block.{Data}
use cs162_group.Inode.Patch.{Patched}
use cs162_group.Inode.Read.{inode_read_at}
use cs162_group.Inode.Sample.{file600-IsApart, file600-HasBlocks}
use cs162_group.Open.Inside.{inode_write_at-Patched}
use cs162_group.Open.Append.{inode_write_at-eof}
use cs162_group.Open.Sample.{write_map, vol, node4, one_open}

only : (p : ℕ) (n : OpenInode) → node_at p one_open.nodes ≡ some n → (p ≡ 0) × (node4 ≡ n)
only zero n e = (refl, cc)
only (suc p) n e = absurd (ground (arith, e))

one_open-IsOpen : IsOpen one_open
one_open-IsOpen = record {
  distinct = (refl, tt);
  below = λ p n e. rw (only p n e).0 (omega arith);
  one = λ p q n k e e' same. rw ((only p n e).0, (only q k e').0) refl;
  counted = λ p n e. rw (sym (only p n e).1) (omega arith);
  denied = λ p n e. rw (sym (only p n e).1) (omega arith);
}

inode_open-IsOpen_example : Returns (inode_open vol 4 one_open (map40, sectors)) λ r.
    IsOpen r.1
    × ((n : OpenInode) × (node_at r.0 r.1.nodes ≡ some n) × (n.sector ≡ 4))
    × ((q : ℕ) → q ≢ r.0 → node_at q r.1.nodes ≡ node_at q one_open.nodes)
    × ((q : ℕ) (k : OpenInode) → node_at q one_open.nodes ≡ some k → k.sector ≡ 4 → r.0 ≡ q)
inode_open-IsOpen_example =
    inode_open-IsOpen vol one_open 4 (map40, sectors) (map40, sectors) (sectors 4) one_open-IsOpen
      refl

inside : ◌≢◌ {A = ℕ} 6 4294967295
inside e = absurd (omega (arith, e))

inode_write_at-eof_example :
    Returns (inode_write_at plain true write_map 0 (9 ∷ []) 1 600 one_open (map40, sectors)) λ r.
      (r.0 ≡ 0)
      × (r.1.nodes ≡ put_node 0 node4 one_open.nodes)
      × (r.2.0 ≡ map40)
      × ((s : ℕ) → r.2.1 s ≡ sectors s)
unfolding table
inode_write_at-eof_example =
    inode_write_at-eof plain true write_map node4 sectors 8 file600-IsMapped 0 (9 ∷ []) one_open
      map40 sectors refl refl (λ s. refl) inside

inode_write_at-Patched_example :
    Returns
      (inode_write_at plain true write_map 0 (1 ∷ 2 ∷ 3 ∷ 4 ∷ []) 3 511 one_open (map40, sectors))
      λ r.
        (r.0 ≡ 3)
        × (r.1 ≡ record one_open { nodes = put_node 0 node4 one_open.nodes })
        × (r.2.0 ≡ map40)
        × ((g : ℕ → Data) × ((s : ℕ) → r.2.1 s ≡ g s)
            × Patched file600 sectors 511 3 (1 ∷ 2 ∷ 3 ∷ 4 ∷ []) g)
        × Returns (inode_read_at plain file600 3 511 r.2.1) λ q. q.0 ≡ take 3 (1 ∷ 2 ∷ 3 ∷ 4 ∷ [])
inode_write_at-Patched_example =
    inode_write_at-Patched plain true write_map node4 sectors 8 0 3 511 (1 ∷ 2 ∷ 3 ∷ 4 ∷ [])
      one_open map40 sectors refl refl (λ s. refl) file600-HasBlocks file600-IsApart (omega arith)
      (omega arith) (omega arith) (omega arith)
