-- ===== src/Directory/Tests.antt =====
-- The sample directory.
use cs162_group.Prelude.{
  ℕ, zero, suc, ◌*◌, ◌<◌, none, get_or, ap, ◌≡◌, refl, sym, true, some, [], ◌∷◌, ◌++◌, List,
  Returns, arith,
}
use cs162_group.Store.Plain.{plain}
use cs162_group.Bitmap.Sample.{map40}
use cs162_group.Store.Words.{decode}
use cs162_group.Inode.Table.{table}
use cs162_group.Inode.Content.{byte_at}
use cs162_group.Open.Sample.{write_map}
use cs162_group.Directory.{DirEntry, entry_size, lookup, dir_add}
use cs162_group.Open.{OpenInode, node_at}
use cs162_group.Open.Invariant.{IsOpen}
use cs162_group.Directory.Add.{IsFree}
use cs162_group.Directory.Enter.{lookup-dir_add}
use cs162_group.Directory.Lookup.{slot_at, FirstFrom, lookup-FirstFrom}
use cs162_group.Directory.Sample.{
  name_c, dir60, dir_sectors, dir_node, dir_open_one, dir_at_0, dir60-HasBlocks, dir60-IsApart,
  dir60-IsEnded,
}

only : (p : ℕ) (n : OpenInode) → node_at p dir_open_one.nodes ≡ some n → (p ≡ 0) × (dir_node ≡ n)
only zero n e = (refl, cc)
only (suc p) n e = absurd (ground (arith, e))

lookup-FirstFrom_example :
    Returns
      (lookup plain dir_at_0 (name_c ++ 0 ∷ []) dir_open_one dir_sectors)
      λ r. FirstFrom dir60 dir_sectors name_c 0 r.0 × ((s : ℕ) → r.1 s ≡ dir_sectors s)
lookup-FirstFrom_example =
    lookup-FirstFrom plain dir60 dir_sectors 8 dir60-HasBlocks name_c [] (omega arith, tt)
      dir60-IsEnded dir_at_0 dir_node dir_open_one dir_sectors refl refl (λ s. refl)

abbrev name_d : List ℕ
name_d = 100 ∷ []

-- No slot has the name `d`, and the second one is free.
name_d-FirstFrom : FirstFrom dir60 dir_sectors name_d 0 none
unfolding byte_at table decode
name_d-FirstFrom zero h lt (used, (rest, e)) =
    let head : 97 ≡ 100 = ap (λ xs. get_or xs 0 0) e in absurd (ground (arith, head))
name_d-FirstFrom (suc zero) h lt (used, named) = absurd (ground (arith, used))
name_d-FirstFrom (suc (suc zero)) h lt (used, (rest, e)) =
    let head : 99 ≡ 100 = ap (λ xs. get_or xs 0 0) e in absurd (ground (arith, head))
name_d-FirstFrom (suc (suc (suc j))) h lt has = absurd (omega (arith, lt))

before_1 : (j : ℕ) → j < 1 → (slot_at dir60 dir_sectors j).in_use ≡ true
unfolding byte_at table decode
before_1 zero h = refl
before_1 (suc j) h = absurd (omega (arith, h))

slot_1-IsFree : IsFree dir60 dir_sectors 1
unfolding byte_at table decode
slot_1-IsFree = record { inside = omega arith; free = refl; before = before_1 }

dir_open_one-IsOpen : IsOpen dir_open_one
dir_open_one-IsOpen = record {
  distinct = (refl, tt);
  below = λ p n e. rw (only p n e).0 (omega arith);
  one = λ p q n k e e' same. rw ((only p n e).0, (only q k e').0) refl;
  counted = λ p n e. rw (sym (only p n e).1) (omega arith);
  denied = λ p n e. rw (sym (only p n e).1) (omega arith);
}

lookup-dir_add_example :
    Returns
      (dir_add plain true write_map dir_at_0
        (name_d ++ 0 ∷ [])
        7
        []
        dir_open_one
        (map40, dir_sectors))
      λ r.
        (r.0 ≡ true)
        × Returns (lookup plain dir_at_0 (name_d ++ 0 ∷ []) r.1 r.2.1) λ q.
          (found : DirEntry) × (q.0 ≡ some (found, 1 * entry_size)) × (found.inode_sector ≡ 7)
lookup-dir_add_example =
    lookup-dir_add plain true write_map dir_at_0 dir_node dir_sectors 8 1 7 name_d [] [] []
      dir_open_one map40 dir_sectors dir_open_one-IsOpen refl refl (λ s. refl) dir60-HasBlocks
      dir60-IsApart (omega arith) (omega arith) (omega arith, tt) (omega arith) (omega arith)
      (λ e. omega (arith, e)) dir60-IsEnded name_d-FirstFrom slot_1-IsFree
