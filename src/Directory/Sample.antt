-- ===== src/Directory/Sample.antt =====
-- A directory of three slots in sector 5, of which the second is free.
use cs162_group.Prelude.{
  ℕ, zero, suc, ◌*◌, ◌/◌, ◌<◌, ◌≡◌, ◌∷◌, [], ◌++◌, refl, ap, ◌∙◌, true, false, List, replicate, set,
  get_or, arith, Bool-cases, inl, inr, if◌then◌else◌, ◌==◌, length,
}
use cs162_group.Block.{Data}
use cs162_group.Store.Words.{decode}
use cs162_group.Inode.{InodeDisk, direct_ptrs, sector_size}
use cs162_group.Inode.Table.{table, inner_of}
use cs162_group.Inode.Patch.{IsApart}
use cs162_group.Inode.Content.{HasBlocks, byte_at}
use cs162_group.Inode.Sample.{get_or-replicate}
use cs162_group.Open.{OpenInode, OpenInodes}
use cs162_group.Directory.{Dir}
use cs162_group.Directory.Names.{IsEnded}
use cs162_group.Directory.Lookup.{slot_at, slots}

-- The names `ab` and `c`.
abbrev pub name_ab : List ℕ
name_ab = 97 ∷ 98 ∷ []

abbrev pub name_c : List ℕ
name_c = 99 ∷ []

abbrev slot_bytes : List ℕ
slot_bytes =
    (9 ∷ 0 ∷ 0 ∷ 0 ∷ (name_ab ++ replicate 13 0))
    ++ 1
      ∷ (replicate 20 0 ++ ((10 ∷ 0 ∷ 0 ∷ 0 ∷ (name_c ++ replicate 14 0)) ++ 1 ∷ replicate 452 0))

abbrev pub dir_sectors : ℕ → Data
dir_sectors s = if s == 5 then slot_bytes else replicate sector_size 0

abbrev pub dir60 : InodeDisk
dir60 = record {
  direct = set (replicate direct_ptrs 0) 0 5;
  indirect_ptr = 0;
  doubly_indirect_ptr = 0;
  directory = true;
  parent_node = 1;
  length' = 60;
  magic = 0;
}

abbrev pub dir_node : OpenInode
dir_node = record { sector = 4; open_cnt = 1; removed = false; deny_write_cnt = 0; data' = dir60 }

abbrev pub dir_open_one : OpenInodes
dir_open_one = record { next = 1; nodes = (0, dir_node) ∷ [] }

abbrev pub dir_at_0 : Dir
dir_at_0 = record { inode = 0; pos = 0 }

zero_words : decode (dir_sectors 0) ≡ replicate 128 0
unfolding decode
zero_words = refl

inner_zero : (i : ℕ) → inner_of dir60 dir_sectors i ≡ 0
inner_zero i = ap (λ l. get_or l (i / 128) 0) zero_words ∙ get_or-replicate 128 (i / 128) 0

dir_sectors_sized : (s : ℕ) → length (dir_sectors s) ≡ sector_size
dir_sectors_sized s = elim (Bool-cases (s == 5)) [ inl e ↦ rw e refl | inr e ↦ rw e refl ]

dir60-table : (i : ℕ) → i * sector_size < 60 → (i ≡ 0) × (table dir60 dir_sectors i ≡ 5)
unfolding table
dir60-table zero h = (refl, refl)
dir60-table (suc i) h = absurd (omega arith)

pub dir60-HasBlocks : HasBlocks dir60 dir_sectors 8
dir60-HasBlocks = record {
  mapped = record {
    direct = refl;
    sized = dir_sectors_sized;
    indirect = omega arith;
    doubly = omega arith;
    inner = λ i. omega (arith, inner_zero i);
  };
  blocks = λ i h. omega (arith, (dir60-table i h).1);
  reach = omega arith;
}

pub dir60-IsApart : IsApart dir60 dir_sectors
dir60-IsApart = record {
  inj = λ i j li lj e. omega (arith, (dir60-table i li).0, (dir60-table j lj).0);
  not_indirect = λ i lt e. absurd (omega (arith, (dir60-table i lt).1, e));
  not_doubly = λ i lt e. absurd (omega (arith, (dir60-table i lt).1, e));
  not_inner = λ i k lt e. absurd (omega (arith, (dir60-table i lt).1, e, inner_zero k));
}

-- The names in use are ended by a 0.
pub dir60-IsEnded : (i : ℕ) → i < slots dir60 → IsEnded (slot_at dir60 dir_sectors i)
unfolding byte_at table decode
dir60-IsEnded zero h used = (name_ab, (omega arith, (omega arith, tt)), (replicate 12 0, refl))
dir60-IsEnded (suc zero) h used = absurd (ground (arith, used))
dir60-IsEnded (suc (suc zero)) h used = (name_c, (omega arith, tt), (replicate 13 0, refl))
dir60-IsEnded (suc (suc (suc i))) h used = absurd (omega (arith, h))
