-- ===== src/Inode/Sample.antt =====
-- A file of 600 bytes in sectors 5 and 6 of a device of 8 sectors.
use cs162_group.Prelude.{
  ℕ, zero, suc, ◌*◌, ◌/◌, ◌<◌, ◌≡◌, ◌+◌, ◌≤◌, refl, ap, ◌∙◌, false, replicate, set, get_or, arith,
  Bool-cases, inl, inr, if◌then◌else◌, ◌==◌, length,
}
use cs162_group.Block.{Data}
use cs162_group.Store.Words.{decode}
use cs162_group.Inode.{InodeDisk, direct_ptrs, sector_size}
use cs162_group.Inode.Table.{table, IsMapped, inner_of}
use cs162_group.Inode.Patch.{IsApart}
use cs162_group.Inode.Content.{HasBlocks}

abbrev pub sectors : ℕ → Data
sectors s = if s == 5 then replicate sector_size 7 else replicate sector_size 0

abbrev pub file600 : InodeDisk
file600 = record {
  direct = set (set (replicate direct_ptrs 0) 0 5) 1 6;
  indirect_ptr = 0;
  doubly_indirect_ptr = 0;
  directory = false;
  parent_node = 1;
  length' = 600;
  magic = 0;
}

zero_words : decode (sectors 0) ≡ replicate 128 0
unfolding decode
zero_words = refl

pub get_or-replicate : (k i d : ℕ) → get_or (replicate k d) i d ≡ d
get_or-replicate zero i d = refl
get_or-replicate (suc k) zero d = refl
get_or-replicate (suc k) (suc i) d = get_or-replicate k i d

file600_inner : (i : ℕ) → inner_of file600 sectors i < 8
file600_inner i =
    let e : inner_of file600 sectors i ≡ 0 =
      ap (λ l. get_or l (i / 128) 0) zero_words ∙ get_or-replicate 128 (i / 128) 0 in
    omega (arith, e)

sectors_sized : (s : ℕ) → length (sectors s) ≡ sector_size
sectors_sized s = elim (Bool-cases (s == 5)) [ inl e ↦ rw e refl | inr e ↦ rw e refl ]

pub file600-IsMapped : IsMapped file600 sectors 8
file600-IsMapped = record {
  direct = refl;
  sized = sectors_sized;
  indirect = omega arith;
  doubly = omega arith;
  inner = file600_inner;
}

file600_blocks : (i : ℕ) → i * sector_size < 600 → table file600 sectors i < 8
unfolding table
file600_blocks zero h = omega arith
file600_blocks (suc zero) h = omega arith
file600_blocks (suc (suc i)) h = absurd (omega arith)

pub file600-HasBlocks : HasBlocks file600 sectors 8
file600-HasBlocks = record {
  mapped = file600-IsMapped;
  blocks = file600_blocks;
  reach = omega arith;
}

-- The sectors of the two blocks.
file600-table : (i : ℕ) → i * sector_size < 600 → (i ≤ 1) × (table file600 sectors i ≡ 5 + i)
unfolding table
file600-table zero h = (omega arith, refl)
file600-table (suc zero) h = (omega arith, refl)
file600-table (suc (suc i)) h = absurd (omega arith)

inner_zero : (i : ℕ) → inner_of file600 sectors i ≡ 0
inner_zero i = ap (λ l. get_or l (i / 128) 0) zero_words ∙ get_or-replicate 128 (i / 128) 0

pub file600-IsApart : IsApart file600 sectors
file600-IsApart = record {
  inj = λ i j li lj e. omega (arith, (file600-table i li).1, (file600-table j lj).1, e);
  not_indirect = λ i lt e. absurd (omega (arith, (file600-table i lt).1, e));
  not_doubly = λ i lt e. absurd (omega (arith, (file600-table i lt).1, e));
  not_inner = λ i k lt e. absurd (omega (arith, (file600-table i lt).1, e, inner_zero k));
}
