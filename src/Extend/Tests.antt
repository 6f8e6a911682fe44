-- ===== src/Extend/Tests.antt =====
-- Files that grow and files that are freed, over plain sectors and the sample map.
use cs162_group.Prelude.{
  ℕ, ◌≡◌, ◌≢◌, refl, Bool, true, false, Option, none, some, Returns, replicate, arith, ◌==◌,
  if◌then◌else◌,
}
use cs162_group.Block.{Data}
use cs162_group.Bitmap.{Bitmap}
use cs162_group.Bitmap.Bit.{bit_at, Wrote}
use cs162_group.Bitmap.Sample.{map40, map40-IsValid}
use cs162_group.Store.Plain.{plain}
use cs162_group.Store.Words.{decode, encode, decode-encode}
use cs162_group.Block.{overwrite}
use cs162_group.Volume.{Volume, of_free_map}
use cs162_group.FreeMap.Laws.{Writes}
use cs162_group.Inode.{InodeDisk, direct_ptrs, sector_size}
use cs162_group.Extend.{bytes_to_sectors}
use cs162_group.Extend.Grow.{inode_extend}
use cs162_group.Extend.Free.{inode_dealloc}
use cs162_group.Extend.Alloc.{Sound}
use cs162_group.Extend.Laws.{Grown, inode_extend-Grown}
use cs162_group.Extend.Gaps.{inode_extend-same_level, inode_extend-two_levels}
use cs162_group.Extend.Leak.{inode_dealloc-Wrote}

abbrev write_map : Bitmap → (ℕ → Data) → Option (Bool × (ℕ → Data))
write_map m w = some (true, w)

abbrev Any : (ℕ → Data) → Type 0
Any w = Unit

total : Writes true write_map Any
total m w good = ((true, w), refl, tt)

abbrev sound : Sound plain write_map 40
sound = record {
  Good = Any;
  write_good = λ s d w good lt. (overwrite w s d, refl, tt);
  map_good = λ m w good. ((true, w), refl, tt);
}

abbrev vol : Volume
vol = of_free_map plain true write_map

-- An inode of `n` bytes whose pointers are 0.
abbrev sized : ℕ → InodeDisk
sized n = record {
  direct = replicate direct_ptrs 0;
  indirect_ptr = 0;
  doubly_indirect_ptr = 3;
  directory = false;
  parent_node = 1;
  length' = n;
  magic = 0;
}

abbrev zeros : ℕ → Data
zeros s = replicate sector_size 0

decode-encode_example : decode (encode (replicate 2 4000000000)) ≡ replicate 2 4000000000
decode-encode_example = decode-encode (replicate 2 4000000000) (omega arith, (omega arith, tt))

inode_extend-Grown_example :
    Returns
      (inode_extend vol (sized 600) 1500 (map40, zeros))
      λ r. Grown (sized 600) 1500 map40 r.0 r.1 r.2.0 × Any r.2.1
inode_extend-Grown_example =
    inode_extend-Grown plain true write_map 40 sound (sized 600) 1500 map40 zeros map40-IsValid
      (omega arith) tt refl (omega arith) (omega arith)

inode_dealloc-Wrote_example :
    (bytes_to_sectors 600 ≢ 1 → inode_dealloc vol (sized 600) (map40, zeros) ≡ none)
    × (bytes_to_sectors 600 ≡ 1
        → bit_at map40 0 ≡ true
        → Returns
            (inode_dealloc vol (sized 600) (map40, zeros))
            λ r. Wrote map40 (λ j. if j == 0 then false else bit_at map40 j) r.0)
inode_dealloc-Wrote_example =
    inode_dealloc-Wrote plain true write_map Any total (sized 600) map40 zeros map40-IsValid tt
      (omega arith) refl (omega arith)

inode_extend-same_level_example :
    inode_extend vol (sized 129000) 132000 (map40, zeros)
    ≡ some (true, sized 132000, (map40, overwrite zeros 3 (encode (decode (zeros 3)))))
inode_extend-same_level_example =
    inode_extend-same_level vol (sized 129000) 132000 (map40, zeros) (map40, zeros)
      (map40, overwrite zeros 3 (encode (decode (zeros 3)))) (zeros 3) (omega arith) (omega arith)
      (omega arith) refl refl refl

inode_extend-two_levels_example :
    inode_extend vol (sized 129000) 262000 (map40, zeros)
    ≢ some (true, sized 262000, (map40, zeros))
inode_extend-two_levels_example =
    inode_extend-two_levels vol (sized 129000) 262000 (map40, zeros) (map40, zeros) (sized 262000)
      (omega arith) (omega arith) (omega arith)
