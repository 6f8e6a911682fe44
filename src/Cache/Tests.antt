-- ===== src/Cache/Tests.antt =====
-- The buffer cache of a device of 100 sectors, and the theorems at it.
use cs162_group.Prelude.{
  ℕ, ◌<◌, ◌≡◌, refl, ◌∙◌, false, Option, some, List, [], ◌∷◌, Returns, arith, replicate,
}
use mathlib.Core.Option
use cs162_group.Block.{Device, overwrite, BlockType, block_write, block_read}
use cs162_group.Cache.{
  CacheBlock, Cache, filesys_cache_init, cache_check, cache_get_block, cache_read_at,
  cache_write_at, cache_flush, cache_reset,
}
use cs162_group.Cache.View.{view, peek}
use cs162_group.Cache.Invariant.{IsValid}
use cs162_group.Cache.Evict.{Ready, cache_get_block-Ready}
use cs162_group.Cache.Refine.{Reads, cache_read_at-Reads, cache_write_at-Reads}
use cs162_group.Cache.Flush.{cache_flush-Reads, cache_reset-Reset, Reset, filesys_cache_init-Reads}
use cs162_group.Cache.Session.{Op, InRange, run, promise, run-promise}

abbrev disk : Device
disk = record {
  type = BlockType.filesys;
  size = 100;
  sectors = λ s. s ∷ [];
  read_cnt = 0;
  write_cnt = 0;
}

abbrev blank : CacheBlock
blank = record { sector = 0; data' = []; valid = false; dirty = false; recently_used = false }

abbrev raw : Cache
raw = record {
  blocks = replicate 64 blank;
  clock_index = 0;
  cache_miss = 0;
  cache_hit = 0;
  dev = disk;
}

filesys_cache_init-Reads_example :
    Reads raw disk.sectors (filesys_cache_init raw)
    × ((s : ℕ) → peek s (filesys_cache_init raw).blocks ≡ Option.none)
    × ((filesys_cache_init raw).cache_hit ≡ 0)
    × ((filesys_cache_init raw).cache_miss ≡ 0)
filesys_cache_init-Reads_example = filesys_cache_init-Reads raw refl refl

abbrev fresh : Cache
fresh = filesys_cache_init raw

fresh-IsValid : IsValid fresh
fresh-IsValid = (filesys_cache_init-Reads raw refl refl).0.valid

program : Unit {0}
unfolding run cache_read_at cache_write_at cache_flush cache_reset cache_check cache_get_block
    block_read block_write filesys_cache_init
program = tt

-- Two sectors written, one read back through the cache and the other from disk.
abbrev session : List Op
session =
    Op.write 3 (7 ∷ []) ∷ Op.write 5 (8 ∷ []) ∷ Op.read 3 ∷ Op.reset ∷ Op.read 5 ∷ Op.read 6 ∷ []

session_reads :
    Option.map (λ r. r.0) (run session fresh) ≡ some ((7 ∷ []) ∷ (8 ∷ []) ∷ (6 ∷ []) ∷ [])
unfolding program
session_reads = refl

small : 3 < fresh.dev.size
unfolding filesys_cache_init
small = omega arith

cache_get_block-Ready_example : Returns (cache_get_block fresh) (Ready fresh)
cache_get_block-Ready_example = cache_get_block-Ready fresh fresh-IsValid

cache_read_at-Reads_example :
    Returns (cache_read_at 3 fresh) λ r. (r.0 ≡ view fresh 3) × Reads fresh (view fresh) r.1
cache_read_at-Reads_example = cache_read_at-Reads fresh fresh-IsValid 3 small

cache_write_at-Reads_example :
    Returns (cache_write_at 3 (7 ∷ []) fresh) (Reads fresh (overwrite (view fresh) 3 (7 ∷ [])))
cache_write_at-Reads_example = cache_write_at-Reads fresh fresh-IsValid 3 small (7 ∷ [])

cache_flush-Reads_example :
    Returns
      (cache_flush fresh)
      λ c'. Reads fresh (view fresh) c' × ((s : ℕ) → c'.dev.sectors s ≡ view fresh s)
cache_flush-Reads_example = cache_flush-Reads fresh fresh-IsValid

-- A write between the two halves of a reset.
abbrev write_3 : Cache → Option Cache
write_3 c = cache_write_at 3 (replicate 512 1) c

write_3-Gap :
    (c : Cache)
    → Reads fresh (view fresh) c
    → Returns (write_3 c) λ c'. IsValid c' × (c'.dev.size ≡ fresh.dev.size)
unfolding filesys_cache_init
write_3-Gap c r =
    let (c', run', w) =
      cache_write_at-Reads c r.valid 3 (omega (arith, r.extent)) (replicate 512 1) in
    (c', run', (w.valid, w.extent ∙ r.extent))

cache_reset-Reset_example : Returns (cache_reset write_3 fresh) (Reset fresh write_3)
cache_reset-Reset_example = cache_reset-Reset fresh fresh-IsValid write_3 write_3-Gap

session-InRange : InRange fresh.dev.size session
unfolding filesys_cache_init
session-InRange = omega arith

run-promise_example : Returns (run session fresh) λ r.
    (r.0 ≡ (promise session (view fresh)).0)
    × IsValid r.1
    × (view r.1 ≡ (promise session (view fresh)).1)
run-promise_example = run-promise session fresh fresh-IsValid session-InRange
