-- ===== src/Cache.antt =====
-- pintos/src/filesys/buffer.c: the write-back cache of 64 sectors with clock replacement.
-- Each operation but `cache_reset` runs whole under `cache_lock`, so it is one transition of the cache's
-- state; `cache_reset` gives the lock up once, and what others do then is a parameter. The block locks,
-- which `cache_flush` alone takes and gives back at once, hold no state.
pub mod View
pub mod Invariant
pub mod Evict
pub mod Refine
pub mod Flush
pub mod Session
mod Tests
use cs162_group.Prelude.{
  ℕ, zero, suc, ◌+◌, ◌*◌, ◌%◌, ◌^◌, Bool, true, false, not, ◌&&◌, Option, none, some, List, [], ◌∷◌,
  ◌>>=◌, ◌==◌, if◌then◌else◌, get_elem?, set, map,
}
use cs162_group.Block.{Device, Data, block_read, block_write}

abbrev pub cache_size : ℕ
cache_size = 64

-- `struct cache_block`, its lock left out.
pub record CacheBlock : Type 0 where
  pub sector : ℕ
  pub data' : Data
  pub valid : Bool
  pub dirty : Bool
  pub recently_used : Bool

-- The module's globals, with the device that they stand before.
pub record Cache : Type 0 where
  pub blocks : List CacheBlock
  pub clock_index : ℕ
  pub cache_miss : ℕ
  pub cache_hit : ℕ
  pub dev : Device

abbrev pub init_block : CacheBlock → CacheBlock
init_block b = record b { valid = false; dirty = false }

pub filesys_cache_init : Cache → Cache
filesys_cache_init c = record c {
  blocks = map init_block c.blocks;
  clock_index = 0;
  cache_miss = 0;
  cache_hit = 0;
}

abbrev pub matches : ℕ → CacheBlock → Bool
matches s b = b.valid && b.sector == s

-- The index of the first valid block for a sector.
pub check_from : ℕ → List CacheBlock → ℕ → Option ℕ
check_from s [] i = none
check_from s (b ∷ bs) i = if matches s b then some i else check_from s bs (i + 1)

-- `size_t` counters of 32 bits.
abbrev pub count_up : ℕ → ℕ
count_up n = (n + 1) % 2 ^ 32

unfoldable pub cache_check : Cache → ℕ → Option ℕ × Cache
unfolding check_from
cache_check c s = elim (check_from s c.blocks 0) [
  | some i ↦ (some i, record c { cache_hit = count_up c.cache_hit })
  | none ↦ (none, record c { cache_miss = count_up c.cache_miss })
]

abbrev pub put_block : Cache → ℕ → CacheBlock → Cache
put_block c i b = record c { blocks = set c.blocks i b }

-- Gives up the block `b` under the hand: a dirty one goes to disk first.
unfoldable pub evict : Cache → CacheBlock → Option (ℕ × Cache)
evict c b =
    if b.dirty
    then (do
      dev' ← block_write c.dev b.sector b.data'
      some (
        c.clock_index,
        record c {
          blocks = set c.blocks c.clock_index (record b { valid = false; dirty = false });
          dev = dev';
        },
      ))
    else some (c.clock_index, put_block c c.clock_index (record b { valid = false }))

-- The block under the hand loses its second chance, and the hand moves on.
unfoldable pub pass_over : Cache → CacheBlock → Cache
pass_over c b =
    let next = c.clock_index + 1 in
    record c {
      blocks = set c.blocks c.clock_index (record b { recently_used = false });
      clock_index = (if next == cache_size then 0 else next);
    }

-- The loop of `cache_get_block`; `none` is a panic, or that the fuel ran out.
unfoldable pub get_block_loop : ℕ → Cache → Option (ℕ × Cache)
unfolding evict pass_over
get_block_loop zero c = none
get_block_loop (suc fuel) c = do
  b ← get_elem? c.blocks c.clock_index
  let rest = get_block_loop fuel (pass_over c b)
  if not b.valid then some (c.clock_index, c) else (if b.recently_used then rest else evict c b)

-- Two turns of the hand and one step are enough.
unfoldable pub cache_get_block : Cache → Option (ℕ × Cache)
unfolding get_block_loop
cache_get_block c = get_block_loop (2 * cache_size + 1) c

-- The branches on what `cache_check` gave: `read_found` of `cache_read_at`, `write_found` of
-- `cache_write_at`.
unfoldable pub read_found : ℕ → Option ℕ × Cache → Option (Data × Cache)
read_found sector (some i, c) = do
  b ← get_elem? c.blocks i
  some (b.data', put_block c i (record b { recently_used = true }))
read_found sector (none, c) = do
  (i, c₁) ← cache_get_block c
  (d, dev') ← block_read c₁.dev sector
  let b : CacheBlock = record {
    sector = sector;
    data' = d;
    valid = true;
    dirty = false;
    recently_used = true;
  }
  some (d, record c₁ { blocks = set c₁.blocks i b; dev = dev' })

unfoldable pub cache_read_at : ℕ → Cache → Option (Data × Cache)
unfolding read_found
cache_read_at sector c = read_found sector (cache_check c sector)

unfoldable pub write_found : ℕ → Data → Option ℕ × Cache → Option Cache
write_found sector buffer (some i, c) = do
  b ← get_elem? c.blocks i
  some (put_block c i (record b { data' = buffer; dirty = true; recently_used = true }))
write_found sector buffer (none, c) = do
  (i, c₁) ← cache_get_block c
  let b : CacheBlock = record {
    sector = sector;
    data' = buffer;
    valid = true;
    dirty = true;
    recently_used = true;
  }
  some (put_block c₁ i b)

unfoldable pub cache_write_at : ℕ → Data → Cache → Option Cache
unfolding write_found
cache_write_at sector buffer c = write_found sector buffer (cache_check c sector)

-- The loop of `cache_flush` over the blocks.
unfoldable pub flush_blocks : Device → List CacheBlock → Option (List CacheBlock × Device)
flush_blocks dev [] = some ([], dev)
flush_blocks dev (b ∷ bs) = do
  (b', dev₁) ←
      (if b.valid && b.dirty
        then (do dev' ← block_write dev b.sector b.data'; some (record b { dirty = false }, dev'))
        else some (b, dev))
  (bs', dev₂) ← flush_blocks dev₁ bs
  some (b' ∷ bs', dev₂)

unfoldable pub cache_flush : Cache → Option Cache
unfolding flush_blocks
cache_flush c = do
  (bs, dev') ← flush_blocks c.dev c.blocks
  some (record c { blocks = bs; dev = dev' })

abbrev pub invalidate : CacheBlock → CacheBlock
invalidate b = record b { valid = false }

-- What `cache_reset` does when it has taken `cache_lock` again.
unfoldable pub clear_blocks : Cache → Cache
clear_blocks c = record {
  blocks = map invalidate c.blocks;
  clock_index = 0;
  cache_miss = 0;
  cache_hit = 0;
  dev = c.dev;
}

-- `between` is what other threads do after `cache_flush` released `cache_lock`.
unfoldable pub cache_reset : (Cache → Option Cache) → Cache → Option Cache
unfolding cache_flush clear_blocks
cache_reset between c = do c₁ ← cache_flush c; c₂ ← between c₁; some (clear_blocks c₂)
