-- ===== src/Cache/Flush.antt =====
-- `cache_flush` and `cache_reset`: the disk takes on what the file system sees.
use cs162_group.Prelude.{
  ℕ, suc, ◌≤◌, ◌<◌, ◌≡◌, refl, true, false, ◌&&◌, Option, none, some, arith, if◌then◌else◌, length,
  List, [], ◌∷◌, Returns, Bool-cases, inl, inr, Option-cases, sym, ◌∙◌, ◌>>=◌, map, ap, length-map,
}
use cs162_group.Block.{Data, Device, is_foreign}
use cs162_group.Block.Laws.{block_write-Returns}
use cs162_group.Cache.{
  CacheBlock, Cache, cache_size, matches, flush_blocks, cache_flush, cache_reset, clear_blocks,
  invalidate, init_block, filesys_cache_init,
}
use cs162_group.Cache.View.{view, peek, count, peek-eq-none, peek-invalidate}
use cs162_group.Cache.Invariant.{IsValid}
use cs162_group.Cache.Refine.{Reads}

abbrev pub settle : Option CacheBlock → Option CacheBlock
settle none = none
settle (some b) = some (record b { dirty = false })

abbrev contents : Option CacheBlock → Data → Data
contents none d = d
contents (some b) d = b.data'

-- The blocks `bs` before the device `dev`.
record IsSynced (dev : Device) (bs : List CacheBlock) : Type 0 where
  once : (s : ℕ) → count s bs ≤ 1
  clean : (s : ℕ) (b : CacheBlock) → peek s bs ≡ some b → b.dirty ≡ false → b.data' ≡ dev.sectors s
  within : (s : ℕ) (b : CacheBlock) → peek s bs ≡ some b → s < dev.size
  role : is_foreign dev.type ≡ false

record Flushed (dev : Device) (bs : List CacheBlock) (r : List CacheBlock × Device) : Type 0 where
  size : length r.0 ≡ length bs
  peeks : (s : ℕ) → peek s r.0 ≡ settle (peek s bs)
  counts : (s : ℕ) → count s r.0 ≡ count s bs
  sectors : (s : ℕ) → r.1.sectors s ≡ contents (peek s bs) (dev.sectors s)
  extent : r.1.size ≡ dev.size
  type : r.1.type ≡ dev.type

module _ (dev : Device) (b : CacheBlock) (bs : List CacheBlock) (v : IsSynced dev (b ∷ bs)) where
  -- The rest of the list stays in step after the head was written, or had no need to be.
  tail-IsSynced :
      (dev' : Device)
      → ((s : ℕ) → dev'.sectors s ≡ (if matches s b then b.data' else dev.sectors s))
      → (dev'.size ≡ dev.size) × (dev'.type ≡ dev.type)
      → IsSynced dev' bs
  tail-IsSynced dev' reads kept = record {
    once = λ s. ground (arith, v.once s);
    clean = λ s x p d. ground (arith, reads s, v.once s, v.clean s x, peek-eq-none s bs);
    within = λ s x p. ground (arith, v.once s, v.within s x, peek-eq-none s bs, kept.0);
    role = ground (arith, v.role);
  }

  cons-Flushed :
      (b' : CacheBlock) (dev' : Device) (r : List CacheBlock × Device)
      → ((s : ℕ) → dev'.sectors s ≡ (if matches s b then b.data' else dev.sectors s))
      → (dev'.size ≡ dev.size) × (dev'.type ≡ dev.type)
      → (b.valid ≡ true → b' ≡ record b { dirty = false })
      → b'.valid ≡ b.valid
      → Flushed dev' bs r
      → Flushed dev (b ∷ bs) (b' ∷ r.0, r.1)
  cons-Flushed b' dev' r reads kept same valid w = record {
    size = ap suc w.size;
    peeks = λ s. ground (arith, w.peeks s, same, valid);
    counts = λ s. ground (arith, w.counts s, same, valid);
    sectors = λ s. ground (arith, w.sectors s, reads s, v.once s, peek-eq-none s bs);
    extent = w.extent ∙ kept.0;
    type = w.type ∙ kept.1;
  }

flush_blocks-Flushed :
    (dev : Device) (bs : List CacheBlock)
    → IsSynced dev bs
    → Returns (flush_blocks dev bs) (Flushed dev bs)
unfolding flush_blocks
flush_blocks-Flushed dev [] v = (
  ([], dev),
  refl,
  record {
    size = refl;
    peeks = λ s. refl;
    counts = λ s. refl;
    sectors = λ s. refl;
    extent = refl;
    type = refl;
  },
)
flush_blocks-Flushed dev (b ∷ bs) v = elim (Bool-cases (b.valid && b.dirty)) [
  | inl write ↦
      let m : matches b.sector b ≡ true = ground arith in
      let top : peek b.sector (b ∷ bs) ≡ some b = ground arith in
      let (dev', run, w) =
        block_write-Returns dev b.sector b.data' (v.within b.sector b top) v.role in
      let at : (s : ℕ) → dev'.sectors s ≡ (if matches s b then b.data' else dev.sectors s) =
        λ s. ground (arith, w.0 s) in
      let (r, rest, f) =
        flush_blocks-Flushed dev' bs (tail-IsSynced dev b bs v dev' at (w.1, w.2)) in
      (
        (record b { dirty = false } ∷ r.0, r.1),
        rw (write, run, ◌>>=◌, rest) refl,
        cons-Flushed dev b bs v (record b { dirty = false }) dev' r at (w.1, w.2) (λ _. refl) refl
            f,
      )
  | inr keep ↦
      let at : (s : ℕ) → dev.sectors s ≡ (if matches s b then b.data' else dev.sectors s) =
        λ s. ground (arith, v.clean s b) in
      let (r, rest, f) =
        flush_blocks-Flushed dev bs (tail-IsSynced dev b bs v dev at (refl, refl)) in
      (
        (b ∷ r.0, r.1),
        rw (keep, ◌>>=◌, rest) refl,
        cons-Flushed dev b bs v b dev r at (refl, refl) (λ on. ground arith) refl f,
      )
]

module _ (c : Cache) (v : IsValid c) where
  synced : IsSynced c.dev c.blocks
  synced = record { once = v.once; clean = v.clean; within = v.within; role = v.role }

  -- A flush succeeds on a valid cache, changes no sector as the file system sees it, and leaves each
  -- sector of the disk with that contents.
  pub cache_flush-Reads :
      Returns (cache_flush c) λ c'. Reads c (view c) c' × ((s : ℕ) → c'.dev.sectors s ≡ view c s)
  unfolding cache_flush view
  cache_flush-Reads =
      let (r, run, f) = flush_blocks-Flushed c.dev c.blocks synced in
      (
        record c { blocks = r.0; dev = r.1 },
        rw run refl,
        (
          record {
            valid = record {
              size = f.size ∙ v.size;
              hand = v.hand;
              once = λ s. ground (arith, f.counts s, v.once s);
              clean = λ s x p d. ground (arith, f.peeks s, f.sectors s);
              within = λ s x p. ground (
                arith,
                f.peeks s,
                f.extent,
                v.within s (record x { dirty = false }),
                v.within s (record x { dirty = true }),
              );
              role = ground (arith, f.type, v.role);
            };
            reads = λ s. ground (arith, f.peeks s, f.sectors s);
            extent = f.extent;
          },
          (λ s. ground (arith, f.sectors s)),
        ),
      )

  count-invalidate : (s : ℕ) (bs : List CacheBlock) → count s (map invalidate bs) ≡ 0
  count-invalidate s [] = refl
  count-invalidate s (b ∷ bs) = omega (arith, count-invalidate s bs)

-- Each sector reads as on the disk once the blocks are cleared.
clear_blocks-view : (c : Cache) (s : ℕ) → view (clear_blocks c) s ≡ c.dev.sectors s
unfolding clear_blocks view
clear_blocks-view c s = rw (view, peek-invalidate s c.blocks) refl

clear_blocks-IsValid : (c : Cache) → IsValid c → IsValid (clear_blocks c)
unfolding clear_blocks
clear_blocks-IsValid c v =
    let gone = λ (s : ℕ). peek-invalidate s c.blocks in
    record {
      size = length-map c.blocks invalidate ∙ v.size;
      hand = omega arith;
      once = λ s. omega (arith, count-invalidate c v s c.blocks);
      clean = λ s x p d. ground (arith, gone s);
      within = λ s x p. ground (arith, gone s);
      role = v.role;
    }

-- What a reset leaves: an empty valid cache with its counters at 0, which reads as the disk did after
-- the flush and what came between. No sector changes that was clean then.
pub record Reset (c : Cache) (between : Cache → Option Cache) (c' : Cache) : Type 0 where
  pub valid : IsValid c'
  pub extent : c'.dev.size ≡ c.dev.size
  pub empty : (s : ℕ) → peek s c'.blocks ≡ none
  pub hits : c'.cache_hit ≡ 0
  pub misses : c'.cache_miss ≡ 0
  pub reads :
      (c₁ : Cache) × (c₂ : Cache) × Reads c (view c) c₁
      × ((s : ℕ) → c₁.dev.sectors s ≡ view c s)
      × (between c₁ ≡ some c₂)
      × ((s : ℕ) → view c' s ≡ c₂.dev.sectors s)
      × ((s : ℕ)
          → ((b : CacheBlock) → peek s c₂.blocks ≡ some b → b.dirty ≡ false)
          → view c' s ≡ view c₂ s)

clean-view :
    (c : Cache)
    → IsValid c
    → (s : ℕ) → ((b : CacheBlock) → peek s c.blocks ≡ some b → b.dirty ≡ false)
    → c.dev.sectors s ≡ view c s
unfolding view
clean-view c v s h = elim (Option-cases (peek s c.blocks)) [
  | inl e ↦ rw (view, e) refl
  | inr (b, e) ↦ rw (view, e) (sym (v.clean s b e (h b e)))
]

-- A reset of a valid cache, with calls of other threads between its flush and its end that do not panic
-- and leave the cache valid, leaves it valid, empty and with its counters at 0. After the flush the disk
-- has every sector as the file system saw it; at the end each sector reads as the disk has it then, so
-- that a sector keeps its contents if no write to it is still only in the cache.
pub cache_reset-Reset :
    (c : Cache)
    → IsValid c
    → (between : Cache → Option Cache)
    → ((c₁ : Cache)
        → Reads c (view c) c₁
        → Returns (between c₁) λ c₂. IsValid c₂ × (c₂.dev.size ≡ c.dev.size))
    → Returns (cache_reset between c) (Reset c between)
unfolding cache_reset
cache_reset-Reset c v between calls =
    let (c₁, run₁, (r, disk)) = cache_flush-Reads c v in
    let (c₂, run₂, (v₂, size)) = calls c₁ r in
    let reads = clear_blocks-view c₂ in
    (
      clear_blocks c₂,
      rw (run₁, ◌>>=◌, run₂) refl,
      record {
        valid = clear_blocks-IsValid c₂ v₂;
        extent = size;
        empty = λ s. peek-invalidate s c₂.blocks;
        hits = refl;
        misses = refl;
        reads = (c₁, c₂, r, disk, run₂, reads, (λ s h. reads s ∙ clean-view c₂ v₂ s h));
      },
    )

-- With nothing between, each sector keeps its contents.
pub cache_reset_alone :
    (c : Cache) → IsValid c → Returns (cache_reset (λ c'. some c') c) (Reads c (view c))
unfolding cache_reset
cache_reset_alone c v =
    let (c₁, run₁, (r, disk)) = cache_flush-Reads c v in
    (
      clear_blocks c₁,
      rw (run₁, ◌>>=◌) refl,
      record {
        valid = clear_blocks-IsValid c₁ r.valid;
        reads = λ s. clear_blocks-view c₁ s ∙ disk s;
        extent = r.extent;
      },
    )

peek-init : (s : ℕ) (bs : List CacheBlock) → peek s (map init_block bs) ≡ none
peek-init s [] = refl
peek-init s (b ∷ bs) = peek-init s bs

count-init : (s : ℕ) (bs : List CacheBlock) → count s (map init_block bs) ≡ 0
count-init s [] = refl
count-init s (b ∷ bs) = omega (arith, count-init s bs)

-- Initialising a cache of the right size before a device for the file system leaves it valid, empty and
-- reading as the disk, with its counters at 0.
pub filesys_cache_init-Reads :
    (c : Cache)
    → length c.blocks ≡ cache_size
    → is_foreign c.dev.type ≡ false
    → Reads c c.dev.sectors (filesys_cache_init c)
      × ((s : ℕ) → peek s (filesys_cache_init c).blocks ≡ none)
      × ((filesys_cache_init c).cache_hit ≡ 0)
      × ((filesys_cache_init c).cache_miss ≡ 0)
unfolding filesys_cache_init view
filesys_cache_init-Reads c size role =
    let gone = λ (s : ℕ). peek-init s c.blocks in
    (
      record {
        valid = record {
          size = length-map c.blocks init_block ∙ size;
          hand = omega arith;
          once = λ s. omega (arith, count-init s c.blocks);
          clean = λ s x p d. ground (arith, gone s);
          within = λ s x p. ground (arith, gone s);
          role = role;
        };
        reads = λ s. ground (arith, gone s);
        extent = refl;
      },
      gone,
      refl,
      refl,
    )
