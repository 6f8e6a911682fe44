-- ===== src/Cache/Refine.antt =====
-- The buffer cache implements a plain store of sectors: reads return the last write, and replacement
-- is invisible.
use cs162_group.Prelude.{
  ℕ, ◌⊎◌, ◌+◌, ◌-◌, ◌%◌, ◌^◌, ◌<◌, ◌≡◌, refl, Bool, true, false, none, some, arith, get_elem?, set,
  Returns, Option-cases, inl, inr, ◌∙◌, ◌>>=◌, length-set,
}
use cs162_group.Block.{Data, overwrite, Device, block_read}
use cs162_group.Cache.{
  CacheBlock, Cache, matches, cache_check, cache_read_at, cache_write_at, count_up, check_from,
  put_block,
}
use cs162_group.Cache.View.{view, peek, peek-matches, check_from-none, check_from-some}
use cs162_group.Cache.Invariant.{IsValid, IsFresh, mark-Keeps, peek-replace, count-replace}
use cs162_group.Cache.Evict.{Ready, cache_get_block-Ready}

-- `c'` is valid, reads as `f` and has as many sectors as `c`.
pub record Reads (c : Cache) (f : ℕ → Data) (c' : Cache) : Type 0 where
  pub valid : IsValid c'
  pub reads : (s : ℕ) → view c' s ≡ f s
  pub extent : c'.dev.size ≡ c.dev.size

module _ (c : Cache) (v : IsValid c) (i : ℕ) (b : CacheBlock)
    (got : get_elem? c.blocks i ≡ some b) where
  -- A block that holds the sector, or a free one when no block does, takes the new contents.
  pub fill-Reads :
      (s : ℕ) (d : Data) (dirty : Bool) (dev' : Device)
      → ((t : ℕ) → matches t b ≡ true → t ≡ s)
      → (matches s b ≡ true) ⊎ (peek s c.blocks ≡ none)
      → s < c.dev.size
      → (dev'.sectors ≡ c.dev.sectors) × (dev'.size ≡ c.dev.size) × (dev'.type ≡ c.dev.type)
      → (dirty ≡ false → d ≡ c.dev.sectors s)
      → Reads c (overwrite (view c) s d) (record c {
        blocks =
            set c.blocks i
              (record { sector = s; data' = d; valid = true; dirty = dirty; recently_used = true });
        dev = dev';
      })
  unfolding view
  fill-Reads s d dirty dev' only room small kept synced =
      let b' : CacheBlock = record {
        sector = s;
        data' = d;
        valid = true;
        dirty = dirty;
        recently_used = true;
      } in
      let fresh : IsFresh b b' c.blocks = λ t m. ground (arith, room) in
      let top = peek-replace c.blocks i b b' got v.once fresh in
      record {
        valid = record {
          size = length-set c.blocks i b' ∙ v.size;
          hand = v.hand;
          once = count-replace c.blocks i b b' got v.once fresh;
          clean = λ t x p e. ground (arith, top t, v.clean t x, synced, kept.0);
          within = λ t x p. ground (arith, top t, v.within t x);
          role = ground (arith, v.role);
        };
        reads = λ t. ground (arith, top t, only t, kept.0);
        extent = kept.1;
      }

module _ (c : Cache) (v : IsValid c) (h m : ℕ) where
  abbrev recount : Cache
  recount = record c { cache_hit = h; cache_miss = m }

  recount-IsValid : IsValid recount
  recount-IsValid = record {
    size = v.size;
    hand = v.hand;
    once = v.once;
    clean = v.clean;
    within = v.within;
    role = v.role;
  }

  -- `cache_check` counts, and does nothing else.
  check-hit :
      (s i : ℕ)
      → check_from s c.blocks 0 ≡ some i
      → h ≡ count_up c.cache_hit
      → m ≡ c.cache_miss
      → cache_check c s ≡ (some i, recount)
  unfolding cache_check
  check-hit s i e eh em = ground (arith, e)

  check-miss :
      (s : ℕ)
      → check_from s c.blocks 0 ≡ none
      → h ≡ c.cache_hit
      → m ≡ count_up c.cache_miss
      → cache_check c s ≡ (none, recount)
  unfolding cache_check
  check-miss s e eh em = ground (arith, e)

module _ (c : Cache) (v : IsValid c) (s : ℕ) (small : s < c.dev.size) where
  -- On a miss: the clock gives a free block, which then holds the sector.
  pub miss-Reads :
      (h m : ℕ) (d : Data) (dirty : Bool) (r : ℕ × Cache) (dev' : Device)
      → Ready (recount c v h m) r
      → peek s c.blocks ≡ none
      → (dev'.sectors ≡ r.1.dev.sectors) × (dev'.size ≡ r.1.dev.size) × (dev'.type ≡ r.1.dev.type)
      → (dirty ≡ false → d ≡ r.1.dev.sectors s)
      → Reads c (overwrite (view c) s d) (record (r.1) {
        blocks =
            set r.1.blocks r.0
              (record { sector = s; data' = d; valid = true; dirty = dirty; recently_used = true });
        dev = dev';
      })
  unfolding view
  miss-Reads h m d dirty (i, c₂) dev' w out kept synced =
      let k = w.keeps in
      let f =
        fill-Reads c₂ k.valid i w.block w.at s d dirty dev' (λ t e. ground (arith, w.free))
          (inr (k.absent s out)) (omega (arith, k.extent)) kept synced in
      record {
        valid = f.valid;
        reads = λ t. ground (arith, f.reads t, k.same t);
        extent = f.extent ∙ k.extent;
      }

  -- On a valid cache, a read of a sector of the device does not panic, gives what the cache reads
  -- there, and changes no sector.
  pub cache_read_at-Reads : Returns (cache_read_at s c) λ r. (r.0 ≡ view c s) × Reads c (view c) r.1
  unfolding cache_read_at block_read view
  cache_read_at-Reads = elim (Option-cases (check_from s c.blocks 0)) [
    | inr (j, hit) ↦
        let (b, le, got, top) = check_from-some s c.blocks 0 j hit in
        let e : j - 0 ≡ j = omega arith in
        let c₁ : Cache = recount c v (count_up c.cache_hit) c.cache_miss in
        let v' = recount-IsValid c v (count_up c.cache_hit) c.cache_miss in
        let here : get_elem? c.blocks j ≡ some b = rw e at got in
        let k = mark-Keeps c₁ v' j b here true c.clock_index v.hand in
        (
          (b.data', put_block c₁ j (record b { recently_used = true })),
          rw (check-hit c v _ _ s j hit refl refl, here, ◌>>=◌) refl,
          (ground arith, record { valid = k.valid; reads = k.same; extent = k.extent }),
        )
    | inl miss ↦
        let out = check_from-none s c.blocks 0 miss in
        let c₁ : Cache = recount c v c.cache_hit (count_up c.cache_miss) in
        let (r, run, w) =
          cache_get_block-Ready c₁ (recount-IsValid c v c.cache_hit (count_up c.cache_miss)) in
        let k = w.keeps in
        let gone = k.absent s out in
        let d : Data = r.1.dev.sectors s in
        let b : CacheBlock = record {
          sector = s;
          data' = d;
          valid = true;
          dirty = false;
          recently_used = true;
        } in
        let dev' : Device = record (r.1.dev) { read_cnt = (r.1.dev.read_cnt + 1) % 2 ^ 64 } in
        let same : d ≡ view c s = ground (arith, k.same s) in
        let f =
          miss-Reads c.cache_hit (count_up c.cache_miss) d false r dev' w out (refl, refl, refl)
            (λ _. refl) in
        (
          (d, record (r.1) { blocks = set r.1.blocks r.0 b; dev = dev' }),
          rw (check-miss c v _ _ s miss refl refl, run, ◌>>=◌) (ground (arith, k.extent)),
          (
            same,
            record { valid = f.valid; reads = λ t. ground (arith, f.reads t); extent = f.extent },
          ),
        )
  ]

  -- On a valid cache, a write to a sector of the device does not panic, and changes that sector
  -- alone.
  pub cache_write_at-Reads :
      (d : Data) → Returns (cache_write_at s d c) (Reads c (overwrite (view c) s d))
  unfolding cache_write_at view
  cache_write_at-Reads d = elim (Option-cases (check_from s c.blocks 0)) [
    | inr (j, hit) ↦
        let (b, le, got, top) = check_from-some s c.blocks 0 j hit in
        let e : j - 0 ≡ j = omega arith in
        let c₁ : Cache = recount c v (count_up c.cache_hit) c.cache_miss in
        let v' = recount-IsValid c v (count_up c.cache_hit) c.cache_miss in
        let here : get_elem? c.blocks j ≡ some b = rw e at got in
        let m = peek-matches s c.blocks b top in
        let f =
          fill-Reads c₁ v' j b here s d true c₁.dev (λ t q. ground (arith, m)) (inl m) small
            (refl, refl, refl) (λ q. cc) in
        (
          put_block c₁ j
              (record { sector = s; data' = d; valid = true; dirty = true; recently_used = true }),
          rw (check-hit c v _ _ s j hit refl refl, here, ◌>>=◌) (ground (arith, m)),
          record { valid = f.valid; reads = f.reads; extent = f.extent },
        )
    | inl miss ↦
        let out = check_from-none s c.blocks 0 miss in
        let c₁ : Cache = recount c v c.cache_hit (count_up c.cache_miss) in
        let (r, run, w) =
          cache_get_block-Ready c₁ (recount-IsValid c v c.cache_hit (count_up c.cache_miss)) in
        let b : CacheBlock = record {
          sector = s;
          data' = d;
          valid = true;
          dirty = true;
          recently_used = true;
        } in
        (
          put_block r.1 r.0 b,
          rw (check-miss c v _ _ s miss refl refl, run, ◌>>=◌) refl,
          miss-Reads c.cache_hit (count_up c.cache_miss) d true r r.1.dev w out (refl, refl, refl)
              (λ q. cc),
        )
  ]
