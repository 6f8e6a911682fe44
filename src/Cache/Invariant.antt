-- ===== src/Cache/Invariant.antt =====
-- The well-formedness of the buffer cache, and that filling, marking and writing a block keep it.
use cs162_group.Prelude.{
  ℕ, List, ◌⊎◌, inl, ◌∙◌, ◌≤◌, ◌<◌, ◌≡◌, refl, Bool, true, false, none, some, arith, if◌then◌else◌,
  get_elem?, set, length, length-set,
}
use cs162_group.Block.{Device, is_foreign}
use cs162_group.Cache.{CacheBlock, Cache, cache_size, matches}
use cs162_group.Cache.View.{peek, count, view, peek-set, count-set, peek_of_get, count_of_peek-none}

-- No sector is cached twice, a clean block agrees with the disk, and the hand is in range.
pub record IsValid (c : Cache) : Type 0 where
  pub size : length c.blocks ≡ cache_size
  pub hand : c.clock_index < cache_size
  pub once : (s : ℕ) → count s c.blocks ≤ 1
  pub clean :
      (s : ℕ) (b : CacheBlock)
      → peek s c.blocks ≡ some b
      → b.dirty ≡ false
      → b.data' ≡ c.dev.sectors s
  pub within : (s : ℕ) (b : CacheBlock) → peek s c.blocks ≡ some b → s < c.dev.size
  pub role : is_foreign c.dev.type ≡ false

-- A block under which no other valid block stands may be replaced.
abbrev pub IsFresh : CacheBlock → CacheBlock → List CacheBlock → Type 0
IsFresh b b' bs = (s : ℕ) → matches s b' ≡ true → (matches s b ≡ true) ⊎ (peek s bs ≡ none)

pub count-replace :
    (bs : List CacheBlock) (i : ℕ) (b b' : CacheBlock)
    → get_elem? bs i ≡ some b
    → ((s : ℕ) → count s bs ≤ 1)
    → IsFresh b b' bs
    → (s : ℕ) → count s (set bs i b') ≤ 1
count-replace bs i b b' got once fresh s =
    ground (arith, count-set s bs i b b' got, once s, fresh s, count_of_peek-none s bs)

pub peek-replace :
    (bs : List CacheBlock) (i : ℕ) (b b' : CacheBlock)
    → get_elem? bs i ≡ some b
    → ((s : ℕ) → count s bs ≤ 1)
    → IsFresh b b' bs
    → (s : ℕ)
    → peek s (set bs i b')
      ≡ (if matches s b' then some b' else if matches s b then none else peek s bs)
peek-replace bs i b b' got once fresh s =
    peek-set s bs i b b' got (once s) (count-replace bs i b b' got once fresh s)

-- What a step of the cache keeps: its validity, and every sector as the file system sees it.
pub record Keeps (c c' : Cache) : Type 0 where
  pub valid : IsValid c'
  pub same : (s : ℕ) → view c' s ≡ view c s
  pub extent : c'.dev.size ≡ c.dev.size
  pub absent : (s : ℕ) → peek s c.blocks ≡ none → peek s c'.blocks ≡ none

module _ (c : Cache) (v : IsValid c) (i : ℕ) (b : CacheBlock)
    (got : get_elem? c.blocks i ≡ some b) where
  -- The contents of a cached block are the sector's.
  pub view_of_get : matches b.sector b ≡ true → view c b.sector ≡ b.data'
  unfolding view
  view_of_get m = ground (arith, peek_of_get b.sector c.blocks i b got m (v.once b.sector))

  -- Setting or clearing a use bit, wherever the hand then stands.
  pub mark-Keeps :
      (u : Bool) (h : ℕ)
      → h < cache_size
      → Keeps c
          (record c { blocks = set c.blocks i (record b { recently_used = u }); clock_index = h })
  unfolding view
  mark-Keeps u h lt =
      let b' : CacheBlock = record b { recently_used = u } in
      let fresh : IsFresh b b' c.blocks = λ s m. inl m in
      let top = peek-replace c.blocks i b b' got v.once fresh in
      let own = λ (s : ℕ) (m : matches s b ≡ true). peek_of_get s c.blocks i b got m (v.once s) in
      record {
        valid = record {
          size = length-set c.blocks i b' ∙ v.size;
          hand = lt;
          once = count-replace c.blocks i b b' got v.once fresh;
          clean = λ s x p d. ground (arith, top s, own s, v.clean s x, v.clean s b);
          within = λ s x p. ground (arith, top s, own s, v.within s x, v.within s b);
          role = v.role;
        };
        same = λ s. ground (arith, top s, own s);
        extent = refl;
        absent = λ s p. ground (arith, top s, own s);
      }

  -- Dropping a block that agrees with the disk `dev'`, where `dev'` is the disk up to this sector.
  pub drop-Keeps :
      (b' : CacheBlock) (dev' : Device)
      → b'.valid ≡ false
      → ((s : ℕ) → dev'.sectors s ≡ (if matches s b then b.data' else c.dev.sectors s))
      → (dev'.size ≡ c.dev.size) × (dev'.type ≡ c.dev.type)
      → Keeps c (record c { blocks = set c.blocks i b'; dev = dev' })
  unfolding view
  drop-Keeps b' dev' off reads kept =
      let fresh : IsFresh b b' c.blocks = λ s m. ground arith in
      let top = peek-replace c.blocks i b b' got v.once fresh in
      let own = λ (s : ℕ) (m : matches s b ≡ true). peek_of_get s c.blocks i b got m (v.once s) in
      record {
        valid = record {
          size = length-set c.blocks i b' ∙ v.size;
          hand = v.hand;
          once = count-replace c.blocks i b b' got v.once fresh;
          clean = λ s x p d. ground (arith, top s, reads s, v.clean s x);
          within = λ s x p. ground (arith, top s, v.within s x);
          role = ground (arith, v.role);
        };
        same = λ s. ground (arith, top s, own s, reads s);
        extent = kept.0;
        absent = λ s p. ground (arith, top s);
      }
