-- ===== src/Cache/Evict.antt =====
-- The clock loop: it ends, panics on no valid cache, and gives a free block without changing what
-- any sector reads as.
use cs162_group.Prelude.{
  ℕ, zero, suc, ◌+◌, ◌*◌, ◌≤◌, ◌<◌, ◌≡◌, refl, true, false, some, arith, ◌==◌, if◌then◌else◌,
  get_elem?, set, length, List, [], ◌∷◌, Returns, Bool-cases, inl, inr, ◌∙◌, ◌>>=◌,
  get_elem?-set_self,
}
use cs162_group.Block.Laws.{block_write-Returns}
use cs162_group.Cache.{
  CacheBlock, Cache, cache_size, matches, evict, pass_over, get_block_loop, cache_get_block,
}
use cs162_group.Cache.View.{to_nat, peek_of_get}
use cs162_group.Cache.Invariant.{IsValid, Keeps, mark-Keeps, drop-Keeps}

-- How many blocks have their second chance left.
abbrev pub used : List CacheBlock → ℕ
used [] = 0
used (b ∷ bs) = to_nat b.recently_used + used bs

used-le-length : (bs : List CacheBlock) → used bs ≤ length bs
used-le-length [] = omega arith
used-le-length (b ∷ bs) = ground (arith, used-le-length bs)

used-clear :
    (bs : List CacheBlock) (i : ℕ) (b : CacheBlock)
    → get_elem? bs i ≡ some b
    → b.recently_used ≡ true
    → suc (used (set bs i (record b { recently_used = false }))) ≡ used bs
used-clear [] i b got on = ground arith
used-clear (x ∷ bs) zero b got on = ground arith
used-clear (x ∷ bs) (suc i) b got on = ground (arith, used-clear bs i b)

pub get_of_lt {ℓ} :
    {A : Type ℓ} (xs : List A) (i : ℕ) → i < length xs → (a : A) × (get_elem? xs i ≡ some a)
get_of_lt [] i h = absurd (omega arith)
get_of_lt (x ∷ xs) zero h = (x, refl)
get_of_lt (x ∷ xs) (suc i) h = get_of_lt xs i (omega arith)

-- The free block at the index found, in a cache that reads as before.
pub record Ready (c : Cache) (r : ℕ × Cache) : Type 0 where
  pub keeps : Keeps c r.1
  pub hand : r.0 ≡ r.1.clock_index
  pub block : CacheBlock
  pub at : get_elem? r.1.blocks r.0 ≡ some block
  pub free : block.valid ≡ false
  pub hits : r.1.cache_hit ≡ c.cache_hit
  pub misses : r.1.cache_miss ≡ c.cache_miss

module _ (c : Cache) (v : IsValid c) (b : CacheBlock)
    (got : get_elem? c.blocks c.clock_index ≡ some b) where
  in_range : c.clock_index < length c.blocks
  in_range = omega (arith, v.size, v.hand)

  matches_own : b.valid ≡ true → matches b.sector b ≡ true
  matches_own on = ground arith

  evict-Ready : b.valid ≡ true → Returns (evict c b) (Ready c)
  unfolding evict
  evict-Ready on = elim (Bool-cases b.dirty) [
    | inl dirty ↦
        let m = matches_own on in
        let top = peek_of_get b.sector c.blocks c.clock_index b got m (v.once b.sector) in
        let (dev', run, w) =
          block_write-Returns c.dev b.sector b.data' (v.within b.sector b top) v.role in
        let b' : CacheBlock = record b { valid = false; dirty = false } in
        (
          (c.clock_index, record c { blocks = set c.blocks c.clock_index b'; dev = dev' }),
          rw (dirty, run, ◌>>=◌) refl,
          record {
            keeps =
                drop-Keeps c v c.clock_index b got b' dev' refl (λ s. ground (arith, w.0 s))
                  (w.1, w.2);
            hand = refl;
            block = b';
            at = get_elem?-set_self c.blocks c.clock_index b' in_range;
            free = refl;
            hits = refl;
            misses = refl;
          },
        )
    | inr clean ↦
        let b' : CacheBlock = record b { valid = false } in
        let m = matches_own on in
        let top = λ (s : ℕ) (e : matches s b ≡ true).
          peek_of_get s c.blocks c.clock_index b got e (v.once s) in
        (
          (c.clock_index, record c { blocks = set c.blocks c.clock_index b' }),
          rw clean refl,
          record {
            keeps =
                drop-Keeps c v c.clock_index b got b' c.dev refl
                  (λ s. ground (arith, top s, v.clean s b)) (refl, refl);
            hand = refl;
            block = b';
            at = get_elem?-set_self c.blocks c.clock_index b' in_range;
            free = refl;
            hits = refl;
            misses = refl;
          },
        )
  ]

  pass_over-Keeps : Keeps c (pass_over c b)
  unfolding pass_over
  pass_over-Keeps =
      mark-Keeps c v c.clock_index b got false
        (if c.clock_index + 1 == cache_size then 0 else c.clock_index + 1) (ground (arith, v.hand))

  used-pass_over : b.recently_used ≡ true → suc (used (pass_over c b).blocks) ≡ used c.blocks
  unfolding pass_over
  used-pass_over on = used-clear c.blocks c.clock_index b got on

Keeps-trans : {a b c : Cache} → Keeps a b → Keeps b c → Keeps a c
Keeps-trans k l = record {
  valid = l.valid;
  same = λ s. l.same s ∙ k.same s;
  extent = l.extent ∙ k.extent;
  absent = λ s p. l.absent s (k.absent s p);
}

Ready-Keeps :
    {a b : Cache}
    → Keeps a b
    → b.cache_hit ≡ a.cache_hit
    → b.cache_miss ≡ a.cache_miss
    → (r : ℕ × Cache) → Ready b r
    → Ready a r
Ready-Keeps k h m r w = record {
  keeps = Keeps-trans k w.keeps;
  hand = w.hand;
  block = w.block;
  at = w.at;
  free = w.free;
  hits = w.hits ∙ h;
  misses = w.misses ∙ m;
}

-- Each round that goes on takes a second chance away, so as many rounds as there are chances suffice.
loop-Ready :
    (fuel : ℕ) (c : Cache)
    → IsValid c
    → used c.blocks < fuel
    → Returns (get_block_loop fuel c) (Ready c)
unfolding get_block_loop
loop-Ready zero c v h = absurd (omega arith)
loop-Ready (suc fuel) c v h =
    let (b, got) = get_of_lt c.blocks c.clock_index (omega (arith, v.size, v.hand)) in
    elim (Bool-cases b.valid) [
      | inr off ↦ (
        (c.clock_index, c),
        rw (got, ◌>>=◌, off) refl,
        record {
          keeps = record { valid = v; same = λ s. refl; extent = refl; absent = λ s p. p };
          hand = refl;
          block = b;
          at = got;
          free = off;
          hits = refl;
          misses = refl;
        },
      )
      | inl on ↦ elim (Bool-cases b.recently_used) [
        | inl warm ↦
            let k = pass_over-Keeps c v b got in
            let (r, run, w) =
              loop-Ready fuel (pass_over c b) k.valid
                (omega (arith, used-pass_over c v b got warm)) in
            (r, ground (arith, run), Ready-Keeps k (ground arith) (ground arith) r w)
        | inr cold ↦ let (r, run, w) = evict-Ready c v b got on in (r, ground (arith, run), w)
      ]
    ]

-- `cache_get_block` ends and does not panic on a valid cache: it gives a block that is free, in a
-- valid cache that reads as before at every sector.
pub cache_get_block-Ready : (c : Cache) → IsValid c → Returns (cache_get_block c) (Ready c)
unfolding cache_get_block
cache_get_block-Ready c v =
    loop-Ready (2 * cache_size + 1) c v (omega (arith, used-le-length c.blocks, v.size))
