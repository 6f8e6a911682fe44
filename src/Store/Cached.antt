-- ===== src/Store/Cached.antt =====
-- The buffer cache is such a store, by its theorems.
use cs162_group.Prelude.{ℕ, ◌<◌, ◌≡◌, ◌∙◌, Returns, arith}
use cs162_group.Block.{Data, overwrite}
use cs162_group.Cache.{Cache, cache_read_at, cache_write_at}
use cs162_group.Cache.View.{view}
use cs162_group.Cache.Invariant.{IsValid}
use cs162_group.Cache.Refine.{cache_read_at-Reads, cache_write_at-Reads}
use cs162_group.Store.{Store}

pub record Caches (c : Cache) (f : ℕ → Data) (n : ℕ) : Type 0 where
  pub valid : IsValid c
  pub reads : (s : ℕ) → view c s ≡ f s
  pub extent : c.dev.size ≡ n

pub read_cached :
    (c : Cache) (f : ℕ → Data) (n s : ℕ)
    → Caches c f n
    → s < n
    → Returns (cache_read_at s c) λ r. (r.0 ≡ f s) × Caches r.1 f n
read_cached c f n s h lt =
    let (r, run, (got, w)) = cache_read_at-Reads c h.valid s (rw h.extent lt) in
    (
      r,
      run,
      (
        got ∙ h.reads s,
        record {
          valid = w.valid;
          reads = λ t. w.reads t ∙ h.reads t;
          extent = w.extent ∙ h.extent;
        },
      ),
    )

pub write_cached :
    (c : Cache) (f : ℕ → Data) (n s : ℕ) (d : Data)
    → Caches c f n
    → s < n
    → Returns (cache_write_at s d c) λ c'. Caches c' (overwrite f s d) n
write_cached c f n s d h lt =
    let (c', run, w) = cache_write_at-Reads c h.valid s (rw h.extent lt) d in
    (
      c',
      run,
      record {
        valid = w.valid;
        reads = λ t. ground (arith, w.reads t, h.reads t);
        extent = w.extent ∙ h.extent;
      },
    )

abbrev pub cached : Store
cached = record {
  State = Cache;
  read = cache_read_at;
  write = cache_write_at;
  Holds = Caches;
  read_lem = read_cached;
  write_lem = write_cached;
}
