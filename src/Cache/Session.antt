-- ===== src/Cache/Session.antt =====
-- Any sequence of calls: the buffer cache is observed as a plain store of sectors.
use cs162_group.Prelude.{ℕ, ◌<◌, ◌≡◌, refl, Option, some, List, [], ◌∷◌, Returns, ◌∙◌, ◌>>=◌, ap}
use mathlib.Core.Path.{fun_ext, ap₂}
use cs162_group.Block.{Data, overwrite}
use cs162_group.Cache.{Cache, cache_read_at, cache_write_at, cache_flush, cache_reset}
use cs162_group.Cache.View.{view}
use cs162_group.Cache.Invariant.{IsValid}
use cs162_group.Cache.Refine.{cache_read_at-Reads, cache_write_at-Reads}
use cs162_group.Cache.Flush.{cache_flush-Reads, cache_reset_alone}

-- A call of the cache's interface.
pub data Op : Type 0 where
  read : ℕ → Op
  write : ℕ → Data → Op
  flush : Op
  reset : Op

-- The calls in order, with what each read hands out.
unfoldable pub run : List Op → Cache → Option (List Data × Cache)
run [] c = some ([], c)
run (read s ∷ ops) c = do (d, c₁) ← cache_read_at s c; (out, c₂) ← run ops c₁; some (d ∷ out, c₂)
run (write s d ∷ ops) c = do c₁ ← cache_write_at s d c; run ops c₁
run (flush ∷ ops) c = do c₁ ← cache_flush c; run ops c₁
run (reset ∷ ops) c = do c₁ ← cache_reset (λ c'. some c') c; run ops c₁

-- The store that the calls promise: no cache, no replacement, no flush.
abbrev pub promise : List Op → (ℕ → Data) → List Data × (ℕ → Data)
promise [] f = ([], f)
promise (read s ∷ ops) f = let (out, g) = promise ops f in (f s ∷ out, g)
promise (write s d ∷ ops) f = promise ops (overwrite f s d)
promise (flush ∷ ops) f = promise ops f
promise (reset ∷ ops) f = promise ops f

-- Every read and write names a sector of the device.
abbrev pub InRange : ℕ → List Op → Type 0
InRange n [] = Unit
InRange n (read s ∷ ops) = (s < n) × InRange n ops
InRange n (write s d ∷ ops) = (s < n) × InRange n ops
InRange n (flush ∷ ops) = InRange n ops
InRange n (reset ∷ ops) = InRange n ops

-- From a cache that reads as `f`.
run_from :
    (ops : List Op) (c : Cache) (f : ℕ → Data) (n : ℕ)
    → IsValid c
    → view c ≡ f
    → c.dev.size ≡ n
    → InRange n ops
    → Returns
        (run ops c)
        λ r. (r.0 ≡ (promise ops f).0) × IsValid r.1 × (view r.1 ≡ (promise ops f).1)
unfolding run
run_from [] c f n v e z h = (([], c), refl, (refl, v, e))
run_from (read s ∷ ops) c f n v e z h =
    let ((d, c₁), now, (got, r)) = cache_read_at-Reads c v s (rw z h.0) in
    let (t, later, w) = run_from ops c₁ f n r.valid (fun_ext r.reads ∙ e) (r.extent ∙ z) h.1 in
    ((d ∷ t.0, t.1), rw (now, ◌>>=◌, later) refl, (ap₂ ◌∷◌ (got ∙ ap (λ g. g s) e) w.0, w.1, w.2))
run_from (write s d ∷ ops) c f n v e z h =
    let (c₁, now, r) = cache_write_at-Reads c v s (rw z h.0) d in
    let (t, later, w) =
      run_from ops c₁ (overwrite f s d) n r.valid (fun_ext r.reads ∙ ap (λ g. overwrite g s d) e)
        (r.extent ∙ z) h.1 in
    (t, rw (now, ◌>>=◌, later) refl, w)
run_from (flush ∷ ops) c f n v e z h =
    let (c₁, now, (r, _)) = cache_flush-Reads c v in
    let (t, later, w) = run_from ops c₁ f n r.valid (fun_ext r.reads ∙ e) (r.extent ∙ z) h in
    (t, rw (now, ◌>>=◌, later) refl, w)
run_from (reset ∷ ops) c f n v e z h =
    let (c₁, now, r) = cache_reset_alone c v in
    let (t, later, w) = run_from ops c₁ f n r.valid (fun_ext r.reads ∙ e) (r.extent ∙ z) h in
    (t, rw (now, ◌>>=◌, later) refl, w)

-- Any sequence of reads, writes, flushes and resets inside the device runs to its end on a valid
-- cache, each read hands out what the plain store would, and the cache left is valid and reads as
-- the plain store left.
pub run-promise :
    (ops : List Op) (c : Cache)
    → IsValid c
    → InRange c.dev.size ops
    → Returns
        (run ops c)
        λ r. (r.0 ≡ (promise ops (view c)).0) × IsValid r.1 × (view r.1 ≡ (promise ops (view c)).1)
run-promise ops c v h = run_from ops c (view c) c.dev.size v refl refl h
