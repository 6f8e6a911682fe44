-- ===== src/Extend/Alloc.antt =====
-- Filling a run of pointers from the free map: fresh sectors, each for one pointer.
use cs162_group.Prelude.{
  ℕ, zero, suc, ◌+◌, ◌≤◌, ◌<◌, ◌≡◌, ◌≢◌, refl, ◌∙◌, Bool, true, false, Option, none, some, ◌⊎◌,
  List, ◌>>=◌, if◌then◌else◌, ◌==◌, arith, Bool-cases, Returns, inl, inr, get_or, set, length,
  length-set,
}
use cs162_group.Block.{Data}
use cs162_group.Bitmap.{Bitmap}
use cs162_group.Bitmap.Bit.{bit_at, IsValid, Wrote, get_or-set}
use cs162_group.Bitmap.Range.{within}
use cs162_group.Store.{Store}
use cs162_group.Volume.{Volume, of_free_map}
use cs162_group.FreeMap.{free_map_allocate}
use cs162_group.FreeMap.Laws.{Taken, free_map_allocate-Taken}
use cs162_group.Extend.{empty, alloc_ptrs}

-- A store below the free map in which writes to the first `n` sectors, and the writes of the map to
-- its file, do not panic. `Good` is what they keep.
pub record Sound (store : Store) (write_map : Bitmap → store.State → Option (Bool × store.State))
    (n : ℕ) : Type 1 where
  pub Good : store.State → Type 0
  pub write_good :
      (s : ℕ) (d : Data) (w : store.State) → Good w → s < n → Returns (store.write s d w) Good
  pub map_good : (m : Bitmap) (w : store.State) → Good w → Returns (write_map m w) λ r. Good r.1

-- The state after `k` pointers from `i` on were to be filled.
pub record Allocated (m : Bitmap) (ptrs : List ℕ) (i k : ℕ) (ok : Bool) (ptrs' : List ℕ)
    (m' : Bitmap) : Type 0 where
  pub valid : IsValid m'
  pub size : m'.bit_cnt ≡ m.bit_cnt
  pub length' : length ptrs' ≡ length ptrs
  -- No sector is given up, and no other pointer is touched.
  pub grows : (x : ℕ) → bit_at m x ≡ true → bit_at m' x ≡ true
  pub outside : (j : ℕ) → (j < i) ⊎ (i + k ≤ j) → get_or ptrs' j 0 ≡ get_or ptrs j 0
  -- On success each pointer of the run names a sector that was free and is taken now.
  pub fresh :
      ok ≡ true
      → (j : ℕ) → i ≤ j
      → j < i + k
      → (get_or ptrs' j 0 < m.bit_cnt)
        × (bit_at m (get_or ptrs' j 0) ≡ false)
        × (bit_at m' (get_or ptrs' j 0) ≡ true)
  -- Different pointers of the run name different sectors.
  pub apart :
      ok ≡ true → (j l : ℕ) → i ≤ j → j < l → l < i + k → get_or ptrs' j 0 ≢ get_or ptrs' l 0

module _ (store : Store) (has_file : Bool)
    (write_map : Bitmap → store.State → Option (Bool × store.State)) (n : ℕ)
    (sound : Sound store write_map n) where
  open sound use {Good, write_good, map_good}

  abbrev volume : Volume
  volume = of_free_map store has_file write_map

  -- One more pointer, filled first.
  cons-Allocated :
      (m m₁ m' : Bitmap) (ptrs ptrs' : List ℕ) (i k s : ℕ) (ok : Bool)
      → i < length ptrs
      → s < m.bit_cnt
      → bit_at m s ≡ false
      → Wrote m (λ j. if within s 1 j then true else bit_at m j) m₁
      → Allocated m₁ (set ptrs i s) (i + 1) k ok ptrs' m'
      → Allocated m ptrs i (suc k) ok ptrs' m'
  cons-Allocated m m₁ m' ptrs ptrs' i k s ok lt small off u a =
      let now : get_or ptrs' i 0 ≡ s =
        a.outside i (inl (omega arith)) ∙ ground (arith, get_or-set ptrs i i s 0 lt) in
      let taken : bit_at m₁ s ≡ true = ground (arith, u.bits s) in
      let kept = λ (x : ℕ) (on : bit_at m x ≡ true).
        let e : bit_at m₁ x ≡ true = ground (arith, u.bits x) in e in
      let was = λ (x : ℕ) (off' : bit_at m₁ x ≡ false).
        let e : bit_at m x ≡ false = ground (arith, u.bits x) in e in
      record {
        valid = a.valid;
        size = a.size ∙ u.size;
        length' = a.length' ∙ length-set ptrs i s;
        grows = λ x on. a.grows x (kept x on);
        outside =
            λ j away. a.outside j (omega arith) ∙ ground (arith, get_or-set ptrs i j s 0 lt, away);
        fresh = λ good j lo hi. elim (Bool-cases (j == i)) [
          | inl e ↦ let e' : j ≡ i = ground arith in rw (e', now) (small, off, a.grows s taken)
          | inr e ↦
              let (below, clear, set') = a.fresh good j (ground arith) (omega arith) in
              (omega (arith, u.size), was (get_or ptrs' j 0) clear, set')
        ];
        apart = λ good j l lo mid hi. elim (Bool-cases (j == i)) [
          | inl e ↦
              let e' : j ≡ i = ground arith in
              let clear = (a.fresh good l (omega arith) (omega arith)).1 in
              rw (e', now) (λ same. absurd (ground (arith, same, clear, taken)))
          | inr e ↦ a.apart good j l (ground arith) mid (omega arith)
        ];
      }

  -- Filling pointers that the array has does not panic, and ends as described.
  pub alloc_ptrs-Allocated :
      (k : ℕ) (ptrs : List ℕ) (i : ℕ) (m : Bitmap) (w : store.State)
      → IsValid m
      → m.bit_cnt ≤ n
      → Good w
      → i + k ≤ length ptrs
      → Returns
          (alloc_ptrs volume k ptrs i (m, w))
          λ r. Allocated m ptrs i k r.0 r.1 r.2.0 × Good r.2.1
  unfolding alloc_ptrs
  alloc_ptrs-Allocated zero ptrs i m w v small good fits = (
    (true, ptrs, (m, w)),
    refl,
    (
      record {
        valid = v;
        size = refl;
        length' = refl;
        grows = λ x on. on;
        outside = λ j away. refl;
        fresh = λ ok j lo hi. absurd (omega arith);
        apart = λ ok j l lo mid hi. absurd (omega arith);
      },
      good,
    ),
  )
  alloc_ptrs-Allocated (suc k) ptrs i m w v small good fits =
      let (r, run, (t, g)) =
        free_map_allocate-Taken has_file write_map Good map_good 1 m w v good (omega arith) in
      next (alloc_ptrs-Allocated k) r run t g
    where
      next :
          ((ptrs : List ℕ) (i : ℕ) (m : Bitmap) (w : store.State)
            → IsValid m
            → m.bit_cnt ≤ n
            → Good w
            → i + k ≤ length ptrs
            → Returns
                (alloc_ptrs volume k ptrs i (m, w))
                λ r. Allocated m ptrs i k r.0 r.1 r.2.0 × Good r.2.1)
          → (r : Option ℕ × (Bitmap × store.State))
          → free_map_allocate has_file write_map 1 (m, w) ≡ some r
          → Taken has_file write_map m w 1 r.0 r.1.0
          → Good r.1.1
          → Returns
              (alloc_ptrs volume (suc k) ptrs i (m, w))
              λ r. Allocated m ptrs i (suc k) r.0 r.1 r.2.0 × Good r.2.1
      next rest (none, (m₁, w₁)) run (u, why) g = (
        (false, ptrs, (m₁, w₁)),
        rw (run, ◌>>=◌) refl,
        (
          record {
            valid = u.valid;
            size = u.size;
            length' = refl;
            grows = λ x on. u.bits x ∙ on;
            outside = λ j away. refl;
            fresh = λ ok. absurd (ground (arith, ok));
            apart = λ ok. absurd (ground (arith, ok));
          },
          g,
        ),
      )
      next rest (some s, (m₁, w₁)) run ((first, u), _) g =
          let (w₂, cleared, g₂) = write_good s empty w₁ g (omega (arith, first.fits)) in
          let (q, later, (a, g₃)) =
            rest (set ptrs i s) (i + 1) m₁ w₂ u.valid (omega (arith, u.size)) g₂
              (omega (arith, length-set ptrs i s)) in
          (
            q,
            rw (run, ◌>>=◌, cleared) later,
            (
              cons-Allocated m m₁ q.2.0 ptrs q.1 i k s q.0 (omega arith) (omega (arith, first.fits))
                  (first.run s (omega arith) (omega arith)) u a,
              g₃,
            ),
          )
