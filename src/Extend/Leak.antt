-- ===== src/Extend/Leak.antt =====
-- What `inode_dealloc` does over the free map: each pointer is 0 by the time its sector is given back.
use cs162_group.Prelude.{
  ℕ, suc, ◌^◌, ◌<◌, ◌≡◌, ◌≢◌, ◌⊎◌, refl, Bool, true, false, Option, none, some, List, ◌>>=◌, ◌==◌,
  if◌then◌else◌, set, get_elem?, length, Returns, Bool-cases, inl, inr, arith, length-set,
  get_elem?-set_self,
}
use cs162_group.Bitmap.{Bitmap}
use cs162_group.Bitmap.Bit.{bit_at, IsValid, Wrote}
use cs162_group.Bitmap.Range.{within}
use cs162_group.Store.{Store}
use cs162_group.Volume.{Volume, of_free_map}
use cs162_group.FreeMap.Laws.{Writes, free_map_release-Wrote}
use cs162_group.Inode.{InodeDisk, direct_ptrs}
use cs162_group.Extend.{bytes_to_sectors}
use cs162_group.Extend.Free.{count_down, free_ptrs, inode_dealloc}

module _ (store : Store) (has_file : Bool)
    (write_map : Bitmap → store.State → Option (Bool × store.State)) (Good : store.State → Type 0)
    (total : Writes has_file write_map Good) where
  abbrev volume : Volume
  volume = of_free_map store has_file write_map

  -- Giving back sector 0 panics or leaves it free.
  release_zero :
      (m : Bitmap) (w : store.State)
      → IsValid m
      → Good w
      → 0 < m.bit_cnt
      → (volume.release 0 (m, w) ≡ none)
        ⊎ Returns
            (volume.release 0 (m, w))
            (λ r. Wrote m (λ j. if within 0 1 j then false else bit_at m j) r.0 × Good r.1)
  release_zero m w v good pos = elim (Bool-cases (bit_at m 0)) [
    | inl on ↦ inr (
        (free_map_release-Wrote has_file write_map Good total 0 1 m w v good (omega arith)).0
          (λ j lo hi. let e : j ≡ 0 = omega arith in rw e on))
    | inr off ↦ inl (
        (free_map_release-Wrote has_file write_map Good total 0 1 m w v good (omega arith)).1 0
          (omega arith) (omega arith) off)
  ]

  free_zero :
      (m : Bitmap) (w : store.State)
      → IsValid m
      → Good w
      → 0 < m.bit_cnt
      → bit_at m 0 ≡ false
      → volume.release 0 (m, w) ≡ none
  free_zero m w v good pos off =
      (free_map_release-Wrote has_file write_map Good total 0 1 m w v good (omega arith)).1 0
        (omega arith) (omega arith) off

  -- A pointer that the loop has cleared.
  cleared : (ptrs : List ℕ) (i : ℕ) → i < length ptrs → get_elem? (set ptrs i 0) i ≡ some 0
  cleared ptrs i lt = get_elem?-set_self ptrs i 0 lt

  free_twice :
      (k : ℕ) (ptrs : List ℕ) (left : ℕ) (m : Bitmap) (w : store.State)
      → IsValid m
      → Good w
      → 0 < m.bit_cnt
      → 1 < length ptrs
      → left ≢ 1
      → left < 2 ^ 32
      → free_ptrs volume (suc (suc k)) ptrs 0 left (m, w) ≡ none
  unfolding free_ptrs
  free_twice k ptrs left m w v good pos len many small = elim (release_zero m w v good pos) [
    | inl dead ↦ rw (cleared ptrs 0 (omega arith), ◌>>=◌, dead) refl
    | inr (r, run, (u, g)) ↦
        let more : (count_down left == 0) ≡ false = ground arith in
        let off : bit_at r.0 0 ≡ false = u.bits 0 in
        let again = free_zero r.0 r.1 u.valid g (omega (arith, u.size)) off in
        let next = cleared (set ptrs 0 0) 1 (omega (arith, length-set ptrs 0 0)) in
        rw (cleared ptrs 0 (omega arith), ◌>>=◌, run, more, next, again) refl
  ]

  free_once :
      (k : ℕ) (ptrs : List ℕ) (left : ℕ) (r r' : Bitmap × store.State)
      → 0 < length ptrs
      → left ≡ 1
      → volume.release 0 r ≡ some r'
      → free_ptrs volume (suc k) ptrs 0 left r ≡ some (true, count_down left, r')
  unfolding free_ptrs
  free_once k ptrs left r r' len one run =
      let done : (count_down left == 0) ≡ true = ground arith in
      rw (cleared ptrs 0 len, ◌>>=◌, run, done) refl

  -- On a valid map, where the write of the map to its file does not panic, freeing the blocks of
  -- an inode panics unless the inode has exactly one block: the pointers are cleared first, so
  -- sector 0 is given back, twice if there is more to free. With one block, and sector 0 in use,
  -- sector 0 becomes free and no other sector does.
  pub inode_dealloc-Wrote :
      (d : InodeDisk) (m : Bitmap) (w : store.State)
      → IsValid m
      → Good w
      → 0 < m.bit_cnt
      → length d.direct ≡ direct_ptrs
      → bytes_to_sectors d.length' < 2 ^ 32
      → (bytes_to_sectors d.length' ≢ 1 → inode_dealloc volume d (m, w) ≡ none)
        × (bytes_to_sectors d.length' ≡ 1
            → bit_at m 0 ≡ true
            → Returns
                (inode_dealloc volume d (m, w))
                λ r. Wrote m (λ j. if j == 0 then false else bit_at m j) r.0)
  unfolding inode_dealloc
  inode_dealloc-Wrote d m w v good pos len small = (
    (λ ne.
        rw
          (
            free_twice 120 d.direct (bytes_to_sectors d.length') m w v good pos (omega arith) ne
                small,
            ◌>>=◌,
          )
          refl),
    (λ one on.
        let ((m₁, w₁), run, (u, g)) =
          (free_map_release-Wrote has_file write_map Good total 0 1 m w v good (omega arith)).0
            (λ j lo hi. let e : j ≡ 0 = omega arith in rw e on) in
        let once =
          free_once 121 d.direct (bytes_to_sectors d.length') (m, w) (m₁, w₁) (omega arith) one
            run in
        (
          (m₁, w₁),
          rw (once, ◌>>=◌) refl,
          record { valid = u.valid; size = u.size; bits = λ j. ground (arith, u.bits j) },
        )),
  )
