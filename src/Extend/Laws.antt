-- ===== src/Extend/Laws.antt =====
-- `inode_extend` among the direct pointers.
use cs162_group.Prelude.{
  ℕ, ◌-◌, ◌≤◌, ◌<◌, ◌≡◌, refl, Bool, true, false, Option, some, List, ◌>>=◌, if◌then◌else◌, ltb,
  ◌==◌, ◌||◌, arith, Bool-cases, Returns, inl, inr, length,
}
use cs162_group.Bitmap.{Bitmap}
use cs162_group.Bitmap.Bit.{IsValid}
use cs162_group.Store.{Store}
use cs162_group.Volume.{Volume, of_free_map}
use cs162_group.Inode.{InodeDisk, direct_ptrs, direct_limit}
use cs162_group.Extend.{bytes_to_sectors, alloc_ptrs}
use cs162_group.Extend.Alloc.{Sound, Allocated, alloc_ptrs-Allocated}
use cs162_group.Extend.Grow.{
  max_inode_size, level_stop, level_count, extend_direct, extend_indirect, extend_doubly,
  extend_levels, inode_extend,
}

-- What the extension of `d` to `len` bytes within the direct pointers leaves.
pub record Grown (d : InodeDisk) (len : ℕ) (m : Bitmap) (ok : Bool) (d' : InodeDisk) (m' : Bitmap)
    : Type 0 where
  pub pointers :
      Allocated m d.direct
        (bytes_to_sectors d.length')
        (bytes_to_sectors len - bytes_to_sectors d.length')
        ok
        d'.direct
        m'
  pub done : ok ≡ true → d'.length' ≡ len
  pub failed : ok ≡ false → d'.length' ≡ d.length'
  pub others :
      (d'.indirect_ptr ≡ d.indirect_ptr)
      × (d'.doubly_indirect_ptr ≡ d.doubly_indirect_ptr)
      × (d'.directory ≡ d.directory)
      × (d'.parent_node ≡ d.parent_node)

module _ (store : Store) (has_file : Bool)
    (write_map : Bitmap → store.State → Option (Bool × store.State)) (n : ℕ)
    (sound : Sound store write_map n) where
  abbrev volume : Volume
  volume = of_free_map store has_file write_map

  -- The other two levels do nothing within the direct pointers.
  skip_indirect :
      (d : InodeDisk) (c new : ℕ) (w : volume.State)
      → new ≤ direct_limit
      → extend_indirect volume d c new w ≡ some (true, d, c, w)
  unfolding extend_indirect
  skip_indirect d c new w direct = ground arith

  skip_doubly :
      (d : InodeDisk) (c new : ℕ) (w : volume.State)
      → new ≤ direct_limit
      → extend_doubly volume d c new w ≡ some (true, w)
  unfolding extend_doubly
  skip_doubly d c new w direct = ground arith

  -- What is left of the code within the direct pointers.
  only_direct :
      (d : InodeDisk) (curr new : ℕ) (w w' : volume.State) (ok : Bool) (ptrs : List ℕ)
      → curr < new
      → new ≤ direct_limit
      → alloc_ptrs volume (new - curr) d.direct curr w ≡ some (ok, ptrs, w')
      → extend_direct volume d curr new w
        ≡ some (ok, record d { direct = ptrs }, level_count curr new direct_limit, w')
  unfolding extend_direct
  only_direct d curr new w w' ok ptrs grow direct run =
      let go : ltb curr direct_limit ≡ true = ground arith in
      let stop : level_stop new direct_limit ≡ new = ground arith in rw (go, stop, run, ◌>>=◌) refl

  within_direct :
      (d : InodeDisk) (len : ℕ) (w w' : volume.State) (ok : Bool) (ptrs : List ℕ)
      → bytes_to_sectors d.length' < bytes_to_sectors len
      → bytes_to_sectors len ≤ direct_limit
      → alloc_ptrs volume
          (bytes_to_sectors len - bytes_to_sectors d.length')
          d.direct
          (bytes_to_sectors d.length')
          w
        ≡ some (ok, ptrs, w')
      → inode_extend volume d len w
        ≡ some (
          ok,
          (if ok then record d { direct = ptrs; length' = len } else record d { direct = ptrs }),
          w',
        )
  unfolding inode_extend extend_levels
  within_direct d len w w' ok ptrs grow direct run =
      let curr = bytes_to_sectors d.length' in
      let new = bytes_to_sectors len in
      let c = level_count curr new direct_limit in
      let d₁ : InodeDisk = record d { direct = ptrs } in
      let lt : ltb new curr ≡ false = ground arith in
      let ne : (new == curr) ≡ false = ground arith in
      let fits : (ltb max_inode_size len || ltb len d.length') ≡ false = ground arith in
      let first = only_direct d curr new w w' ok ptrs grow direct run in
      let second = skip_indirect d₁ c new w' direct in
      let third = skip_doubly d₁ c new w' direct in
      elim (Bool-cases ok) [
        | inl e ↦ rw (lt, ne, fits, first, e, ◌>>=◌, second, third) refl
        | inr e ↦ rw (lt, ne, fits, first, e, ◌>>=◌) refl
      ]

  -- On a valid map of sectors that can be written, growing a file by at least one block, all
  -- within the direct pointers, does not panic. On success each new block gets a sector of its
  -- own that was free and is taken now, and the length is the one asked for; on failure the
  -- length stays. No other pointer changes, and no sector is given up.
  pub inode_extend-Grown :
      (d : InodeDisk) (len : ℕ) (m : Bitmap) (w : store.State)
      → IsValid m
      → m.bit_cnt ≤ n
      → sound.Good w
      → length d.direct ≡ direct_ptrs
      → bytes_to_sectors d.length' < bytes_to_sectors len
      → bytes_to_sectors len ≤ direct_limit
      → Returns
          (inode_extend volume d len (m, w))
          λ r. Grown d len m r.0 r.1 r.2.0 × sound.Good r.2.1
  inode_extend-Grown d len m w v small good full grow direct =
      let curr = bytes_to_sectors d.length' in
      let new = bytes_to_sectors len in
      let (r, run, (a, g)) =
        alloc_ptrs-Allocated store has_file write_map n sound (new - curr) d.direct curr m w v small
          good (omega arith) in
      finish r run a g
    where
      finish :
          (r : Bool × List ℕ × (Bitmap × store.State))
          → alloc_ptrs volume
              (bytes_to_sectors len - bytes_to_sectors d.length')
              d.direct
              (bytes_to_sectors d.length')
              (m, w)
            ≡ some r
          → Allocated m d.direct
              (bytes_to_sectors d.length')
              (bytes_to_sectors len - bytes_to_sectors d.length')
              r.0
              r.1
              r.2.0
          → sound.Good r.2.1
          → Returns
              (inode_extend volume d len (m, w))
              λ r. Grown d len m r.0 r.1 r.2.0 × sound.Good r.2.1
      finish (true, ptrs, w') run a g = (
        (true, record d { direct = ptrs; length' = len }, w'),
        within_direct d len (m, w) w' true ptrs grow direct run,
        (
          record {
            pointers = a;
            done = λ _. refl;
            failed = λ e. absurd (ground (arith, e));
            others = (refl, refl, refl, refl);
          },
          g,
        ),
      )
      finish (false, ptrs, w') run a g = (
        (false, record d { direct = ptrs }, w'),
        within_direct d len (m, w) w' false ptrs grow direct run,
        (
          record {
            pointers = a;
            done = λ e. absurd (ground (arith, e));
            failed = λ _. refl;
            others = (refl, refl, refl, refl);
          },
          g,
        ),
      )
