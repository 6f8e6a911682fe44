-- ===== src/Inode/Table.antt =====
-- The table of sectors that an inode's pointers stand for, and that `byte_to_sector` looks it up.
use cs162_group.Prelude.{
  ℕ, ◌-◌, ◌/◌, ◌%◌, ◌<◌, ◌≡◌, refl, ap, some, List, ◌>>=◌, ltb, arith, if◌then◌else◌, get_elem?,
  get_or, length, Returns, Bool-cases, inl, inr, ltb→lt,
}
use cs162_group.Prelude.Int.{pos}
use cs162_group.Block.{Data}
use cs162_group.Bitmap.Bit.{get_of_or}
use cs162_group.Store.{Store}
use cs162_group.Store.Words.{decode, length-decode}
use cs162_group.Inode.{
  InodeDisk, sector_size, direct_ptrs, direct_limit, indirect_limit, doubly_indirect_limit,
  indirect_block_ptrs, no_sector,
}
use cs162_group.Inode.Lookup.{read_block, byte_to_sector}

-- The `i`-th word of sector `s`.
abbrev pub word_of : (ℕ → Data) → ℕ → ℕ → ℕ
word_of f s i = get_or (decode (f s)) i 0

-- The first-level sector of the doubly indirect part, for its `i`-th block.
abbrev pub inner_of : InodeDisk → (ℕ → Data) → ℕ → ℕ
inner_of d f i = word_of f d.doubly_indirect_ptr (i / indirect_block_ptrs)

-- The sector of block `i`.
unfoldable pub table : InodeDisk → (ℕ → Data) → ℕ → ℕ
table d f i =
    if ltb i direct_limit
    then get_or d.direct i 0
    else if ltb i indirect_limit
    then word_of f d.indirect_ptr (i - direct_limit)
    else word_of f (inner_of d f (i - indirect_limit)) ((i - indirect_limit) % indirect_block_ptrs)

-- The pointers that a lookup follows stay on the device, and sectors have their size.
pub record IsMapped (d : InodeDisk) (f : ℕ → Data) (n : ℕ) : Type 0 where
  pub direct : length d.direct ≡ direct_ptrs
  pub sized : (s : ℕ) → length (f s) ≡ sector_size
  pub indirect : d.indirect_ptr < n
  pub doubly : d.doubly_indirect_ptr < n
  pub inner : (i : ℕ) → inner_of d f i < n

module _ (store : Store) (d : InodeDisk) (f : ℕ → Data) (n : ℕ) (m : IsMapped d f n) where
  open store use {State, read, Holds, read_lem}

  read_block-Returns :
      (w : State) (s : ℕ)
      → Holds w f n
      → s < n
      → Returns
          (read_block store s w)
          λ r. (r.0 ≡ decode (f s)) × (length r.0 ≡ indirect_block_ptrs) × Holds r.1 f n
  unfolding read_block
  read_block-Returns w s h lt =
      let ((data', w'), run, (got, h')) = read_lem w f n s h lt in
      (
        (decode data', w'),
        rw run refl,
        (rw got refl, omega (arith, length-decode data', ap length got, m.sized s), h'),
      )

  -- An index into a block that was read.
  word_read :
      (ptrs : List ℕ) (s i : ℕ)
      → ptrs ≡ decode (f s)
      → length ptrs ≡ indirect_block_ptrs
      → i < indirect_block_ptrs
      → get_elem? ptrs i ≡ some (word_of f s i)
  word_read ptrs s i e len lt = rw (get_of_or ptrs i 0 (omega arith), e) refl

  -- What `byte_to_sector` gives at a position that is not negative.
  abbrev pub located : ℕ → ℕ
  located p =
      if ltb d.length' p
      then no_sector
      else if ltb (p / sector_size) doubly_indirect_limit
      then table d f (p / sector_size)
      else no_sector

  -- For an inode whose blocks of pointers are on the device, `byte_to_sector` at a position that
  -- is not negative does not panic and leaves the store as it reads: past the length of the file
  -- or past the reach of the pointers it gives -1, else the sector of the table.
  pub byte_to_sector-table :
      (w : State) (p : ℕ)
      → Holds w f n
      → Returns (byte_to_sector store d (pos p) w) λ r. (r.0 ≡ located p) × Holds r.1 f n
  unfolding byte_to_sector table
  byte_to_sector-table w p h =
      let i = p / sector_size in
      elim (Bool-cases (ltb d.length' p)) [
        | inl past ↦ ((no_sector, w), rw past refl, (rw past refl, h))
        | inr inside ↦ elim (Bool-cases (ltb i direct_limit)) [
          | inl low ↦
              let got =
                get_of_or d.direct i 0 (omega (arith, m.direct, ltb→lt i direct_limit low)) in
              (
                (get_or d.direct i 0, w),
                rw (inside, low, got) refl,
                (ground (arith, inside, low), h),
              )
          | inr high ↦ elim (Bool-cases (ltb i indirect_limit)) [
            | inl mid ↦
                let (r, run, (e, len, h')) = read_block-Returns w d.indirect_ptr h m.indirect in
                let got =
                  word_read r.0 d.indirect_ptr (i - direct_limit) e len
                    (omega (arith, ltb→lt i indirect_limit mid)) in
                (
                  (word_of f d.indirect_ptr (i - direct_limit), r.1),
                  rw (inside, high, mid, run, ◌>>=◌, got) refl,
                  (ground (arith, inside, high, mid), h'),
                )
            | inr top ↦ elim (Bool-cases (ltb i doubly_indirect_limit)) [
              | inl far ↦
                  let k = i - indirect_limit in
                  let (r, run, (e, len, h')) =
                    read_block-Returns w d.doubly_indirect_ptr h m.doubly in
                  let lt = ltb→lt i doubly_indirect_limit far in
                  let outer =
                    word_read r.0 d.doubly_indirect_ptr (k / indirect_block_ptrs) e len
                      (omega (arith, lt)) in
                  let (q, run', (e', len', h'')) =
                    read_block-Returns r.1 (inner_of d f k) h' (m.inner k) in
                  let got =
                    word_read q.0 (inner_of d f k) (k % indirect_block_ptrs) e' len'
                      (omega arith) in
                  (
                    (word_of f (inner_of d f k) (k % indirect_block_ptrs), q.1),
                    rw (inside, high, top, far, run, ◌>>=◌, outer, run', got) refl,
                    (ground (arith, inside, high, top, far), h''),
                  )
              | inr out ↦ (
                (no_sector, w),
                rw (inside, high, top, out) refl,
                (ground (arith, inside, out), h),
              )
            ]
          ]
        ]
      ]
