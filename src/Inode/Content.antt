-- ===== src/Inode/Content.antt =====
-- `inode_read_at` hands out the file's bytes from the offset on, up to the end of the file.
use Prim.Native.Nat.{min}
use cs162_group.Prelude.{
  ℕ, zero, suc, ◌+◌, ◌*◌, ◌-◌, ◌/◌, ◌%◌, ◌≤◌, ◌<◌, ◌≡◌, refl, sym, ap, ◌∙◌, List, [], ◌∷◌, ◌++◌,
  ◌>>=◌, arith, ◌==◌, if◌then◌else◌, get_or, length, take, drop, Returns, Bool-cases, inl, inr,
}
use mathlib.Core.List.{append-nil, append_assoc}
use mathlib.Core.Path.{ap₂}
use cs162_group.Block.{Data}
use cs162_group.Store.{Store}
use cs162_group.Inode.{InodeDisk, sector_size, doubly_indirect_limit}
use cs162_group.Inode.Table.{table, IsMapped, located, byte_to_sector-table}
use cs162_group.Inode.Read.{chunk_size, is_full, read_loop, inode_read_at}

-- Byte `i` of the file.
unfoldable pub byte_at : InodeDisk → (ℕ → Data) → ℕ → ℕ
byte_at d f i = get_or (f (table d f (i / sector_size))) (i % sector_size) 0

-- The `n` bytes of the file from `i` on.
abbrev pub bytes_from : InodeDisk → (ℕ → Data) → ℕ → ℕ → List ℕ
bytes_from d f i zero = []
bytes_from d f i (suc n) = byte_at d f i ∷ bytes_from d f (i + 1) n

-- The blocks that hold the file's bytes are on the device and in reach of the pointers.
pub record HasBlocks (d : InodeDisk) (f : ℕ → Data) (n : ℕ) : Type 0 where
  pub mapped : IsMapped d f n
  pub blocks : (i : ℕ) → i * sector_size < d.length' → table d f i < n
  pub reach : d.length' ≤ doubly_indirect_limit * sector_size

pub bytes_from-append :
    (d : InodeDisk) (f : ℕ → Data) (i a b c : ℕ)
    → c ≡ a + b
    → bytes_from d f i a ++ bytes_from d f (i + a) b ≡ bytes_from d f i c
bytes_from-append d f i zero b c e = ap₂ (bytes_from d f) (omega arith) (omega arith)
bytes_from-append d f i (suc a) b c e =
    let e' : c ≡ suc (a + b) = omega arith in
    let shift : i + suc a ≡ i + 1 + a = omega arith in
    rw (e', shift) (ap (λ l. byte_at d f i ∷ l) (bytes_from-append d f (i + 1) a b (a + b) refl))

drop-cons : (xs : List ℕ) (i : ℕ) → i < length xs → drop i xs ≡ get_or xs i 0 ∷ drop (suc i) xs
drop-cons [] i h = absurd (omega arith)
drop-cons (x ∷ xs) zero h = refl
drop-cons (x ∷ xs) (suc i) h = drop-cons xs i (omega arith)

-- A slice of a sector is a run of the file's bytes.
pub slice-bytes_from :
    (d : InodeDisk) (f : ℕ → Data) (b o c i : ℕ)
    → length (f (table d f b)) ≡ sector_size
    → o + c ≤ sector_size
    → i ≡ b * sector_size + o
    → take c (drop o (f (table d f b))) ≡ bytes_from d f i c
unfolding byte_at
slice-bytes_from d f b o zero i len h e = refl
slice-bytes_from d f b o (suc c) i len h e =
    let block : i / sector_size ≡ b = omega arith in
    let ofs : i % sector_size ≡ o = omega arith in
    rw (drop-cons (f (table d f b)) o (omega arith)) (
      ap₂ ◌∷◌ (rw (block, ofs) refl)
        (slice-bytes_from d f b (suc o) c (i + 1) len (omega arith) (omega arith)))

take-length : (xs : List ℕ) (n : ℕ) → n ≡ length xs → take n xs ≡ xs
take-length [] zero e = refl
take-length [] (suc n) e = refl
take-length (x ∷ xs) zero e = absurd (omega arith)
take-length (x ∷ xs) (suc n) e = ap (λ l. x ∷ l) (take-length xs n (omega arith))

module _ (store : Store) (d : InodeDisk) (f : ℕ → Data) (n : ℕ) (m : HasBlocks d f n) where
  open store use {State, read, Holds, read_lem}

  -- Inside the file the position's sector is the table's.
  pub located_inside :
      (p : ℕ) → p < d.length' → located store d f n m.mapped p ≡ table d f (p / sector_size)
  located_inside p lt = ground (arith, m.reach)

  pub block_inside : (p : ℕ) → p < d.length' → table d f (p / sector_size) < n
  block_inside p lt = m.blocks (p / sector_size) (omega arith)

  -- One round's bytes, by whichever branch.
  chunk-bytes_from :
      (size offset : ℕ)
      → offset < d.length'
      → let c = chunk_size d size offset in
        let s = f (table d f (offset / sector_size)) in
        (if is_full (offset % sector_size) c then s else take c (drop (offset % sector_size) s))
        ≡ bytes_from d f offset c
  chunk-bytes_from size offset lt =
      let c = chunk_size d size offset in
      let b = offset / sector_size in
      let o = offset % sector_size in
      let s = f (table d f b) in
      let len = m.mapped.sized (table d f b) in
      let slice = slice-bytes_from d f b o c offset len (omega arith) (omega arith) in
      elim (Bool-cases (is_full o c)) [
        | inl full ↦
            let o' : o ≡ 0 = ground arith in
            let c' : c ≡ length s = ground (arith, len) in
            rw full (sym (take-length s c c') ∙ ap (λ k. take c (drop k s)) (sym o') ∙ slice)
        | inr part ↦ rw part slice
      ]

  read_loop-bytes_from :
      (fuel size offset : ℕ) (out : List ℕ) (w : State)
      → Holds w f n
      → size < fuel
      → Returns
          (read_loop store fuel d size offset out w)
          λ r. (r.0 ≡ out ++ bytes_from d f offset (min size (d.length' - offset))) × Holds r.1 f n
  unfolding read_loop
  read_loop-bytes_from zero size offset out w h lt = absurd (omega arith)
  read_loop-bytes_from (suc fuel) size offset out w h lt =
      let c = chunk_size d size offset in
      let (r, run, (at, h₁)) = byte_to_sector-table store d f n m.mapped w offset h in
      elim (Bool-cases (size == 0)) [
        | inl done ↦
            let none_left : min size (d.length' - offset) ≡ 0 = ground arith in
            ((out, w), rw done refl, (rw (none_left, append-nil) refl, h))
        | inr more ↦ elim (Bool-cases (c == 0)) [
          | inl end ↦
              let none_left : min size (d.length' - offset) ≡ 0 = ground arith in
              ((out, r.1), rw (more, run, ◌>>=◌, end) refl, (rw (none_left, append-nil) refl, h₁))
          | inr go ↦
              let inside : offset < d.length' = ground arith in
              let (q, got, (same, h₂)) =
                read_lem r.1 f n r.0 h₁
                  (rw (at, located_inside offset inside) (block_inside offset inside)) in
              let bytes = chunk-bytes_from size offset inside in
              let (z, later, (all, h₃)) =
                read_loop-bytes_from fuel (size - c) (offset + c) (out ++ bytes_from d f offset c)
                  q.1 h₂ (ground arith) in
              let src : q.0 ≡ f (table d f (offset / sector_size)) =
                same ∙ ap f (at ∙ located_inside offset inside) in
              let total : min size (d.length' - offset)
                  ≡ c + min (size - c) (d.length' - (offset + c)) =
                omega arith in
              (
                z,
                rw (more, run, ◌>>=◌, go, got, src, bytes) later,
                (
                  all
                      ∙ append_assoc out (bytes_from d f offset c)
                          (bytes_from d f (offset + c) (min (size - c) (d.length' - (offset + c))))
                      ∙ ap (λ l. out ++ l) (bytes_from-append d f offset c _ _ total),
                  h₃,
                ),
              )
        ]
      ]

  -- For a file whose blocks and blocks of pointers are on the device, and which ends within reach
  -- of the pointers, reading ends without a panic, hands out the bytes of the file from the
  -- offset on, as many as asked for or as the file has left, and changes no sector.
  pub inode_read_at-bytes_from :
      (size offset : ℕ) (w : State)
      → Holds w f n
      → Returns
          (inode_read_at store d size offset w)
          λ r. (r.0 ≡ bytes_from d f offset (min size (d.length' - offset))) × Holds r.1 f n
  unfolding inode_read_at
  inode_read_at-bytes_from size offset w h =
      read_loop-bytes_from (suc size) size offset [] w h (omega arith)
