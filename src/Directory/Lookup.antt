-- ===== src/Directory/Lookup.antt =====
-- `lookup` finds the first slot in use that has the name.
use Prim.Native.Nat.{min}
use cs162_group.Prelude.{
  ℕ, zero, suc, ◌+◌, ◌*◌, ◌-◌, ◌/◌, ◌≤◌, ◌<◌, ◌≡◌, refl, ap, ◌∙◌, true, Option, none, some, List,
  ◌∷◌, ◌++◌, ◌>>=◌, ◌==◌, arith, Bool-cases, inl, inr, length, Returns, ltb,
}
use mathlib.Core.Path.{subst}
use cs162_group.Block.{Data}
use cs162_group.Store.{Store}
use cs162_group.Inode.{InodeDisk}
use cs162_group.Inode.Content.{bytes_from, HasBlocks, inode_read_at-bytes_from}
use cs162_group.File.Laws.{length-bytes_from}
use cs162_group.Open.{OpenInode, OpenInodes, node_at}
use cs162_group.Strings.Compare.{AllBytes}
use cs162_group.Directory.{
  Dir, DirEntry, to_entry, entry_size, is_match, rounds, lookup_loop, lookup,
}
use cs162_group.Directory.Names.{IsNamed, IsEnded, is_match-IsNamed}

-- The entry in a slot of a file.
abbrev pub slot_at : InodeDisk → (ℕ → Data) → ℕ → DirEntry
slot_at d f i = to_entry (bytes_from d f (i * entry_size) entry_size)

-- The slots that the file holds whole.
abbrev pub slots : InodeDisk → ℕ
slots d = d.length' / entry_size

-- Slot `i` is in use and has the name.
abbrev pub Has : InodeDisk → (ℕ → Data) → List ℕ → ℕ → Type 0
Has d f a i = ((slot_at d f i).in_use ≡ true) × IsNamed a (slot_at d f i)

-- The first slot from `i` on that is in use and has the name, or none.
abbrev pub FirstFrom : InodeDisk → (ℕ → Data) → List ℕ → ℕ → Option (DirEntry × ℕ) → Type 0
FirstFrom d f a i none = (j : ℕ) → i ≤ j → j < slots d → ¬ Has d f a j
FirstFrom d f a i (some (e, ofs)) =
    (k : ℕ) × (i ≤ k)
    × (k < slots d)
    × (ofs ≡ k * entry_size)
    × (e ≡ slot_at d f k)
    × Has d f a k
    × ((j : ℕ) → i ≤ j → j < k → ¬ Has d f a j)

slot_whole : (l i : ℕ) → min entry_size (l - i * entry_size) ≡ entry_size → i < l / entry_size
slot_whole l i e = omega (arith, e)

pub slot_inside : (l i : ℕ) → i < l / entry_size → min entry_size (l - i * entry_size) ≡ entry_size
slot_inside l i h = omega (arith, h)

module _ (store : Store) (d : InodeDisk) (f : ℕ → Data) (n : ℕ) (blocks : HasBlocks d f n)
    (a rest : List ℕ) (bytes : AllBytes a)
    (ended : (i : ℕ) → i < slots d → IsEnded (slot_at d f i)) where
  open store use {State, Holds}

  FirstFrom-skip :
      (i : ℕ) (r : Option (DirEntry × ℕ))
      → ¬ Has d f a i
      → FirstFrom d f a (suc i) r
      → FirstFrom d f a i r
  FirstFrom-skip i none lacks later = λ j h h' has. elim (Bool-cases (i == j)) [
    | inl e ↦ lacks (subst (Has d f a) (ground arith) has)
    | inr ne ↦ later j (ground (arith, h, ne)) h' has
  ]
  FirstFrom-skip i (some (e, ofs)) lacks (k, h, h', at, is, has, before) = (
    k,
    omega (arith, h),
    h',
    at,
    is,
    has,
    λ j g g' has'. elim (Bool-cases (i == j)) [
      | inl e ↦ lacks (subst (Has d f a) (ground arith) has')
      | inr ne ↦ before j (ground (arith, g, ne)) g' has'
    ],
  )

  loop-FirstFrom :
      (fuel i : ℕ) (w : State)
      → slots d < fuel + i
      → i ≤ slots d
      → Holds w f n
      → Returns
          (lookup_loop store fuel d (a ++ 0 ∷ rest) (i * entry_size) w)
          λ r. FirstFrom d f a i r.0 × Holds r.1 f n
  unfolding lookup_loop
  loop-FirstFrom zero i w enough le h = absurd (omega (arith, enough, le))
  loop-FirstFrom (suc fuel) i w enough le h =
      let ((got, w'), run, (e, h')) =
        inode_read_at-bytes_from store d f n blocks entry_size (i * entry_size) w h in
      let len : length got ≡ min entry_size (d.length' - i * entry_size) =
        ap length e
        ∙ length-bytes_from d f (i * entry_size) (min entry_size (d.length' - i * entry_size)) in
      elim (Bool-cases (length got == entry_size)) [
        | inl full ↦
            let size : min entry_size (d.length' - i * entry_size) ≡ entry_size =
              ground (arith, full, len) in
            let lt : i < slots d = slot_whole d.length' i size in
            let whole : got ≡ bytes_from d f (i * entry_size) entry_size =
              e ∙ ap (bytes_from d f (i * entry_size)) size in
            let (found, is, hit, miss) =
              is_match-IsNamed a rest (slot_at d f i) bytes (ended i lt) in
            let is' : is_match (a ++ 0 ∷ rest) (to_entry got) ≡ some found =
              ap (λ b. is_match (a ++ 0 ∷ rest) (to_entry b)) whole ∙ is in
            elim (Bool-cases found) [
              | inl t ↦ (
                (some (to_entry got, i * entry_size), w'),
                rw (run, ◌>>=◌, full, is', t) refl,
                (
                  (
                    i,
                    omega arith,
                    lt,
                    refl,
                    ap to_entry whole,
                    hit t,
                    (λ j g g'. absurd (omega arith)),
                  ),
                  h',
                ),
              )
              | inr t ↦
                  let skip : ¬ Has d f a i = λ (used, named). miss t used named in
                  let (r, run', (first, h'')) =
                    loop-FirstFrom fuel (suc i) w' (omega (arith, enough)) (omega (arith, lt)) h' in
                  let next : i * entry_size + entry_size ≡ suc i * entry_size = omega arith in
                  (
                    r,
                    rw (run, ◌>>=◌, full, is', t, next) run',
                    (FirstFrom-skip i r.0 skip first, h''),
                  )
            ]
        | inr short ↦
            let past : slots d ≤ i = elim (Bool-cases (ltb i (slots d))) [
              | inl lt ↦
                  let size = slot_inside d.length' i (ground arith) in
                  absurd (ground (arith, short, len, size))
              | inr ge ↦ ground arith
            ] in
            (
              (none, w'),
              rw (run, ◌>>=◌, short) refl,
              ((λ j g g' has. absurd (omega (arith, past, g, g'))), h'),
            )
      ]

  -- In a directory whose blocks are on the device, and whose names in use are ended by a 0, `lookup` of a
  -- name does not panic, ends within its rounds and gives the entry and the offset of the first slot
  -- in use that has the name, or nothing if there is none; the sectors stay.
  pub lookup-FirstFrom :
      (dir : Dir) (p : OpenInode) (t : OpenInodes) (w : State)
      → node_at dir.inode t.nodes ≡ some p
      → p.data' ≡ d
      → Holds w f n
      → Returns (lookup store dir (a ++ 0 ∷ rest) t w) λ r. FirstFrom d f a 0 r.0 × Holds r.1 f n
  unfolding lookup
  lookup-FirstFrom dir p t w at is h =
      let (r, run, q) = loop-FirstFrom (rounds d) 0 w (omega arith) (omega arith) h in
      (r, rw (at, ◌>>=◌, is) run, q)
