-- ===== src/Directory/Add.antt =====
-- The slot that `dir_add` writes.
use cs162_group.Prelude.{
  ℕ, zero, suc, ◌+◌, ◌*◌, ◌-◌, ◌^◌, ◌≤◌, ◌<◌, ◌≡◌, ◌≢◌, refl, sym, ap, ◌∙◌, Bool, true, false,
  Option, none, some, List, [], ◌∷◌, ◌++◌, ◌>>=◌, ◌==◌, ◌&&◌, arith, Bool-cases, inl, inr, length,
  Returns, ltb, leb, take, drop, get_or,
}
use mathlib.Core.Path.{ap₂, subst}
use mathlib.Core.List.{append-nil}
use cs162_group.Store.Pieces.{take-append}
use cs162_group.Block.{Data}
use cs162_group.Bitmap.{Bitmap}
use cs162_group.Bitmap.Range.{within}
use cs162_group.Store.{Store}
use cs162_group.Inode.{InodeDisk, no_sector}
use cs162_group.Inode.Content.{byte_at, bytes_from, HasBlocks, inode_read_at-bytes_from}
use cs162_group.Inode.Patch.{IsApart, Patched, blocks_kept}
use cs162_group.Open.{OpenInode, OpenInodes, node_at}
use cs162_group.Open.Invariant.{put_node_same}
use cs162_group.Open.Write.{inode_write_at}
use cs162_group.Open.Inside.{bytes_from-take, inode_write_at-Patched}
use cs162_group.Strings.Compare.{AllBytes}
use cs162_group.Directory.{
  Dir, DirEntry, to_entry, of_entry, entry_size, copy_name, rounds, free_slot, add_entry,
}
use cs162_group.Directory.Names.{IsNamed, IsEnded}
use cs162_group.Directory.Lookup.{slot_at, slots, Has, FirstFrom, slot_inside}
use cs162_group.Directory.Slots.{copy_name-starts, to_entry-of_entry}

-- The first free slot.
pub record IsFree (d : InodeDisk) (f : ℕ → Data) (k : ℕ) : Type 0 where
  pub inside : k < slots d
  pub free : (slot_at d f k).in_use ≡ false
  pub before : (j : ℕ) → j < k → (slot_at d f j).in_use ≡ true

and_false : (b : Bool) → (b && false) ≡ false
and_false true = refl
and_false false = refl

-- The bytes of one slot are not in another.
apart_slots :
    (k j b : ℕ)
    → j ≢ k
    → b < entry_size
    → within (k * entry_size) entry_size (j * entry_size + b) ≡ false
apart_slots k j b ne h = elim (Bool-cases (ltb j k)) [
  | inl lt ↦ ground (arith, lt, h)
  | inr ge ↦
      let more : k < j = ground (arith, ge, ne) in
      let past : ltb (j * entry_size + b) (k * entry_size + entry_size) ≡ false =
        ground (arith, more) in
      rw past (and_false (leb (k * entry_size) (j * entry_size + b)))
]

bytes_from-ext :
    (d : InodeDisk) (f g : ℕ → Data) (i n : ℕ)
    → ((j : ℕ) → j < n → byte_at d g (i + j) ≡ byte_at d f (i + j))
    → bytes_from d g i n ≡ bytes_from d f i n
bytes_from-ext d f g i zero e = refl
bytes_from-ext d f g i (suc n) e =
    let first : byte_at d g i ≡ byte_at d f i =
      ap (byte_at d g) (omega arith) ∙ e 0 (omega arith) ∙ ap (byte_at d f) (omega arith) in
    ap₂ ◌∷◌ first (
      bytes_from-ext d f g (i + 1) n (λ j lt.
        ap (byte_at d g) (omega arith) ∙ e (suc j) (omega arith) ∙ ap (byte_at d f) (omega arith)))

module _ (d : InodeDisk) (f g : ℕ → Data) (k : ℕ) (slot : List ℕ) (inside : k < slots d)
    (len : length slot ≡ entry_size) (p : Patched d f (k * entry_size) entry_size slot g) where
  slot_new : slot_at d g k ≡ to_entry slot
  slot_new =
      let bytes = bytes_from-take d g entry_size (k * entry_size) slot (omega (arith, len)) (λ j lt.
        let i : get_or slot (k * entry_size + j - k * entry_size) 0 ≡ get_or slot j 0 =
          ap (λ z. get_or slot z 0) (omega arith) in
        ground (arith, p.bytes (k * entry_size + j) (omega (arith, inside, lt)), i, lt)) in
      ap to_entry
        (bytes ∙ ap (take entry_size) (sym (append-nil slot)) ∙ take-append slot [] entry_size len)

  slot_kept : (j : ℕ) → j < slots d → j ≢ k → slot_at d g j ≡ slot_at d f j
  slot_kept j lt ne = ap to_entry (
      bytes_from-ext d f g (j * entry_size) entry_size (λ b h.
        let out : within (k * entry_size) entry_size (j * entry_size + b) ≡ false =
          apart_slots k j b ne h in
        p.bytes (j * entry_size + b) (omega (arith, lt, h)) ∙ rw out refl))

module _ (store : Store) (d : InodeDisk) (f : ℕ → Data) (n : ℕ) (blocks : HasBlocks d f n) (k : ℕ)
    (free : IsFree d f k) where
  open store use {State, Holds}

  -- The loop ends at the first free slot, with its bytes in `e`.
  pub free_slot-IsFree :
      (fuel i : ℕ) (e : List ℕ) (w : State)
      → i ≤ k
      → k < fuel + i
      → Holds w f n
      → Returns
          (free_slot store fuel d e (i * entry_size) w)
          λ r. (r.0.0 ≡ k * entry_size) × (length (to_entry r.0.1).name ≡ 15) × Holds r.1 f n
  unfolding free_slot
  free_slot-IsFree zero i e w le enough h = absurd (omega (arith, le, enough))
  free_slot-IsFree (suc fuel) i e w le enough h =
      let size = slot_inside d.length' i (omega (arith, le, free.inside)) in
      let ((got, w'), run, (bytes, h')) =
        inode_read_at-bytes_from store d f n blocks entry_size (i * entry_size) w h in
      let whole : got ≡ bytes_from d f (i * entry_size) entry_size =
        bytes ∙ ap (bytes_from d f (i * entry_size)) size in
      let full : (length got == entry_size) ≡ true = ap (λ b. length b == entry_size) whole in
      elim (Bool-cases (i == k)) [
        | inl last ↦
            let ik : i ≡ k = ground arith in
            let unused : (to_entry got).in_use ≡ false =
              ap (λ b. (to_entry b).in_use) whole
              ∙ ap (λ j. (slot_at d f j).in_use) ik
              ∙ free.free in
            (
              ((i * entry_size, got ++ drop (length got) e), w'),
              rw (run, ◌>>=◌, full, unused) refl,
              (
                ap (λ j. j * entry_size) ik,
                ap (λ b. length (to_entry (b ++ drop (length b) e)).name) whole,
                h',
              ),
            )
        | inr more ↦
            let used : (to_entry got).in_use ≡ true =
              ap (λ b. (to_entry b).in_use) whole ∙ free.before i (ground (arith, le, more)) in
            let (r, run', q) =
              free_slot-IsFree fuel (suc i) (got ++ drop (length got) e) w'
                (ground (arith, le, more)) (omega (arith, enough)) h' in
            let next : i * entry_size + entry_size ≡ suc i * entry_size = omega arith in
            (r, rw (run, ◌>>=◌, full, used, next) run', q)
      ]

-- Slot `k`, and no other, has the name, with the sector.
pub record Added (d : InodeDisk) (g : ℕ → Data) (n k sector : ℕ) (a : List ℕ) : Type 0 where
  pub blocks : HasBlocks d g n
  pub ended : (i : ℕ) → i < slots d → IsEnded (slot_at d g i)
  pub inside : k < slots d
  pub has : Has d g a k
  pub numbered : (slot_at d g k).inode_sector ≡ sector
  pub others : (j : ℕ) → j < slots d → j ≢ k → ¬ Has d g a j

-- The only slot that has the name is the one that is found.
pub found_at :
    (d : InodeDisk) (g : ℕ → Data) (a : List ℕ) (k : ℕ) (r : Option (DirEntry × ℕ))
    → k < slots d
    → Has d g a k
    → ((j : ℕ) → j < slots d → j ≢ k → ¬ Has d g a j)
    → FirstFrom d g a 0 r
    → r ≡ some (slot_at d g k, k * entry_size)
found_at d g a k none lt has others first = absurd (first k (omega arith) lt has)
found_at d g a k (some (e, ofs)) lt has others (i, _, lt', at, is, has', _) =
    elim (Bool-cases (i == k)) [
      | inl same ↦
          let ik : i ≡ k = ground arith in
          ap some
            (ap₂ (λ x y. (x, y)) (is ∙ ap (slot_at d g) ik) (at ∙ ap (λ j. j * entry_size) ik))
      | inr other ↦ absurd (others i lt' (λ q. ground (arith, other, q)) has')
    ]

module _ (d : InodeDisk) (f g : ℕ → Data) (a : List ℕ) (k : ℕ) (added : DirEntry)
    (is : slot_at d g k ≡ added)
    (kept : (j : ℕ) → j < slots d → j ≢ k → slot_at d g j ≡ slot_at d f j)
    (named : IsNamed a added) where
  IsEnded-kept :
      AllBytes a
      → ((i : ℕ) → i < slots d → IsEnded (slot_at d f i))
      → (i : ℕ) → i < slots d
      → IsEnded (slot_at d g i)
  IsEnded-kept bytes ended i lt = elim (Bool-cases (i == k)) [
    | inl same ↦
        let e : slot_at d g i ≡ added = ap (slot_at d g) (ground arith) ∙ is in
        subst IsEnded (sym e) (λ used. (a, bytes, named))
    | inr other ↦ subst IsEnded (sym (kept i lt (λ q. ground (arith, other, q)))) (ended i lt)
  ]

  FirstFrom-kept : FirstFrom d f a 0 none → (j : ℕ) → j < slots d → j ≢ k → ¬ Has d g a j
  FirstFrom-kept new j lt ne (used, name) =
      new j (omega arith) lt
        (subst (λ x. (x.in_use ≡ true) × IsNamed a x) (kept j lt ne) (used, name))

module _ (store : Store) (has_file : Bool)
    (write_map : Bitmap → store.State → Option (Bool × store.State)) where
  open store use {State, Holds}

  add_entry_run :
      (dir : Dir) (node : OpenInode) (name name' e e' : List ℕ) (sector ofs written : ℕ)
      (t t' : OpenInodes) (m : Bitmap) (w w₁ : State) (w₂ : Bitmap × State)
      → node_at dir.inode t.nodes ≡ some node
      → free_slot store (rounds node.data') node.data' e 0 w ≡ some ((ofs, e'), w₁)
      → copy_name (to_entry e').name name ≡ some name'
      → inode_write_at store has_file write_map dir.inode
          (of_entry (record { inode_sector = sector; name = name'; in_use = true }))
          entry_size
          ofs
          t
          (m, w₁)
        ≡ some (written, t', w₂)
      → add_entry store has_file write_map dir name sector e t (m, w)
        ≡ some (written == entry_size, t', w₂)
  unfolding add_entry
  add_entry_run dir node name name' e e' sector ofs written t t' m w w₁ w₂ at e₁ e₂ e₃ =
      rw (at, ◌>>=◌, e₁, e₂, e₃) refl

  -- The slot is written, and is then the only one that has the name.
  pub add_entry-Added :
      (dir : Dir) (node : OpenInode) (f : ℕ → Data) (n k sector : ℕ) (a rest e : List ℕ)
      (t : OpenInodes) (m : Bitmap) (w : State)
      → node_at dir.inode t.nodes ≡ some node
      → node.deny_write_cnt ≡ 0
      → Holds w f n
      → HasBlocks node.data' f n
      → IsApart node.data' f
      → n ≤ no_sector
      → AllBytes a
      → length a ≤ 14
      → sector < 2 ^ 32
      → ((i : ℕ) → i < slots node.data' → IsEnded (slot_at node.data' f i))
      → FirstFrom node.data' f a 0 none
      → IsFree node.data' f k
      → Returns (add_entry store has_file write_map dir (a ++ 0 ∷ rest) sector e t (m, w)) λ r.
        (r.0 ≡ true)
        × (r.1 ≡ t)
        × ((g : ℕ → Data) × Holds r.2.1 g n × Added node.data' g n k sector a)
  add_entry-Added dir node f n k sector a rest e t m w at deny h blocks apart small bytes fits
        small' ended new free =
      let d = node.data' in
      let (((ofs, e'), w₁), run₁, (at_k, len, h₁)) =
        free_slot-IsFree store d f n blocks k free (rounds d) 0 e w (omega arith)
          (omega (arith, free.inside)) h in
      let (name, run₂, (len', named)) =
        copy_name-starts (to_entry e').name a rest bytes (omega (arith, len, fits)) in
      let added : DirEntry = record { inode_sector = sector; name = name; in_use = true } in
      let (sized, fields) = to_entry-of_entry added small' (len' ∙ len) in
      let ((done, t', (m', w₂)), run₃, (all, nodes, _, (g, h₂, patched), _)) =
        inode_write_at-Patched store has_file write_map node f n dir.inode entry_size
          (k * entry_size) (of_entry added) t m w₁ at deny h₁ blocks apart small (omega arith)
          (omega (arith, free.inside)) (omega (arith, sized)) in
      let slot = of_entry added in
      let is = slot_new d f g k slot free.inside sized patched ∙ fields in
      let kept = slot_kept d f g k slot free.inside sized patched in
      let run₃' =
        subst
          (λ o.
            inode_write_at store has_file write_map dir.inode slot entry_size o t (m, w₁)
            ≡ some (done, t', (m', w₂)))
          (sym at_k) run₃ in
      (
        (done == entry_size, t', (m', w₂)),
        add_entry_run dir node (a ++ 0 ∷ rest) name e e' sector ofs done t t' m w w₁ (m', w₂) at
            run₁ run₂ run₃',
        (
          ap (λ x. x == entry_size) all,
          nodes ∙ ap (λ xs. record t { nodes = xs }) (put_node_same t.nodes dir.inode node at),
          (
            g,
            h₂,
            record {
              blocks = blocks_kept d f g n (k * entry_size) entry_size slot patched blocks;
              ended = IsEnded-kept d f g a k added is kept named bytes ended;
              inside = free.inside;
              has = subst (λ x. (x.in_use ≡ true) × IsNamed a x) (sym is) (refl, named);
              numbered = ap (λ x. x.inode_sector) is;
              others = FirstFrom-kept d f g a k added is kept named new;
            },
          ),
        ),
      )
