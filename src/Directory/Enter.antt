-- ===== src/Directory/Enter.antt =====
-- A name that is added to a directory is found there.
use cs162_group.Prelude.{
  ℕ, ◌+◌, ◌*◌, ◌≤◌, ◌<◌, ◌≡◌, ◌≢◌, refl, sym, ap, ◌∙◌, true, false, Option, none, some, List, [],
  ◌∷◌, ◌++◌, ◌>>=◌, ◌==◌, arith, inl, inr, length, Returns, Option-cases, ltb, Bool,
}
use mathlib.Core.Path.{subst}
use cs162_group.Block.{Data}
use cs162_group.Bitmap.{Bitmap}
use cs162_group.Store.{Store}
use cs162_group.Inode.{no_sector}
use cs162_group.Inode.Content.{HasBlocks}
use cs162_group.Inode.Patch.{IsApart}
use cs162_group.Open.{
  OpenInode, OpenInodes, node_at, put_node, open_at, update, inode_open, inode_set_parent,
}
use cs162_group.Open.Invariant.{IsOpen, node_at-put, open_at-some}
use cs162_group.Open.Laws.{fresh, open-new, open-again}
use cs162_group.Strings.Compare.{AllBytes}
use cs162_group.Strings.Search.{strlen-length}
use cs162_group.Directory.{Dir, DirEntry, entry_size, name_max, lookup, add_entry, dir_add, vol}
use cs162_group.Directory.Names.{IsEnded}
use cs162_group.Directory.Lookup.{slot_at, slots, FirstFrom, lookup-FirstFrom}
use cs162_group.Directory.Add.{IsFree, found_at, add_entry-Added}

module _ (store : Store) (has_file : Bool)
    (write_map : Bitmap → store.State → Option (Bool × store.State)) where
  open store use {State, Holds, read, read_lem}

  -- The inode of another sector is opened beside the directory's.
  opened_beside :
      (t : OpenInodes) (i sector n : ℕ) (node : OpenInode) (g : ℕ → Data) (m : Bitmap) (w : State)
      → IsOpen t
      → node_at i t.nodes ≡ some node
      → sector ≢ node.sector
      → sector < n
      → Holds w g n
      → Returns (inode_open (vol store has_file write_map) sector t (m, w)) λ r.
        (i ≢ r.0)
        × ((x : OpenInode) × (node_at r.0 r.1.nodes ≡ some x))
        × (node_at i r.1.nodes ≡ some node)
        × Holds r.2.1 g n
  opened_beside t i sector n node g m w o at ne lt h =
      elim (Option-cases (open_at sector t.nodes)) [
        | inl miss ↦
            let ((bytes, w'), run, (_, h')) = read_lem w g n sector h lt in
            let run' : (vol store has_file write_map).read sector (m, w) ≡ some (bytes, (m, w')) =
              rw (run, ◌>>=◌) refl in
            let ne' : i ≢ t.next = λ e. omega (arith, o.below i node at, e) in
            (
              (
                t.next,
                record {
                  next = t.next + 1;
                  nodes = (t.next, fresh (vol store has_file write_map) sector bytes) ∷ t.nodes;
                },
                (m, w'),
              ),
              open-new (vol store has_file write_map) t sector (m, w) (m, w') bytes miss run',
              (
                ne',
                (fresh (vol store has_file write_map) sector bytes, ground arith),
                ground (arith, ne', at),
                h',
              ),
            )
        | inr (p, hit) ↦
            let (x, at', same) = open_at-some t.nodes sector p o.distinct hit in
            let x' : OpenInode = record x { open_cnt = x.open_cnt + 1 } in
            let ne' : i ≢ p = λ e.
              let q : some node ≡ some x = sym at ∙ ap (λ j. node_at j t.nodes) e ∙ at' in
              ne (sym same ∙ ground (arith, q)) in
            (
              (p, record t { nodes = put_node p x' t.nodes }, (m, w)),
              open-again (vol store has_file write_map) t sector p x (m, w) hit at',
              (
                ne',
                (x', ground (arith, node_at-put t.nodes p p x' x at')),
                ground (arith, node_at-put t.nodes p i x' x at', ne', at),
                h,
              ),
            )
      ]

  -- The parent of another open inode is set.
  parent_beside :
      (t : OpenInodes) (i p : ℕ) (node x : OpenInode)
      → i ≢ p
      → node_at p t.nodes ≡ some x
      → node_at i t.nodes ≡ some node
      → Returns (inode_set_parent p i t) λ t'. node_at i t'.nodes ≡ some node
  unfolding inode_set_parent update
  parent_beside t i p node x ne at at' =
      let x' : OpenInode = record x { data' = record x.data' { parent_node = node.sector } } in
      (
        record t { nodes = put_node p x' t.nodes },
        rw (at', ◌>>=◌, at) refl,
        ground (arith, node_at-put t.nodes p i x' x at, ne, at'),
      )

  -- A name that no slot has passes the checks of `dir_add`.
  dir_add_run :
      (dir : Dir) (a rest e : List ℕ) (sector p : ℕ) (t t' t₃ : OpenInodes) (m : Bitmap)
      (w w₁ : State) (w₂ w₃ : Bitmap × State)
      → 0 < length a
      → AllBytes a
      → length a ≤ 14
      → lookup store dir (a ++ 0 ∷ rest) t w ≡ some (none, w₁)
      → add_entry store has_file write_map dir (a ++ 0 ∷ rest) sector e t (m, w₁)
        ≡ some (true, t, w₂)
      → inode_open (vol store has_file write_map) sector t w₂ ≡ some (p, t', w₃)
      → inode_set_parent p dir.inode t' ≡ some t₃
      → dir_add store has_file write_map dir (a ++ 0 ∷ rest) sector e t (m, w) ≡ some (true, t₃, w₃)
  unfolding dir_add
  dir_add_run dir [] rest e sector p t t' t₃ m w w₁ w₂ w₃ some' bytes fits found added opened set_ =
      absurd (omega (arith, some'))
  dir_add_run dir (x ∷ a) rest e sector p t t' t₃ m w w₁ w₂ w₃ some' bytes fits found added opened
        set_ =
      let x' : (x == 0) ≡ false = ground (arith, bytes.0) in
      let short : ltb name_max (length (x ∷ a)) ≡ false = ground (arith, fits) in
      rw (strlen-length (x ∷ a) rest bytes, ◌>>=◌, x', short, found, added, opened, set_) refl

  -- In a directory that is open, whose blocks are on the device and apart, that nobody denies writes to,
  -- whose names in use are ended by a 0 and which has a free slot, `dir_add` of a name of 1 to 14 bytes
  -- that no slot in use has, with a sector on the device that is not the directory's own, returns true
  -- without a panic. `lookup` of the name then finds the first of the free slots, with that sector.
  pub lookup-dir_add :
      (dir : Dir) (node : OpenInode) (f : ℕ → Data) (n k sector : ℕ) (a rest rest' e : List ℕ)
      (t : OpenInodes) (m : Bitmap) (w : State)
      → IsOpen t
      → node_at dir.inode t.nodes ≡ some node
      → node.deny_write_cnt ≡ 0
      → Holds w f n
      → HasBlocks node.data' f n
      → IsApart node.data' f
      → n ≤ no_sector
      → 0 < length a
      → AllBytes a
      → length a ≤ 14
      → sector < n
      → sector ≢ node.sector
      → ((i : ℕ) → i < slots node.data' → IsEnded (slot_at node.data' f i))
      → FirstFrom node.data' f a 0 none
      → IsFree node.data' f k
      → Returns (dir_add store has_file write_map dir (a ++ 0 ∷ rest) sector e t (m, w)) λ r.
        (r.0 ≡ true)
        × Returns (lookup store dir (a ++ 0 ∷ rest') r.1 r.2.1) λ q.
          (found : DirEntry) × (q.0 ≡ some (found, k * entry_size)) × (found.inode_sector ≡ sector)
  lookup-dir_add dir node f n k sector a rest rest' e t m w o at deny h blocks apart small some'
        bytes fits inside ne ended new free =
      let d = node.data' in
      let ((r, w₁), run₁, (first, h₁)) =
        lookup-FirstFrom store d f n blocks a rest bytes ended dir node t w at refl h in
      let missing : r ≡ none = elim (Option-cases r) [
        | inl e' ↦ e'
        | inr ((x, ofs), e') ↦
            let (j, _, lt, _, _, has, _) = subst (FirstFrom d f a 0) e' first in
            absurd (new j (omega arith) lt has)
      ] in
      let ((ok, t', (m', w₂)), run₂, (ok', same, (g, h₂, added))) =
        add_entry-Added store has_file write_map dir node f n k sector a rest e t m w₁ at deny h₁
          blocks apart small bytes fits (omega (arith, inside, small)) ended new free in
      let ((p, t'', (m₃, w₃)), run₃, (ne', (x, at_p), at', h₃)) =
        opened_beside t dir.inode sector n node g m' w₂ o at ne inside h₂ in
      let (t₃, run₄, at₃) = parent_beside t'' dir.inode p node x ne' at_p at' in
      let (q, run₅, (first', _)) =
        lookup-FirstFrom store d g n added.blocks a rest' bytes added.ended dir node t₃ w₃ at₃ refl
          h₃ in
      (
        (true, t₃, (m₃, w₃)),
        dir_add_run dir a rest e sector p t t'' t₃ m w w₁ (m', w₂) (m₃, w₃) some' bytes fits
            (run₁ ∙ ap (λ x. some (x, w₁)) missing)
            (run₂ ∙ ap (λ x. some (x, t', (m', w₂))) ok' ∙ ap (λ x. some (true, x, (m', w₂))) same)
            run₃ run₄,
        (
          refl,
          (
            q,
            run₅,
            (
              slot_at d g k,
              found_at d g a k q.0 added.inside added.has added.others first',
              added.numbered,
            ),
          ),
        ),
      )
