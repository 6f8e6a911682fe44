-- ===== src/Open/Laws.antt =====
-- Opening and closing share one inode for each sector.
use cs162_group.Prelude.{
  ℕ, ◌+◌, ◌≤◌, ◌≡◌, ◌≢◌, ◌⊎◌, refl, ap, sym, ◌∙◌, false, none, some, List, ◌∷◌, ◌>>=◌, ◌==◌, arith,
  Bool-cases, Option-cases, inl, inr, Returns,
}
use cs162_group.Block.{Data}
use cs162_group.Volume.{Volume}
use cs162_group.Open.{
  OpenInode, OpenInodes, open_at, node_at, put_node, of_sector, inode_reopen, update, inode_open,
}
use cs162_group.Open.Invariant.{IsOpen, node_at-put, open_at-some, open_at-none, put-Distinct}

-- What is behind an address after one more inode.
pushed :
    (xs : List (ℕ × OpenInode)) (a p : ℕ) (n k : OpenInode)
    → node_at p ((a, n) ∷ xs) ≡ some k
    → ((p ≡ a) × (k ≡ n)) ⊎ (node_at p xs ≡ some k)
pushed xs a p n k e = elim (Bool-cases (a == p)) [
  | inl here ↦ let e' : some n ≡ some k = rw here at e in inl (ground arith, cc)
  | inr there ↦ let e' : node_at p xs ≡ some k = rw there at e in inr e'
]

-- What is behind an address after the inode at `p` was opened once more.
counted_up :
    (xs : List (ℕ × OpenInode)) (p q : ℕ) (n k : OpenInode)
    → node_at p xs ≡ some n
    → node_at q (put_node p (record n { open_cnt = n.open_cnt + 1 }) xs) ≡ some k
    → (m : OpenInode) × (node_at q xs ≡ some m)
      × (k.sector ≡ m.sector)
      × (m.open_cnt ≤ k.open_cnt)
      × (k.deny_write_cnt ≡ m.deny_write_cnt)
counted_up xs p q n k at e =
    let n' : OpenInode = record n { open_cnt = n.open_cnt + 1 } in
    let look = node_at-put xs p q n' n at in
    elim (Bool-cases (q == p)) [
      | inl here ↦
          let e' : some n' ≡ some k = rw here at (sym look ∙ e) in
          let k' : k ≡ n' = cc in
          let q' : q ≡ p = ground arith in
          (n, rw q' at, rw k' refl, rw k' (omega arith), rw k' refl)
      | inr there ↦
          let e' : node_at q xs ≡ some k = rw there at (sym look ∙ e) in
          (k, e', refl, omega arith, refl)
    ]

module _ (v : Volume) where
  open v use {State, read}

  abbrev pub fresh : ℕ → Data → OpenInode
  fresh sector bytes = record {
    sector = sector;
    open_cnt = 1;
    removed = false;
    deny_write_cnt = 0;
    data' = of_sector bytes;
  }

  -- The next address is new.
  next_free : (t : OpenInodes) → IsOpen t → node_at t.next t.nodes ≡ none
  next_free t o = elim (Option-cases (node_at t.next t.nodes)) [
    | inl e ↦ e
    | inr (n, e) ↦ absurd (omega (arith, o.below t.next n e))
  ]

  push-IsOpen :
      (t : OpenInodes) (sector : ℕ) (bytes : Data)
      → IsOpen t
      → open_at sector t.nodes ≡ none
      → IsOpen (record { next = t.next + 1; nodes = (t.next, fresh sector bytes) ∷ t.nodes })
  push-IsOpen t sector bytes o miss =
      let n = fresh sector bytes in
      let xs = (t.next, n) ∷ t.nodes in
      let split = λ (p : ℕ) (k : OpenInode) (e : node_at p xs ≡ some k).
        let c : ((p ≡ t.next) × (k ≡ n)) ⊎ (node_at p t.nodes ≡ some k) =
          pushed t.nodes t.next p n k e in
        c in
      record {
        distinct = (next_free t o, o.distinct);
        below = λ p k e. elim (split p k e) [
          | inl (here, _) ↦ omega arith
          | inr there ↦ omega (arith, o.below p k there)
        ];
        one = λ p q k l e e' same. elim (split p k e) [
          | inl (here, new) ↦ elim (split q l e') [
            | inl (here', _) ↦ here ∙ sym here'
            | inr there' ↦
                absurd
                  (open_at-none t.nodes sector q l miss there' (sym same ∙ ap (λ z. z.sector) new))
          ]
          | inr there ↦ elim (split q l e') [
            | inl (_, new') ↦
                absurd (open_at-none t.nodes sector p k miss there (same ∙ ap (λ z. z.sector) new'))
            | inr there' ↦ o.one p q k l there there' same
          ]
        ];
        counted = λ p k e. elim (split p k e) [
          | inl (_, new) ↦ rw new (omega arith)
          | inr there ↦ o.counted p k there
        ];
        denied = λ p k e. elim (split p k e) [
          | inl (_, new) ↦ rw new (omega arith)
          | inr there ↦ o.denied p k there
        ];
      }

  again-IsOpen :
      (t : OpenInodes) (p : ℕ) (n : OpenInode)
      → node_at p t.nodes ≡ some n
      → IsOpen t
      → IsOpen (record t { nodes = put_node p (record n { open_cnt = n.open_cnt + 1 }) t.nodes })
  again-IsOpen t p n at o =
      let n' : OpenInode = record n { open_cnt = n.open_cnt + 1 } in
      let from = λ (q : ℕ) (k : OpenInode) (e : node_at q (put_node p n' t.nodes) ≡ some k).
        let c : (m : OpenInode) × (node_at q t.nodes ≡ some m)
            × (k.sector ≡ m.sector)
            × (m.open_cnt ≤ k.open_cnt)
            × (k.deny_write_cnt ≡ m.deny_write_cnt) =
          counted_up t.nodes p q n k at e in
        c in
      record {
        distinct = put-Distinct t.nodes p n' n o.distinct at;
        below = λ q k e. let (m, e', _, _, _) = from q k e in o.below q m e';
        one = λ q r k l e e' same.
            let (m, f, s, _, _) = from q k e in
            let (m', f', s', _, _) = from r l e' in o.one q r m m' f f' (sym s ∙ same ∙ s');
        counted = λ q k e. let (m, f, s, c, d) = from q k e in omega (arith, o.counted q m f, c);
        denied = λ q k e. let (m, f, s, c, d) = from q k e in omega (arith, o.denied q m f, c, d);
      }

  pub open-new :
      (t : OpenInodes) (sector : ℕ) (w w' : State) (bytes : Data)
      → open_at sector t.nodes ≡ none
      → read sector w ≡ some (bytes, w')
      → inode_open v sector t w
        ≡ some (
          t.next,
          record { next = t.next + 1; nodes = (t.next, fresh sector bytes) ∷ t.nodes },
          w',
        )
  unfolding inode_open
  open-new t sector w w' bytes miss run = rw (inode_open, miss, run, ◌>>=◌) refl

  pub open-again :
      (t : OpenInodes) (sector p : ℕ) (n : OpenInode) (w : State)
      → open_at sector t.nodes ≡ some p
      → node_at p t.nodes ≡ some n
      → inode_open v sector t w
        ≡ some
            (p, record t { nodes = put_node p (record n { open_cnt = n.open_cnt + 1 }) t.nodes }, w)
  unfolding inode_open inode_reopen update
  open-again t sector p n w hit at = rw (inode_open, hit, inode_reopen, update, at, ◌>>=◌) refl

  -- Where the open inodes are in order and the sector can be read, opening does not panic, keeps
  -- the open inodes in order and hands out the address of an inode for the sector. The address is
  -- that of before if the sector was open; every other inode stays.
  pub inode_open-IsOpen :
      (t : OpenInodes) (sector : ℕ) (w w' : State) (bytes : Data)
      → IsOpen t
      → read sector w ≡ some (bytes, w')
      → Returns (inode_open v sector t w) λ r.
        IsOpen r.1
        × ((n : OpenInode) × (node_at r.0 r.1.nodes ≡ some n) × (n.sector ≡ sector))
        × ((q : ℕ) → q ≢ r.0 → node_at q r.1.nodes ≡ node_at q t.nodes)
        × ((q : ℕ) (k : OpenInode) → node_at q t.nodes ≡ some k → k.sector ≡ sector → r.0 ≡ q)
  inode_open-IsOpen t sector w w' bytes o run = elim (Option-cases (open_at sector t.nodes)) [
    | inl miss ↦ (
      (t.next, record { next = t.next + 1; nodes = (t.next, fresh sector bytes) ∷ t.nodes }, w'),
      open-new t sector w w' bytes miss run,
      (
        push-IsOpen t sector bytes o miss,
        (fresh sector bytes, ground arith, refl),
        (λ q ne. ground arith),
        (λ q k at same. absurd (open_at-none t.nodes sector q k miss at same)),
      ),
    )
    | inr (p, hit) ↦
        let (n, at, same) = open_at-some t.nodes sector p o.distinct hit in
        let n' : OpenInode = record n { open_cnt = n.open_cnt + 1 } in
        (
          (p, record t { nodes = put_node p n' t.nodes }, w),
          open-again t sector p n w hit at,
          (
            again-IsOpen t p n at o,
            (n', ground (arith, node_at-put t.nodes p p n' n at), same),
            (λ q ne. ground (arith, node_at-put t.nodes p q n' n at)),
            (λ q k at' same'. o.one p q n k at at' (same ∙ sym same')),
          ),
        )
  ]
