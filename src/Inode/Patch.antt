-- ===== src/Inode/Patch.antt =====
-- `inode_write_at` within a file: the loop puts the buffer's bytes at the offset, and nothing else changes.
use mathlib.Core.Path.{subst}
use cs162_group.Prelude.{
  ℕ, zero, suc, ◌+◌, ◌*◌, ◌-◌, ◌/◌, ◌%◌, ◌≤◌, ◌<◌, ◌≡◌, ◌≢◌, refl, sym, ap, ◌∙◌, true, false,
  Option, List, ◌>>=◌, ltb, arith, ◌==◌, ◌||◌, if◌then◌else◌, get_or, length, length-drop, take,
  drop, Returns, Bool-cases, inl, inr,
}
use cs162_group.Block.{Data, overwrite}
use cs162_group.Bitmap.Range.{within}
use cs162_group.Store.{Store}
use cs162_group.Inode.{InodeDisk, sector_size, direct_limit, indirect_limit}
use cs162_group.Inode.Table.{table, word_of, inner_of, byte_to_sector-table}
use cs162_group.Inode.Read.{chunk_size, is_full, splice, bounce_of, write_loop}
use cs162_group.Inode.Content.{byte_at, HasBlocks, located_inside, block_inside}
use cs162_group.Inode.Splice.{Spliced, splice-Spliced, whole-Spliced, get_or-drop}

-- No two blocks of the file share a sector, and none is a block of pointers.
pub record IsApart (d : InodeDisk) (f : ℕ → Data) : Type 0 where
  pub inj :
      (i j : ℕ)
      → i * sector_size < d.length'
      → j * sector_size < d.length'
      → table d f i ≡ table d f j
      → i ≡ j
  pub not_indirect : (i : ℕ) → i * sector_size < d.length' → table d f i ≢ d.indirect_ptr
  pub not_doubly : (i : ℕ) → i * sector_size < d.length' → table d f i ≢ d.doubly_indirect_ptr
  pub not_inner : (i k : ℕ) → i * sector_size < d.length' → table d f i ≢ inner_of d f k

-- `g` is `f` with the file's `size` bytes from `offset` on taken from `buffer`.
pub record Patched (d : InodeDisk) (f : ℕ → Data) (offset size : ℕ) (buffer : List ℕ) (g : ℕ → Data)
    : Type 0 where
  pub same_inner : (k : ℕ) → inner_of d g k ≡ inner_of d f k
  pub same_table : (i : ℕ) → table d g i ≡ table d f i
  pub sized : (s : ℕ) → length (g s) ≡ sector_size
  pub bytes :
      (i : ℕ)
      → i < d.length'
      → byte_at d g i
        ≡ (if within offset size i then get_or buffer (i - offset) 0 else byte_at d f i)
  -- Sectors that hold no block of the file stay.
  pub others : (s : ℕ) → ((i : ℕ) → i * sector_size < d.length' → table d f i ≢ s) → g s ≡ f s

-- A write to a sector that is not a block of pointers leaves the table.
kept-word :
    (f : ℕ → Data) (s t i : ℕ) (x : Data) → s ≢ t → word_of (overwrite f s x) t i ≡ word_of f t i
kept-word f s t i x ne = let e : (t == s) ≡ false = ground (arith, ne) in rw e refl

module _ (d : InodeDisk) (f : ℕ → Data) (n : ℕ) (h : HasBlocks d f n) (a : IsApart d f) (b : ℕ)
    (inside : b * sector_size < d.length') (x : Data) where
  abbrev target : ℕ
  target = table d f b

  abbrev after : ℕ → Data
  after = overwrite f target x

  inner_kept : (k : ℕ) → inner_of d after k ≡ inner_of d f k
  inner_kept k = kept-word f target d.doubly_indirect_ptr _ x (a.not_doubly b inside)

  table_kept : (i : ℕ) → table d after i ≡ table d f i
  unfolding table
  table_kept i =
      let e = kept-word f target d.indirect_ptr (i - direct_limit) x (a.not_indirect b inside) in
      let e' = inner_kept (i - indirect_limit) in
      let e'' =
        kept-word f target (inner_of d f (i - indirect_limit)) ((i - indirect_limit) % 128) x
          (a.not_inner b (i - indirect_limit) inside) in
      rw (e, e', e'') refl

  -- One sector of the file with some of its bytes replaced.
  patch_one :
      (o c offset : ℕ) (buffer : List ℕ)
      → Spliced (f target) o c buffer x
      → offset ≡ b * sector_size + o
      → o + c ≤ sector_size
      → Patched d f offset c buffer after
  unfolding byte_at
  patch_one o c offset buffer p at fits = record {
    same_inner = inner_kept;
    same_table = table_kept;
    sized = λ t. elim (Bool-cases (t == target)) [
      | inl e ↦ rw e p.size
      | inr e ↦ rw e (h.mapped.sized t)
    ];
    bytes = λ i lt. elim (Bool-cases (i / sector_size == b)) [
      | inl e ↦
          let blk : i / sector_size ≡ b = ground arith in
          let sec : table d f (i / sector_size) ≡ target = ap (table d f) blk in
          let got = p.bytes (i % sector_size) (omega arith) in
          let idx : get_or buffer (i % sector_size - o) 0 ≡ get_or buffer (i - offset) 0 =
            ap (λ k. get_or buffer k 0) (omega (arith, at, blk)) in
          let win : within offset c i ≡ within o c (i % sector_size) = ground (arith, at, blk) in
          let hit : (table d f (i / sector_size) == target) ≡ true = ground (arith, sec) in
          rw (table_kept (i / sector_size), hit, got, win, idx)
            (ap
              (λ z.
                if within o c (i % sector_size)
                then get_or buffer (i - offset) 0
                else get_or (f z) (i % sector_size) 0)
              (sym sec))
      | inr e ↦
          let win : within offset c i ≡ false = ground (arith, at, fits) in
          let miss : (table d f (i / sector_size) == target) ≡ false =
            ground (arith, a.inj (i / sector_size) b (omega arith) inside, e) in
          rw (table_kept (i / sector_size), miss, win) refl
    ];
    others = λ t out. let e : (t == target) ≡ false = ground (arith, out b inside) in rw e refl;
  }

-- One run of bytes, then the rest of the buffer behind it.
join :
    (d : InodeDisk) (f g k : ℕ → Data) (offset c size : ℕ) (buffer : List ℕ)
    → c ≤ size
    → Patched d f offset c buffer g
    → Patched d g (offset + c) (size - c) (drop c buffer) k
    → Patched d f offset size buffer k
join d f g k offset c size buffer le p q = record {
  same_inner = λ i. q.same_inner i ∙ p.same_inner i;
  same_table = λ i. q.same_table i ∙ p.same_table i;
  sized = q.sized;
  bytes = λ i lt. elim (Bool-cases (within (offset + c) (size - c) i)) [
    | inl in' ↦
        let e = get_or-drop c buffer (i - (offset + c)) (i - offset) (ground arith) in
        ground (arith, q.bytes i lt, e, in')
    | inr out ↦ ground (arith, q.bytes i lt, p.bytes i lt, out, le)
  ];
  others = λ s out. q.others s (λ i lt e. out i lt (sym (p.same_table i) ∙ e)) ∙ p.others s out;
}

-- The blocks of a file stay in order.
pub blocks_kept :
    (d : InodeDisk) (f g : ℕ → Data) (n offset size : ℕ) (buffer : List ℕ)
    → Patched d f offset size buffer g
    → HasBlocks d f n
    → HasBlocks d g n
blocks_kept d f g n offset size buffer p h = record {
  mapped = record {
    direct = h.mapped.direct;
    sized = p.sized;
    indirect = h.mapped.indirect;
    doubly = h.mapped.doubly;
    inner = λ i. rw (p.same_inner i) (h.mapped.inner i);
  };
  blocks = λ i lt. rw (p.same_table i) (h.blocks i lt);
  reach = h.reach;
}

IsApart-kept :
    (d : InodeDisk) (f g : ℕ → Data) (offset size : ℕ) (buffer : List ℕ)
    → Patched d f offset size buffer g
    → IsApart d f
    → IsApart d g
IsApart-kept d f g offset size buffer p a = record {
  inj = λ i j li lj e. a.inj i j li lj (sym (p.same_table i) ∙ e ∙ p.same_table j);
  not_indirect = λ i lt e. a.not_indirect i lt (sym (p.same_table i) ∙ e);
  not_doubly = λ i lt e. a.not_doubly i lt (sym (p.same_table i) ∙ e);
  not_inner = λ i k lt e. a.not_inner i k lt (sym (p.same_table i) ∙ e ∙ p.same_inner k);
}

module _ (store : Store) (d : InodeDisk) (n : ℕ) where
  open store use {State, read, write, Holds, read_lem, write_lem}

  -- The write of one round.
  abbrev put_chunk : ℕ → ℕ → ℕ → List ℕ → State → Option State
  put_chunk s o c buffer w = if is_full o c then write s (take c buffer) w else (do
    (bounce, w₃) ← bounce_of store s o c w
    write s (splice store bounce o (take c buffer) c) w₃)

  put_chunk-Spliced :
      (f : ℕ → Data) (s o c : ℕ) (buffer : List ℕ) (w : State)
      → Holds w f n
      → s < n
      → length (f s) ≡ sector_size
      → o + c ≤ sector_size
      → c ≤ length buffer
      → Returns
          (put_chunk s o c buffer w)
          λ w'. (x : Data) × Spliced (f s) o c buffer x × Holds w' (overwrite f s x) n
  unfolding bounce_of
  put_chunk-Spliced f s o c buffer w h lt len fits enough = elim (Bool-cases (is_full o c)) [
    | inl full ↦
        let (w', run, h') = write_lem w f n s (take c buffer) h lt in
        (
          w',
          rw full run,
          (
            take c buffer,
            whole-Spliced store (f s) buffer o c len fits enough (ground arith) (ground arith),
            h',
          ),
        )
    | inr part ↦
        let ((old, w₁), got, (e, h₁)) = read_lem w f n s h lt in
        let reads : (ltb 0 o || ltb c (sector_size - o)) ≡ true = ground (arith, part, fits) in
        let x = splice store old o (take c buffer) c in
        let (w', run, h') = write_lem w₁ f n s x h₁ lt in
        let p = splice-Spliced store old buffer o c (ap length e ∙ len) fits enough in
        (w', rw (part, reads, got, ◌>>=◌) run, (x, subst (λ z. Spliced z o c buffer x) e p, h'))
  ]

  -- Writing within the file ends without a panic after all the bytes. The file then has the buffer's
  -- bytes from the offset on and its own elsewhere, its blocks are where they were, and the sectors that
  -- hold no block of the file are as before.
  pub write_loop-Patched :
      (fuel size offset written : ℕ) (buffer : List ℕ) (f : ℕ → Data) (w : State)
      → Holds w f n
      → HasBlocks d f n
      → IsApart d f
      → offset + size ≤ d.length'
      → size ≤ length buffer
      → size < fuel
      → Returns (write_loop store fuel d buffer size offset written w) λ r.
        (r.0 ≡ written + size) × ((g : ℕ → Data) × Holds r.1 g n × Patched d f offset size buffer g)
  unfolding write_loop
  write_loop-Patched zero size offset written buffer f w h m a fits enough lt = absurd (omega arith)
  write_loop-Patched (suc fuel) size offset written buffer f w h m a fits enough lt =
      elim (Bool-cases (size == 0)) [
        | inl done ↦ (
          (written, w),
          rw done refl,
          (
            ground arith,
            (
              f,
              h,
              record {
                same_inner = λ k. refl;
                same_table = λ i. refl;
                sized = m.mapped.sized;
                bytes = λ i lt'. ground arith;
                others = λ s out. refl;
              },
            ),
          ),
        )
        | inr more ↦
            let c = chunk_size d size offset in
            let b = offset / sector_size in
            let o = offset % sector_size in
            let in' : offset < d.length' = ground arith in
            let ((s, w₁), run, (at, h₁)) = byte_to_sector-table store d f n m.mapped w offset h in
            let s' : s ≡ table d f b = at ∙ located_inside store d f n m offset in' in
            let go : (c == 0) ≡ false = ground arith in
            let (w₂, put, (x, sp, h₂)) =
              put_chunk-Spliced f s o c buffer w₁ h₁ (rw s' (block_inside store d f n m offset in'))
                (m.mapped.sized s) (omega arith) (omega arith) in
            let sp' : Spliced (f (table d f b)) o c buffer x =
              subst (λ z. Spliced (f z) o c buffer x) s' sp in
            let p : Patched d f offset c buffer (overwrite f s x) =
              subst (λ z. Patched d f offset c buffer (overwrite f z x)) (sym s')
                (patch_one d f n m a b (omega arith) x o c offset buffer sp' (omega arith)
                  (omega arith)) in
            let (r, later, (all, (g, h₃, q))) =
              write_loop-Patched fuel (size - c) (offset + c) (written + c) (drop c buffer)
                (overwrite f s x) w₂ h₂ (blocks_kept d f (overwrite f s x) n offset c buffer p m)
                (IsApart-kept d f (overwrite f s x) offset c buffer p a) (omega arith)
                (omega (arith, length-drop c buffer)) (ground arith) in
            (
              r,
              rw (more, run, ◌>>=◌, go, put) later,
              (
                omega (arith, all),
                (g, h₃, join d f (overwrite f s x) g offset c size buffer (omega arith) p q),
              ),
            )
      ]
