-- ===== src/Extend/Gaps.antt =====
-- Where `inode_extend` grows a file inside the doubly indirect region.
use cs162_group.Prelude.{
  ℕ, zero, suc, ◌+◌, ◌-◌, ◌%◌, ◌≤◌, ◌<◌, ◌≡◌, ◌≢◌, refl, true, false, none, some, List, ◌>>=◌,
  if◌then◌else◌, leb, ltb, ◌==◌, ◌&&◌, arith, Bool-cases, Option-cases, inl, inr, get_elem?,
}
use cs162_group.Block.{Data}
use cs162_group.Store.Words.{decode, encode}
use cs162_group.Volume.{Volume}
use cs162_group.Inode.{InodeDisk, indirect_limit, doubly_indirect_limit, indirect_block_ptrs}
use cs162_group.Extend.{
  bytes_to_sectors, div_round_up, load_block, save_block, alloc_ptrs, allocate_indirect_block,
}
use cs162_group.Extend.Grow.{
  max_inode_size, extend_direct, extend_indirect, inner_loop, extend_doubly, extend_levels,
  inode_extend,
}

module _ (v : Volume) (d : InodeDisk) (len : ℕ) where
  open v use {State, read, write}

  abbrev curr : ℕ
  curr = bytes_to_sectors d.length'

  abbrev new : ℕ
  new = bytes_to_sectors len

  -- Past the first two levels only the third runs.
  extend-levels :
      (w : State)
      → indirect_limit ≤ curr
      → curr < new
      → len ≤ max_inode_size
      → inode_extend v d len w ≡ (do
        (ok, w') ← extend_doubly v d curr new w
        if ok then some (true, record d { length' = len }, w') else some (false, d, w'))
  unfolding inode_extend extend_levels extend_direct extend_indirect
  extend-levels w far grow fits = ground arith

  abbrev level : ℕ → ℕ
  level n = div_round_up (n - indirect_limit) indirect_block_ptrs

  -- No first-level block is added: nothing is allocated, at any level.
  doubly-same :
      (w w₁ w₂ : State) (x : Data)
      → indirect_limit ≤ curr
      → curr < new
      → len ≤ max_inode_size
      → level new ≡ level curr
      → read d.doubly_indirect_ptr w ≡ some (x, w₁)
      → write d.doubly_indirect_ptr (encode (decode x)) w₁ ≡ some w₂
      → extend_doubly v d curr new w ≡ some (true, w₂)
  unfolding extend_doubly load_block save_block allocate_indirect_block alloc_ptrs
  doubly-same w w₁ w₂ x far grow fits same get put =
      let go : (ltb curr doubly_indirect_limit && ltb indirect_limit new) ≡ true = ground arith in
      let ok : leb (level curr) indirect_block_ptrs ≡ true = ground arith in
      let none_new : level curr - level curr ≡ 0 = omega arith in
      rw (go, same, get, ◌>>=◌, ok, none_new, put) refl

  -- A file past its indirect blocks that grows within its last first-level block is given the new
  -- length and no sector at all: if the doubly indirect block can be read and written back, the
  -- extension succeeds, and the pointers are those of before.
  pub inode_extend-same_level :
      (w w₁ w₂ : State) (x : Data)
      → indirect_limit ≤ curr
      → curr < new
      → len ≤ max_inode_size
      → level new ≡ level curr
      → read d.doubly_indirect_ptr w ≡ some (x, w₁)
      → write d.doubly_indirect_ptr (encode (decode x)) w₁ ≡ some w₂
      → inode_extend v d len w ≡ some (true, record d { length' = len }, w₂)
  inode_extend-same_level w w₁ w₂ x far grow fits same get put =
      rw (extend-levels w far grow fits, doubly-same w w₁ w₂ x far grow fits same get put, ◌>>=◌)
        refl

  -- The first of two or more new first-level blocks is filled past its end, which an assertion stops.
  inner-none :
      (k : ℕ) (outer : List ℕ) (i from to : ℕ) (w : State)
      → inner_loop v (suc (suc k)) outer i i (i + suc k) from to w ≡ none
  unfolding inner_loop allocate_indirect_block
  inner-none k outer i from to w = elim (Option-cases (get_elem? outer i)) [
    | inl out ↦ rw (out, ◌>>=◌) refl
    | inr (s, got) ↦ elim (Option-cases (load_block v s w)) [
      | inl dead ↦ rw (got, ◌>>=◌, dead) refl
      | inr ((ptrs, w₁), run) ↦
          let more : (i == i + suc k) ≡ false = ground arith in rw (got, ◌>>=◌, run, more) refl
    ]
  ]

  -- Reading the loop of the third level off its bounds.
  inner-none_at :
      (rounds last : ℕ) (outer : List ℕ) (i from to : ℕ) (w : State)
      → 2 ≤ rounds
      → last ≡ i + rounds - 1
      → inner_loop v rounds outer i i last from to w ≡ none
  inner-none_at zero last outer i from to w h e = absurd (omega arith)
  inner-none_at (suc zero) last outer i from to w h e = absurd (omega arith)
  inner-none_at (suc (suc k)) last outer i from to w h e =
      let e' : last ≡ i + suc k = omega arith in rw e' (inner-none k outer i from to w)

  doubly-fails :
      (w w' : State)
      → indirect_limit ≤ curr
      → len ≤ max_inode_size
      → level curr + 2 ≤ level new
      → extend_doubly v d curr new w ≢ some (true, w')
  unfolding extend_doubly
  doubly-fails w w' far fits two e =
      let go : (ltb curr doubly_indirect_limit && ltb indirect_limit new) ≡ true = ground arith in
      let from = (curr - indirect_limit) % indirect_block_ptrs in
      let to = (new - indirect_limit) % indirect_block_ptrs in
      elim (Option-cases (load_block v d.doubly_indirect_ptr w)) [
        | inl dead ↦ absurd (ground (arith, go, dead))
        | inr ((outer, w₁), get) ↦
            elim (Option-cases (allocate_indirect_block v outer (level curr) (level new) w₁)) [
              | inl dead ↦ absurd (ground (arith, go, get, dead))
              | inr ((ok, outer', w₂), made) ↦
                  let stop =
                    inner-none_at (level new - level curr) (level new - 1) outer' (level curr) from
                      to w₂ (omega arith) (omega arith) in
                  absurd (ground (arith, go, get, made, stop))
            ]
      ]

  -- Growth of a file past its indirect blocks, to a length within the maximum, that needs two or
  -- more new first-level blocks never succeeds, whatever the state of the volume: it panics or
  -- returns false.
  pub inode_extend-two_levels :
      (w w' : State) (d' : InodeDisk)
      → indirect_limit ≤ curr
      → len ≤ max_inode_size
      → level curr + 2 ≤ level new
      → inode_extend v d len w ≢ some (true, d', w')
  inode_extend-two_levels w w' d' far fits two e =
      let e' = rw (extend-levels w far (omega arith) fits) at e in
      elim (Option-cases (extend_doubly v d curr new w)) [
        | inl dead ↦ absurd (ground (arith, e', dead))
        | inr ((ok, w₁), run) ↦ elim (Bool-cases ok) [
          | inl yes' ↦
              let run' : extend_doubly v d curr new w ≡ some (true, w₁) = rw yes' at run in
              absurd (doubly-fails w w₁ far fits two run')
          | inr no' ↦ absurd (ground (arith, e', run, no'))
        ]
      ]
