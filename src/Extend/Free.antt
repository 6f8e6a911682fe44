-- ===== src/Extend/Free.antt =====
-- `inode_dealloc`, which clears each pointer before it gives back the sector that the pointer names.
use cs162_group.Prelude.{
  ℕ, zero, suc, ◌+◌, ◌-◌, ◌%◌, ◌^◌, Bool, true, false, Option, some, List, ◌>>=◌, ltb, ◌==◌,
  if◌then◌else◌, set, get_elem?,
}
use cs162_group.Volume.{Volume}
use cs162_group.Inode.{InodeDisk, direct_ptrs, indirect_block_ptrs, direct_limit, indirect_limit}
use cs162_group.Extend.{bytes_to_sectors, load_block}

-- `blocks_to_deallocate--` on a `size_t`; the test `<= 0` that follows is a test for 0.
abbrev pub count_down : ℕ → ℕ
count_down n = (n + 2 ^ 32 - 1) % 2 ^ 32

module _ (v : Volume) where
  open v use {State, release}

  -- The loop over an array of pointers from `i` on, on the rounds left; it gives whether the count
  -- came to 0, and the count.
  unfoldable pub free_ptrs : ℕ → List ℕ → ℕ → ℕ → State → Option (Bool × ℕ × State)
  free_ptrs zero ptrs i left w = some (false, left, w)
  free_ptrs (suc k) ptrs i left w = do
    let cleared = set ptrs i 0
    s ← get_elem? cleared i
    w₁ ← release s w
    let left' = count_down left
    let rest = free_ptrs k cleared (i + 1) left' w₁
    if left' == 0 then some (true, left', w₁) else rest

  unfoldable pub free_indirect : InodeDisk → ℕ → State → Option (Bool × ℕ × State)
  free_indirect d left w = do
    (ptrs, w₁) ← load_block v d.indirect_ptr w
    (done, left', w₂) ← free_ptrs indirect_block_ptrs ptrs 0 left w₁
    if done
        then (do w₃ ← release d.indirect_ptr w₂; some (true, left', w₃))
        else some (false, left', w₂)

  -- The loop over the first-level blocks from `i` on, on the rounds left.
  unfoldable pub free_inner : ℕ → InodeDisk → List ℕ → ℕ → ℕ → State → Option State
  free_inner zero d outer i left w = some w
  free_inner (suc k) d outer i left w = do
    s ← get_elem? outer i
    (ptrs, w₁) ← load_block v s w
    (done, left', w₂) ← free_ptrs indirect_block_ptrs ptrs 0 left w₁
    w₃ ← release s w₂
    let rest = free_inner k d outer (i + 1) left' w₃
    if done then release d.doubly_indirect_ptr w₃ else rest

  unfoldable pub free_doubly : InodeDisk → ℕ → State → Option State
  unfolding free_inner
  free_doubly d left w = do
    (outer, w₁) ← load_block v d.doubly_indirect_ptr w
    free_inner indirect_block_ptrs d outer 0 left w₁

  -- The result is true on every path, so only the state is given.
  unfoldable pub inode_dealloc : InodeDisk → State → Option State
  inode_dealloc d w = do
    let blocks = bytes_to_sectors d.length'
    (done, left, w₁) ← free_ptrs direct_ptrs d.direct 0 blocks w
    if done then some w₁ else (do
      (done₂, left₂, w₂) ←
          (if ltb direct_limit blocks then free_indirect d left w₁ else some (false, left, w₁))
      if done₂
          then some w₂
          else if ltb indirect_limit blocks
          then free_doubly d left₂ w₂
          else some w₂)
