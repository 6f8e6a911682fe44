-- ===== src/Extend/Grow.antt =====
-- `inode_extend`, level by level. Each level gives whether it succeeded, the inode, and the number of
-- blocks that the inode then has as the code counts them.
use cs162_group.Prelude.{
  ℕ, zero, suc, ◌+◌, ◌-◌, ◌*◌, ◌%◌, Bool, true, false, ◌&&◌, ◌||◌, Option, some, List, ◌>>=◌, leb,
  ltb, ◌==◌, if◌then◌else◌, get_elem?,
}
use cs162_group.Volume.{Volume}
use cs162_group.Inode.{
  InodeDisk, sector_size, direct_ptrs, indirect_block_ptrs, direct_limit, indirect_limit,
  doubly_indirect_limit,
}
use cs162_group.Extend.{
  div_round_up, bytes_to_sectors, load_block, save_block, alloc_ptrs, allocate_indirect_block,
}

-- `max_inode_size`, as the code writes it.
abbrev pub max_inode_size : ℕ
max_inode_size =
    (direct_ptrs + indirect_block_ptrs + indirect_block_ptrs * direct_ptrs) * sector_size

-- The blocks that a level is filled up to, and the count after it.
abbrev pub level_stop : ℕ → ℕ → ℕ
level_stop new limit = if leb limit new then limit else new

abbrev pub level_count : ℕ → ℕ → ℕ → ℕ
level_count curr new limit = if leb limit new then limit else curr

module _ (v : Volume) where
  open v use {State}

  unfoldable pub extend_direct : InodeDisk → ℕ → ℕ → State → Option (Bool × InodeDisk × ℕ × State)
  extend_direct d curr new w =
      if ltb curr direct_limit
      then (do
        (ok, ptrs, w₁) ← alloc_ptrs v (level_stop new direct_limit - curr) d.direct curr w
        some (ok, record d { direct = ptrs }, level_count curr new direct_limit, w₁))
      else some (true, d, curr, w)

  -- On failure the block of pointers is not written back.
  unfoldable pub extend_indirect : InodeDisk → ℕ → ℕ → State → Option (Bool × InodeDisk × ℕ × State)
  extend_indirect d curr new w =
      if ltb curr indirect_limit && ltb direct_limit new
      then (do
        (ptrs, w₁) ← load_block v d.indirect_ptr w
        (ok, ptrs', w₂) ←
            alloc_ptrs v (level_stop new indirect_limit - curr) ptrs (curr - direct_limit) w₁
        if ok
            then (do
              w₃ ← save_block v d.indirect_ptr ptrs' w₂
              some (true, d, level_count curr new indirect_limit, w₃))
            else some (false, d, curr, w₂))
      else some (true, d, curr, w)

  -- The loop over the first-level blocks from `i` on, on the rounds left: `first` and `last` are
  -- `min_first_level` and `max_first_level`, `from` and `to` one more than the last indices
  -- `curr_second_level_index` and `new_second_level_index`.
  unfoldable pub inner_loop : ℕ → List ℕ → ℕ → ℕ → ℕ → ℕ → ℕ → State → Option (Bool × State)
  inner_loop zero outer i first last from to w = some (true, w)
  inner_loop (suc k) outer i first last from to w = do
    let start = if i == first then from else 0
    let stop = if i == last then to else indirect_block_ptrs + 1
    s ← get_elem? outer i
    (ptrs, w₁) ← load_block v s w
    (ok, ptrs', w₂) ← allocate_indirect_block v ptrs start stop w₁
    let rest = (do w₃ ← save_block v s ptrs' w₂; inner_loop k outer (i + 1) first last from to w₃)
    if ok then rest else some (false, w₂)

  unfoldable pub extend_doubly : InodeDisk → ℕ → ℕ → State → Option (Bool × State)
  unfolding inner_loop
  extend_doubly d curr new w =
      if ltb curr doubly_indirect_limit && ltb indirect_limit new
      then (do
        let stop_first = div_round_up (new - indirect_limit) indirect_block_ptrs
        let to = (new - indirect_limit) % indirect_block_ptrs
        let first = div_round_up (curr - indirect_limit) indirect_block_ptrs
        let from = (curr - indirect_limit) % indirect_block_ptrs
        (outer, w₁) ← load_block v d.doubly_indirect_ptr w
        (ok, outer', w₂) ← allocate_indirect_block v outer first stop_first w₁
        if ok
            then (do
              (ok', w₃) ←
                  inner_loop (stop_first - first) outer' first first (stop_first - 1) from to w₂
              if ok'
                  then (do w₄ ← save_block v d.doubly_indirect_ptr outer' w₃; some (true, w₄))
                  else some (false, w₃))
            else some (false, w₂))
      else some (true, w)

  -- The three levels in turn, each only if the one before succeeded, then the new length.
  unfoldable pub extend_levels : InodeDisk → ℕ → ℕ → ℕ → State → Option (Bool × InodeDisk × State)
  extend_levels d curr new len w = do
    (ok, d₁, curr₁, w₁) ← extend_direct d curr new w
    if ok
        then (do
          (ok₂, d₂, curr₂, w₂) ← extend_indirect d₁ curr₁ new w₁
          if ok₂
              then (do
                (ok₃, w₃) ← extend_doubly d₂ curr₂ new w₂
                if ok₃ then some (true, record d₂ { length' = len }, w₃) else some (false, d₂, w₃))
              else some (false, d₂, w₂))
        else some (false, d₁, w₁)

  unfoldable pub inode_extend : InodeDisk → ℕ → State → Option (Bool × InodeDisk × State)
  inode_extend d len w =
      let curr = bytes_to_sectors d.length' in
      let new = bytes_to_sectors len in
      if ltb new curr
      then some (false, d, w)
      else if new == curr
      then some (true, d, w)
      else if ltb max_inode_size len || ltb len d.length'
      then some (false, d, w)
      else extend_levels d curr new len w
