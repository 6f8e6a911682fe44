-- ===== src/Inode/Read.antt =====
-- `inode_read_at` and `inode_write_at`: sector by sector between a buffer and the inode's blocks.
use Prim.Native.Nat.{min}
use cs162_group.Prelude.{
  ℕ, zero, suc, ◌+◌, ◌-◌, ◌%◌, Bool, ◌&&◌, ◌||◌, Option, none, some, List, [], ◌++◌, ◌>>=◌, ltb,
  ◌==◌, if◌then◌else◌, take, drop, replicate,
}
use cs162_group.Prelude.Int.{pos}
use cs162_group.Store.{Store}
use cs162_group.Inode.{InodeDisk, sector_size}
use cs162_group.Inode.Lookup.{byte_to_sector}

-- The bytes to copy out of this sector; 0 stands for a count that is not positive.
abbrev pub chunk_size : InodeDisk → ℕ → ℕ → ℕ
chunk_size d size offset = min size (min (d.length' - offset) (sector_size - offset % sector_size))

-- A full sector is copied whole.
abbrev pub is_full : ℕ → ℕ → Bool
is_full sector_ofs chunk = sector_ofs == 0 && chunk == sector_size

module _ (store : Store) where
  open store use {State, read, write}

  -- The loop of `inode_read_at`; `out` is what the buffer holds so far.
  unfoldable pub read_loop : ℕ → InodeDisk → ℕ → ℕ → List ℕ → State → Option (List ℕ × State)
  read_loop zero d size offset out w = none
  read_loop (suc fuel) d size offset out w = if size == 0 then some (out, w) else (do
    (sector_idx, w₁) ← byte_to_sector store d (pos offset) w
    let sector_ofs = offset % sector_size
    let chunk = chunk_size d size offset
    if chunk == 0 then some (out, w₁) else (do
      (bounce, w₂) ← read sector_idx w₁
      let bytes = (if is_full sector_ofs chunk then bounce else take chunk (drop sector_ofs bounce))
      read_loop fuel d (size - chunk) (offset + chunk) (out ++ bytes) w₂))

  -- The bytes read, whose number is the function's result.
  unfoldable pub inode_read_at : InodeDisk → ℕ → ℕ → State → Option (List ℕ × State)
  unfolding read_loop
  inode_read_at d size offset w = read_loop (suc size) d size offset [] w

  -- The sector `bounce` with `bytes` in place of its bytes from `sector_ofs` on.
  abbrev pub splice : List ℕ → ℕ → List ℕ → ℕ → List ℕ
  splice bounce sector_ofs bytes chunk =
      take sector_ofs bounce ++ (bytes ++ drop (sector_ofs + chunk) bounce)

  -- What a partial write starts from: the sector's contents if some of it stays, else zeros.
  unfoldable pub bounce_of : ℕ → ℕ → ℕ → State → Option (List ℕ × State)
  bounce_of sector_idx sector_ofs chunk w =
      if ltb 0 sector_ofs || ltb chunk (sector_size - sector_ofs)
      then read sector_idx w
      else some (replicate sector_size 0, w)

  -- The loop of `inode_write_at`, after the inode has its length; `buffer` is what is left to write.
  unfoldable pub write_loop : ℕ → InodeDisk → List ℕ → ℕ → ℕ → ℕ → State → Option (ℕ × State)
  unfolding bounce_of
  write_loop zero d buffer size offset written w = none
  write_loop (suc fuel) d buffer size offset written w =
      if size == 0 then some (written, w) else (do
        (sector_idx, w₁) ← byte_to_sector store d (pos offset) w
        let sector_ofs = offset % sector_size
        let chunk = chunk_size d size offset
        if chunk == 0 then some (written, w₁) else (do
          w₂ ←
              (if is_full sector_ofs chunk then write sector_idx (take chunk buffer) w₁ else (do
                (bounce, w₃) ← bounce_of sector_idx sector_ofs chunk w₁
                write sector_idx (splice bounce sector_ofs (take chunk buffer) chunk) w₃))
          write_loop fuel d (drop chunk buffer) (size - chunk) (offset + chunk) (written + chunk)
              w₂))
