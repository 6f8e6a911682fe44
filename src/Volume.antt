-- ===== src/Volume.antt =====
-- What `inode.c` uses of the file system below it: sectors through the cache and sectors from the
-- free map, over one state. The value `of_free_map` is the free map beside a store of sectors.
use cs162_group.Prelude.{ℕ, Bool, Option, some, ◌>>=◌}
use cs162_group.Block.{Data}
use cs162_group.Store.{Store}
use cs162_group.Bitmap.{Bitmap}
use cs162_group.FreeMap.{free_map_allocate, free_map_release}

pub record Volume : Type 1 where
  pub State : Type 0
  pub read : ℕ → State → Option (Data × State)
  pub write : ℕ → Data → State → Option State
  -- `free_map_allocate (1, &sector)`.
  pub allocate : State → Option (Option ℕ × State)
  -- `free_map_release (sector, 1)`.
  pub release : ℕ → State → Option State

module _ (store : Store) (has_file : Bool)
    (write_map : Bitmap → store.State → Option (Bool × store.State)) where
  open store use {State as Sectors}

  abbrev pub read_beside : ℕ → Bitmap × Sectors → Option (Data × (Bitmap × Sectors))
  read_beside s (m, w) = do (d, w') ← store.read s w; some (d, (m, w'))

  abbrev pub write_beside : ℕ → Data → Bitmap × Sectors → Option (Bitmap × Sectors)
  write_beside s d (m, w) = do w' ← store.write s d w; some (m, w')

  abbrev pub of_free_map : Volume
  of_free_map = record {
    State = Bitmap × Sectors;
    read = read_beside;
    write = write_beside;
    allocate = free_map_allocate has_file write_map 1;
    release = λ s. free_map_release has_file write_map s 1;
  }
