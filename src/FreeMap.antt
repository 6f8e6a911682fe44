-- ===== src/FreeMap.antt =====
-- pintos/src/filesys/free-map.c: sectors taken from and given back to a bitmap that is kept in a file.
-- The write of the bitmap to its file is a parameter: `write_map` gives whether the whole bitmap was
-- written, and the state of the rest of the file system. A panic is `none`.
pub mod Laws
mod Tests
use cs162_group.Prelude.{ℕ, Bool, true, false, Option, none, some, ◌>>=◌, ◌==◌, if◌then◌else◌, List}
use cs162_group.Bitmap.{
  Bitmap, assert, bitmap_error, bitmap_create, bitmap_mark, bitmap_all, bitmap_set_multiple,
  bitmap_scan_and_flip,
}

abbrev pub free_map_sector : ℕ
free_map_sector = 0

abbrev pub root_dir_sector : ℕ
root_dir_sector = 1

-- A bitmap with a bit for each sector, the two first marked.
unfoldable pub free_map_init : ℕ → (ℕ → List ℕ) → Option Bitmap
free_map_init size garbage = do
  m ← bitmap_create size garbage
  m₁ ← bitmap_mark m free_map_sector
  bitmap_mark m₁ root_dir_sector

module _ {S : Type 0} (has_file : Bool) (write_map : Bitmap → S → Option (Bool × S)) where
  -- The write that follows an allocation: none while there is no file.
  unfoldable pub store_map : Bitmap → S → Option (Bool × S)
  store_map m w = if has_file then write_map m w else some (true, w)

  -- `some sector` is a result of true with `*sectorp` set.
  unfoldable pub free_map_allocate : ℕ → Bitmap × S → Option (Option ℕ × (Bitmap × S))
  unfolding store_map
  free_map_allocate cnt (m, w) = do
    (sector, m₁) ← bitmap_scan_and_flip m 0 cnt false
    if sector == bitmap_error then some (none, (m₁, w)) else (do
      (written, w₁) ← store_map m₁ w
      if written
          then some (some sector, (m₁, w₁))
          else (do m₂ ← bitmap_set_multiple m₁ sector cnt false; some (none, (m₂, w₁))))

  -- The result of the write is not looked at.
  unfoldable pub free_map_release : ℕ → ℕ → Bitmap × S → Option (Bitmap × S)
  free_map_release sector cnt (m, w) = do
    all ← bitmap_all m sector cnt
    _ ← assert all
    m₁ ← bitmap_set_multiple m sector cnt false
    (_, w₁) ← write_map m₁ w
    some (m₁, w₁)
