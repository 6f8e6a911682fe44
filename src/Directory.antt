-- ===== src/Directory.antt =====
-- pintos/src/filesys/directory.c: a directory is an open inode whose bytes are slots of 20 bytes, with a
-- position for `dir_readdir`. Names are C strings in memory. `calloc` is taken to succeed; the printing
-- of the tree is not modelled.
pub mod Names
pub mod Lookup
pub mod Slots
pub mod Add
pub mod Enter
pub mod Sample
mod Tests
use cs162_group.Prelude.{
  ℕ, zero, suc, ◌+◌, ◌*◌, ◌/◌, Bool, true, false, not, Option, none, some, List, [], ◌∷◌, ◌++◌,
  ◌>>=◌, ltb, ◌==◌, ◌&&◌, ◌||◌, if◌then◌else◌, get_or, length, take, drop,
}
use cs162_group.Bitmap.{Bitmap}
use cs162_group.Store.{Store}
use cs162_group.Store.Words.{decode, encode}
use cs162_group.Volume.{Volume}
use cs162_group.Inode.{InodeDisk}
use cs162_group.Inode.Read.{inode_read_at}
use cs162_group.Extend.Make.{inode_create}
use cs162_group.Open.{
  OpenInodes, node_at, inode_open, inode_reopen, inode_close, inode_remove, inode_set_parent,
  inode_is_dir,
}
use cs162_group.Open.Write.{volume, inode_write_at}
use cs162_group.Strings.{strcmp, strlen, load}
use cs162_group.Strings.Build.{is_zero, strlcpy}

-- `struct dir`.
pub record Dir : Type 0 where
  pub inode : ℕ
  pub pos : ℕ

-- `struct dir_entry`.
pub record DirEntry : Type 0 where
  pub inode_sector : ℕ
  pub name : List ℕ
  pub in_use : Bool

abbrev pub name_max : ℕ
name_max = 14

abbrev pub entry_size : ℕ
entry_size = 20

abbrev pub root_dir_sector : ℕ
root_dir_sector = 1

-- The fields in the 20 bytes of a slot.
abbrev pub to_entry : List ℕ → DirEntry
to_entry bytes = record {
  inode_sector = get_or (decode (take 4 bytes)) 0 0;
  name = take (name_max + 1) (drop 4 bytes);
  in_use = not (get_or bytes 19 0 == 0);
}

abbrev pub bool_byte : Bool → ℕ
bool_byte true = 1
bool_byte false = 0

abbrev pub of_entry : DirEntry → List ℕ
of_entry e = encode (e.inode_sector ∷ []) ++ (e.name ++ bool_byte e.in_use ∷ [])

-- The slots of a file, and one more round for the read that comes short.
abbrev pub rounds : InodeDisk → ℕ
rounds d = suc (d.length' / entry_size)

-- A string over what is in a buffer.
unfoldable pub copy_name : List ℕ → List ℕ → Option (List ℕ)
unfolding strlcpy
copy_name buffer src = do
  (_, mem) ← strlcpy 0 (length buffer) (length buffer) (buffer ++ src)
  some (take (length buffer) mem)

-- `e.in_use && !strcmp (name, e.name)`.
abbrev pub is_match : List ℕ → DirEntry → Option Bool
is_match name e = if e.in_use then (do z ← strcmp name e.name; some (is_zero z)) else some false

module _ (store : Store) where
  open store use {State}

  -- The loop of `lookup`: the entry and the offset.
  unfoldable pub lookup_loop :
      ℕ → InodeDisk → List ℕ → ℕ → State → Option (Option (DirEntry × ℕ) × State)
  lookup_loop zero d name ofs w = none
  lookup_loop (suc fuel) d name ofs w = do
    (bytes, w') ← inode_read_at store d entry_size ofs w
    if length bytes == entry_size
        then (do
          found ← is_match name (to_entry bytes)
          if found
              then some (some (to_entry bytes, ofs), w')
              else lookup_loop fuel d name (ofs + entry_size) w')
        else some (none, w')

  unfoldable pub lookup : Dir → List ℕ → OpenInodes → State → Option (Option (DirEntry × ℕ) × State)
  unfolding lookup_loop
  lookup dir name t w = do
    n ← node_at dir.inode t.nodes
    lookup_loop (rounds n.data') n.data' name 0 w

  -- The loop of `dir_add` for a free slot: its offset, and the bytes of `e`, of which a short read
  -- changes the first ones.
  unfoldable pub free_slot : ℕ → InodeDisk → List ℕ → ℕ → State → Option ((ℕ × List ℕ) × State)
  free_slot zero d e ofs w = none
  free_slot (suc fuel) d e ofs w = do
    (bytes, w') ← inode_read_at store d entry_size ofs w
    let e' = bytes ++ drop (length bytes) e
    if length bytes == entry_size && (to_entry bytes).in_use
        then free_slot fuel d e' (ofs + entry_size) w'
        else some ((ofs, e'), w')

  -- The loop of `dir_readdir`: the entry, if there is one, and the new position.
  unfoldable pub next_entry : ℕ → InodeDisk → ℕ → State → Option ((Option DirEntry × ℕ) × State)
  next_entry zero d pos w = none
  next_entry (suc fuel) d pos w = do
    (bytes, w') ← inode_read_at store d entry_size pos w
    if length bytes == entry_size
        then (if (to_entry bytes).in_use
            then some ((some (to_entry bytes), pos + entry_size), w')
            else next_entry fuel d (pos + entry_size) w')
        else some ((none, pos), w')

  -- `name` is the buffer before; the result is the buffer with the name.
  unfoldable pub dir_readdir :
      Dir → List ℕ → OpenInodes → State → Option (Option (List ℕ) × Dir × State)
  unfolding next_entry copy_name
  dir_readdir dir name t w = do
    n ← node_at dir.inode t.nodes
    ((found, pos), w') ← next_entry (rounds n.data') n.data' dir.pos w
    let dir' : Dir = record dir { pos = pos }
    elim found [
      | none ↦ some (none, dir', w')
      | some e ↦ (do name' ← copy_name name e.name; some (some name', dir', w'))
    ]

-- A null inode gives a null pointer.
unfoldable pub dir_open : Option ℕ → Option Dir
dir_open none = none
dir_open (some inode) = some (record { inode = inode; pos = 0 })

unfoldable pub dir_reopen : Dir → OpenInodes → Option (Option Dir × OpenInodes)
unfolding dir_open
dir_reopen dir t = do t' ← inode_reopen dir.inode t; some (dir_open (some dir.inode), t')

unfoldable pub dir_get_inode : Dir → ℕ
dir_get_inode dir = dir.inode

unfoldable pub dir_is_dir : Dir → OpenInodes → Option Bool
dir_is_dir dir t = inode_is_dir dir.inode t

module _ (v : Volume) where
  open v use {State}

  unfoldable pub dir_create : ℕ → ℕ → State → Option (Bool × State)
  dir_create sector entry_cnt w = inode_create v sector (entry_cnt * entry_size) true w

  unfoldable pub dir_open_root : OpenInodes → State → Option (Option Dir × OpenInodes × State)
  unfolding dir_open
  dir_open_root t w = do
    (p, t', w') ← inode_open v root_dir_sector t w
    some (dir_open (some p), t', w')

  unfoldable pub dir_close : Option Dir → OpenInodes → State → Option (OpenInodes × State)
  dir_close none t w = some (t, w)
  dir_close (some dir) t w = inode_close v dir.inode t w

module _ (store : Store) (has_file : Bool)
    (write_map : Bitmap → store.State → Option (Bool × store.State)) where
  open store use {State}

  abbrev pub vol : Volume
  vol = volume store has_file write_map

  -- The inode, or a null pointer.
  unfoldable pub dir_lookup :
      Dir → List ℕ → OpenInodes → Bitmap × State → Option (Option ℕ × OpenInodes × (Bitmap × State))
  unfolding lookup
  dir_lookup dir name t (m, w) = do
    dot ← strcmp name (46 ∷ 0 ∷ [])
    if is_zero dot
        then (do t' ← inode_reopen dir.inode t; some (some dir.inode, t', (m, w)))
        else (do
          (found, w') ← lookup store dir name t w
          elim found [
            | none ↦ some (none, t, (m, w'))
            | some (e, ofs) ↦ (do
              (p, t', w'') ← inode_open vol e.inode_sector t (m, w')
              some (some p, t', w''))
          ])

  -- From `done`'s other side on: the slot is written. `e` is what the variable holds at first.
  unfoldable pub add_entry :
      Dir
      → List ℕ
      → ℕ
      → List ℕ
      → OpenInodes
      → Bitmap × State
      → Option (Bool × OpenInodes × (Bitmap × State))
  unfolding free_slot copy_name
  add_entry dir name inode_sector e t (m, w) = do
    n ← node_at dir.inode t.nodes
    ((ofs, e'), w₁) ← free_slot store (rounds n.data') n.data' e 0 w
    name' ← copy_name (to_entry e').name name
    let slot = of_entry (record { inode_sector = inode_sector; name = name'; in_use = true })
    (written, t', w₂) ←
        inode_write_at store has_file write_map dir.inode slot entry_size ofs t (m, w₁)
    some (written == entry_size, t', w₂)

  unfoldable pub dir_add :
      Dir
      → List ℕ
      → ℕ
      → List ℕ
      → OpenInodes
      → Bitmap × State
      → Option (Bool × OpenInodes × (Bitmap × State))
  unfolding lookup add_entry
  dir_add dir name inode_sector e t (m, w) = do
    first ← load name 0
    len ← strlen name
    if first == 0 || ltb name_max len then some (false, t, (m, w)) else (do
      (found, w₁) ← lookup store dir name t w
      elim found [
        | some _ ↦ some (false, t, (m, w₁))
        | none ↦ (do
          (success, t', w₂) ← add_entry dir name inode_sector e t (m, w₁)
          if success
              then (do
                (p, t'', w₃) ← inode_open vol inode_sector t' w₂
                t₃ ← inode_set_parent p dir.inode t''
                some (true, t₃, w₃))
              else some (false, t', w₂))
      ])

  -- The entry is erased, the inode marked and closed.
  unfoldable pub erase_entry :
      Dir
      → DirEntry
      → ℕ
      → ℕ
      → OpenInodes
      → Bitmap × State
      → Option (Bool × OpenInodes × (Bitmap × State))
  erase_entry dir e ofs inode t w = do
    let slot = of_entry (record e { in_use = false })
    (written, t₁, w₁) ← inode_write_at store has_file write_map dir.inode slot entry_size ofs t w
    if written == entry_size
        then (do
          t₂ ← inode_remove inode t₁
          (t₃, w₃) ← inode_close vol inode t₂ w₁
          some (true, t₃, w₃))
        else (do (t₃, w₃) ← inode_close vol inode t₁ w₁; some (false, t₃, w₃))

  unfoldable pub dir_remove :
      Dir → List ℕ → OpenInodes → Bitmap × State → Option (Bool × OpenInodes × (Bitmap × State))
  unfolding lookup erase_entry
  dir_remove dir name t (m, w) = do
    (found, w₁) ← lookup store dir name t w
    elim found [
      | none ↦ some (false, t, (m, w₁))
      | some (e, ofs) ↦ (do
        (p, t', w₂) ← inode_open vol e.inode_sector t (m, w₁)
        erase_entry dir e ofs p t' w₂)
    ]
