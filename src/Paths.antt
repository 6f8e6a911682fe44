-- ===== src/Paths.antt =====
-- pintos/src/filesys/filesys.c: the splitting of paths into parts. `get_next_part` reads a C string in
-- memory; for `dirname` and `basename` a path is the bytes of its string without the terminator, and
-- an index `i` from the back is the number `n` of bytes up to it, so that -1 is 0. `malloc` is taken to
-- succeed. The system's calls on files are not modelled.
pub mod Parts
pub mod Names
mod Tests
use cs162_group.Prelude.{
  ℕ, zero, suc, ◌+◌, ◌-◌, Bool, true, false, not, Option, none, some, List, [], ◌∷◌, ◌>>=◌, ltb,
  ◌==◌, ◌||◌, if◌then◌else◌, length, get_or, set, take, drop,
}
use cs162_group.Prelude.Int.{ℤ, pos, negsuc}
use cs162_group.Directory.{name_max}

abbrev pub slash : ℕ
slash = 47

abbrev pub skip_slashes : List ℕ → Option (List ℕ)
skip_slashes [] = none
skip_slashes (x ∷ src) = if x == slash then skip_slashes src else some (x ∷ src)

-- The copy of a part to `part` from place `i` on: where `src` is then, or nothing if the part is too
-- long, and the buffer.
unfoldable pub copy_part : ℕ → List ℕ → List ℕ → Option (Option (List ℕ) × List ℕ)
copy_part i part [] = none
copy_part i part (x ∷ src) =
    let more = copy_part (i + 1) (set part i x) src in
    if x == slash || x == 0
    then some (some (x ∷ src), set part i 0)
    else if ltb i name_max
    then more
    else some (none, part)

abbrev pub at_end : List ℕ → Bool
at_end [] = false
at_end (x ∷ src) = x == 0

-- The result, the buffer, and where the source pointer is.
unfoldable pub get_next_part : List ℕ → List ℕ → Option (ℤ × List ℕ × List ℕ)
get_next_part part srcp = do
  src ← skip_slashes srcp
  if at_end src then some (pos 0, part, srcp) else (do
    (end, part') ← copy_part 0 part src
    elim end [ none ↦ some (negsuc 0, part', srcp) | some src' ↦ some (pos 1, part', src') ])

-- `for (; i >= 0 && path_copy[i] == '/'; i--)`.
unfoldable pub back_slashes : List ℕ → ℕ → ℕ
back_slashes path zero = 0
back_slashes path (suc i) =
    let less = back_slashes path i in if get_or path i 0 == slash then less else suc i

-- `for (; i >= 0 && path_copy[i] != '/'; i--)`.
unfoldable pub back_part : List ℕ → ℕ → ℕ
back_part path zero = 0
back_part path (suc i) =
    let less = back_part path i in if get_or path i 0 == slash then suc i else less

unfoldable pub dirname : List ℕ → List ℕ
unfolding back_slashes back_part
dirname path =
    let last = back_slashes path (length path) in
    let start = back_part path (last - 1) in
    let end = back_slashes path (start - 1) in
    if length path == 0
    then slash ∷ []
    else if last == 0
    then path
    else if start == 0
    then 46 ∷ []
    else if end == 0
    then slash ∷ []
    else take end path

unfoldable pub basename : List ℕ → List ℕ
unfolding back_slashes back_part
basename path =
    let last = back_slashes path (length path) in
    if length path == 0
    then []
    else if last == 0
    then slash ∷ []
    else drop (back_part path last) (take last path)
