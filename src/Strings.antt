-- ===== src/Strings.antt =====
-- pintos/src/lib/string.c. A pointer into a block of memory is an index into the list of its bytes, and
-- a result pointer is an index or null. A string is a list with a 0 in it; a read past the end of the
-- list is `none`. Pointers are not null.
pub mod Copy
pub mod Compare
pub mod Search
pub mod Build
pub mod Bound
mod Tests
use cs162_group.Prelude.{
  ℕ, zero, suc, ◌+◌, ◌-◌, ◌%◌, Bool, true, false, not, Option, none, some, List, [], ◌∷◌, ◌++◌,
  ◌>>=◌, ltb, leb, ◌==◌, ◌&&◌, if◌then◌else◌, get_elem?, set, length, replicate,
}
use cs162_group.Prelude.Int.{ℤ, pos, negsuc}

-- A byte of memory read, and written.
abbrev pub load : List ℕ → ℕ → Option ℕ
load mem p = get_elem? mem p

abbrev pub store : List ℕ → ℕ → ℕ → Option (List ℕ)
store mem p b = if ltb p (length mem) then some (set mem p b) else none

-- `*dst++ = *src++`, `size` times.
unfoldable pub copy_up : ℕ → ℕ → ℕ → List ℕ → Option (List ℕ)
copy_up zero dst src mem = some mem
copy_up (suc size) dst src mem = do
  b ← load mem src
  mem' ← store mem dst b
  copy_up size (dst + 1) (src + 1) mem'

-- `*--dst = *--src`, `size` times.
unfoldable pub copy_down : ℕ → ℕ → ℕ → List ℕ → Option (List ℕ)
copy_down zero dst src mem = some mem
copy_down (suc size) dst src mem = do
  b ← load mem (src - 1)
  mem' ← store mem (dst - 1) b
  copy_down size (dst - 1) (src - 1) mem'

-- The result is the pointer returned and the memory.
unfoldable pub memcpy : ℕ → ℕ → ℕ → List ℕ → Option (ℕ × List ℕ)
unfolding copy_up
memcpy dst src size mem = do mem' ← copy_up size dst src mem; some (dst, mem')

-- After the loop that counts up, `dst` is past the bytes that it wrote.
unfoldable pub memmove : ℕ → ℕ → ℕ → List ℕ → Option (ℕ × List ℕ)
unfolding copy_up copy_down
memmove dst src size mem =
    if ltb dst src
    then (do mem' ← copy_up size dst src mem; some (dst + size, mem'))
    else (do mem' ← copy_down size (dst + size) (src + size) mem; some (dst, mem'))

-- `value` is converted to a byte.
unfoldable pub fill : ℕ → ℕ → ℕ → List ℕ → Option (List ℕ)
fill zero dst value mem = some mem
fill (suc size) dst value mem = do
  mem' ← store mem dst (value % 256)
  fill size (dst + 1) value mem'

unfoldable pub memset : ℕ → ℕ → ℕ → List ℕ → Option (ℕ × List ℕ)
unfolding fill
memset dst value size mem = do mem' ← fill size dst value mem; some (dst, mem')

-- The functions that only read follow the lists of bytes from their pointers on.
abbrev pub greater_sign : ℕ → ℕ → ℤ
greater_sign a b = if ltb b a then pos 1 else negsuc 0

unfoldable pub memcmp : ℕ → List ℕ → List ℕ → Option ℤ
memcmp zero a b = some (pos 0)
memcmp (suc size) (x ∷ a) (y ∷ b) = if x == y then memcmp size a b else some (greater_sign x y)
memcmp (suc size) a b = none

abbrev pub order_sign : ℕ → ℕ → ℤ
order_sign a b = if ltb a b then negsuc 0 else if ltb b a then pos 1 else pos 0

unfoldable pub strcmp : List ℕ → List ℕ → Option ℤ
strcmp (x ∷ a) (y ∷ b) = if not (x == 0) && x == y then strcmp a b else some (order_sign x y)
strcmp a b = none

-- An index that is one further on.
abbrev pub later : Option (Option ℕ) → Option (Option ℕ)
later none = none
later (some none) = some none
later (some (some i)) = some (some (suc i))

unfoldable pub memchr : List ℕ → ℕ → ℕ → Option (Option ℕ)
memchr block ch zero = some none
memchr [] ch (suc size) = none
memchr (x ∷ block) ch (suc size) =
    if x == ch % 256 then some (some 0) else later (memchr block ch size)

-- The loop of `strchr`, where `c` is a `char`. The functions below that pass a byte of a string to `strchr`
-- call it at once, for a `char` that becomes an `int` and a `char` again stays the same.
unfoldable pub find_char : List ℕ → ℕ → Option (Option ℕ)
find_char [] c = none
find_char (x ∷ string) c =
    if x == c then some (some 0) else if x == 0 then some none else later (find_char string c)

-- `char c = c_`.
unfoldable pub strchr : List ℕ → ℕ → Option (Option ℕ)
unfolding find_char
strchr string c = find_char string (c % 256)

abbrev pub is_in : Option ℕ → Bool
is_in none = false
is_in (some i) = true

abbrev pub one_more : Option ℕ → Option ℕ
one_more none = none
one_more (some n) = some (suc n)

-- The bytes up to one that `stops`, or to the end of the string: `strcspn` and `strspn`.
unfoldable pub strcspn : List ℕ → List ℕ → Option ℕ
unfolding find_char
strcspn [] stop = none
strcspn (x ∷ string) stop = if x == 0 then some 0 else (do
  found ← find_char stop x
  let rest = one_more (strcspn string stop)
  if is_in found then some 0 else rest)

unfoldable pub strspn : List ℕ → List ℕ → Option ℕ
unfolding find_char
strspn [] skip = none
strspn (x ∷ string) skip = if x == 0 then some 0 else (do
  found ← find_char skip x
  let rest = one_more (strspn string skip)
  if is_in found then rest else some 0)

unfoldable pub strpbrk : List ℕ → List ℕ → Option (Option ℕ)
unfolding find_char
strpbrk [] stop = none
strpbrk (x ∷ string) stop = if x == 0 then some none else (do
  found ← find_char stop x
  let rest = later (strpbrk string stop)
  if is_in found then some (some 0) else rest)

-- `p` is the last place found, `i` the place of the list's head.
unfoldable pub strrchr_loop : List ℕ → ℕ → ℕ → Option ℕ → Option (Option ℕ)
strrchr_loop [] c i p = none
strrchr_loop (x ∷ string) c i p =
    if x == 0 then some p else strrchr_loop string c (suc i) (if x == c then some i else p)

unfoldable pub strrchr : List ℕ → ℕ → Option (Option ℕ)
unfolding strrchr_loop
strrchr string c = strrchr_loop string (c % 256) 0 none

unfoldable pub strlen : List ℕ → Option ℕ
strlen [] = none
strlen (x ∷ string) = if x == 0 then some 0 else one_more (strlen string)

unfoldable pub strnlen : List ℕ → ℕ → Option ℕ
strnlen [] maxlen = none
strnlen (x ∷ string) zero = some 0
strnlen (x ∷ string) (suc maxlen) = if x == 0 then some 0 else one_more (strnlen string maxlen)
