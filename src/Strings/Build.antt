-- ===== src/Strings/Build.antt =====
-- The functions of string.c that use the others: `strstr`, `strtok_r`, `strlcpy` and `strlcat`.
use cs162_group.Prelude.{
  ℕ, zero, suc, ◌+◌, ◌-◌, Bool, true, false, Option, none, some, List, ◌>>=◌, ltb, leb, ◌==◌, ◌&&◌,
  if◌then◌else◌, length, drop,
}
use cs162_group.Prelude.Int.{ℤ, pos, negsuc}
use cs162_group.Strings.{load, store, memcpy, memcmp, find_char, strlen, is_in}

abbrev pub is_zero : ℤ → Bool
is_zero (pos zero) = true
is_zero (pos (suc n)) = false
is_zero (negsuc n) = false

-- The loop of `strstr` from `i` on, on the rounds left.
unfoldable pub strstr_loop : ℕ → ℕ → ℕ → List ℕ → List ℕ → Option (Option ℕ)
strstr_loop zero i needle_len haystack needle = some none
strstr_loop (suc k) i needle_len haystack needle = do
  order ← memcmp needle_len (drop i haystack) needle
  let rest = strstr_loop k (i + 1) needle_len haystack needle
  if is_zero order then some (some i) else rest

unfoldable pub strstr : List ℕ → List ℕ → Option (Option ℕ)
unfolding strstr_loop
strstr haystack needle = do
  haystack_len ← strlen haystack
  needle_len ← strlen needle
  if leb needle_len haystack_len
      then strstr_loop (haystack_len - needle_len + 1) 0 needle_len haystack needle
      else some none

-- The two loops of `strtok_r`, on fuel: whether a token starts, and where the first loop ends; where the
-- second ends.
unfoldable pub skip_delimiters : ℕ → List ℕ → ℕ → List ℕ → Option (Bool × ℕ)
skip_delimiters zero delimiters s mem = none
skip_delimiters (suc fuel) delimiters s mem = do
  b ← load mem s
  found ← find_char delimiters b
  let rest = skip_delimiters fuel delimiters (s + 1) mem
  if is_in found then (if b == 0 then some (false, s) else rest) else some (true, s)

unfoldable pub skip_token : ℕ → List ℕ → ℕ → List ℕ → Option ℕ
skip_token zero delimiters s mem = none
skip_token (suc fuel) delimiters s mem = do
  b ← load mem s
  found ← find_char delimiters b
  let rest = skip_token fuel delimiters (s + 1) mem
  if is_in found then some s else rest

abbrev pub start_from : Option ℕ → ℕ → ℕ
start_from none save_ptr = save_ptr
start_from (some s) save_ptr = s

-- The token, the new `*save_ptr` and the memory. A pointer inside the memory leaves fewer steps than
-- the memory has bytes.
unfoldable pub strtok_r : Option ℕ → List ℕ → ℕ → List ℕ → Option (Option ℕ × ℕ × List ℕ)
unfolding skip_delimiters skip_token
strtok_r s delimiters save_ptr mem = do
  (more, token) ← skip_delimiters (suc (length mem)) delimiters (start_from s save_ptr) mem
  if more
      then (do
        end ← skip_token (suc (length mem)) delimiters token mem
        b ← load mem end
        if b == 0
            then some (some token, end, mem)
            else (do mem' ← store mem end 0; some (some token, end + 1, mem')))
      else some (none, token, mem)

abbrev pub at_most : ℕ → ℕ → ℕ
at_most n limit = if ltb n limit then n else limit

-- The result is the length of `src`, and the memory.
unfoldable pub strlcpy : ℕ → ℕ → ℕ → List ℕ → Option (ℕ × List ℕ)
strlcpy dst src size mem = do
  src_len ← strlen (drop src mem)
  if ltb 0 size
      then (do
        (_, mem₁) ← memcpy dst src (at_most src_len (size - 1)) mem
        mem₂ ← store mem₁ (dst + at_most src_len (size - 1)) 0
        some (src_len, mem₂))
      else some (src_len, mem)

unfoldable pub strlcat : ℕ → ℕ → ℕ → List ℕ → Option (ℕ × List ℕ)
strlcat dst src size mem = do
  src_len ← strlen (drop src mem)
  dst_len ← strlen (drop dst mem)
  if ltb 0 size && ltb dst_len size
      then (do
        let copy_cnt = at_most src_len (size - dst_len - 1)
        (_, mem₁) ← memcpy (dst + dst_len) src copy_cnt mem
        mem₂ ← store mem₁ (dst + dst_len + copy_cnt) 0
        some (src_len + dst_len, mem₂))
      else some (src_len + dst_len, mem)
