-- ===== src/Strings/Tests.antt =====
-- Copies, comparisons and searches on short memories.
use Prim.Native.Nat.{min}
use cs162_group.Prelude.{
  ℕ, ◌+◌, ◌-◌, ◌%◌, ◌≡◌, refl, not, none, some, List, [], ◌∷◌, ◌++◌, Returns, arith, ltb, ◌==◌,
  if◌then◌else◌, get_or, length, inl, inr,
}
use cs162_group.Bitmap.Range.{within}
use cs162_group.Strings.{
  memcpy, memmove, memset, strcmp, strchr, find_char, strcspn, strspn, strlen, strrchr,
}
use cs162_group.Strings.Copy.{Put, memcpy-Put, memmove-Put, memset-Put}
use cs162_group.Strings.Compare.{AllBytes, lexical, strcmp-lexical}
use cs162_group.Strings.Search.{
  Found, member, prefix_length, strlen-length, strchr-Found, strcspn-prefix_length,
}
use cs162_group.Strings.Build.{strlcpy, strtok_r}
use cs162_group.Strings.Bound.{strlcpy-bytes}

abbrev six : List ℕ
six = 1 ∷ 2 ∷ 3 ∷ 4 ∷ 5 ∷ 0 ∷ []

memmove-Put_example :
    Returns (memmove 0 2 4 six) λ r.
      Put six 0 4 (λ j. get_or six (2 + (j - 0)) 0) r.1 × (r.0 ≡ (if ltb 0 2 then 0 + 4 else 0))
memmove-Put_example = memmove-Put six 0 2 4 (omega arith) (omega arith)

memcpy-Put_example :
    Returns (memcpy 3 0 3 six) λ r. Put six 3 3 (λ j. get_or six (0 + (j - 3)) 0) r.1 × (r.0 ≡ 3)
memcpy-Put_example = memcpy-Put six 3 0 3 (omega arith) (omega arith) (inr (omega arith))

memset-Put_example : Returns (memset 1 260 3 six) λ r. Put six 1 3 (λ j. 260 % 256) r.1 × (r.0 ≡ 1)
memset-Put_example = memset-Put six 1 260 3 (omega arith)

three-AllBytes : AllBytes (1 ∷ 2 ∷ 3 ∷ [])
three-AllBytes = (omega arith, (omega arith, (omega arith, tt)))

one-AllBytes : AllBytes (2 ∷ [])
one-AllBytes = (omega arith, tt)

strcmp-lexical_example :
    strcmp ((1 ∷ 2 ∷ 3 ∷ []) ++ 0 ∷ []) ((2 ∷ []) ++ 0 ∷ [])
    ≡ some (lexical (1 ∷ 2 ∷ 3 ∷ []) (2 ∷ []))
strcmp-lexical_example = strcmp-lexical (1 ∷ 2 ∷ 3 ∷ []) (2 ∷ []) [] [] three-AllBytes one-AllBytes

strlen-length_example :
    strlen ((1 ∷ 2 ∷ 3 ∷ []) ++ 0 ∷ 7 ∷ []) ≡ some (length {A = ℕ} (1 ∷ 2 ∷ 3 ∷ []))
strlen-length_example = strlen-length (1 ∷ 2 ∷ 3 ∷ []) (7 ∷ []) three-AllBytes

strchr-Found_example :
    Returns
      (strchr ((1 ∷ 2 ∷ 3 ∷ []) ++ 0 ∷ 2 ∷ []) 258)
      (Found (258 % 256) ((1 ∷ 2 ∷ 3 ∷ []) ++ 0 ∷ []))
strchr-Found_example = strchr-Found (1 ∷ 2 ∷ 3 ∷ []) (2 ∷ []) 258 three-AllBytes

strcspn-prefix_length_example :
    (strcspn ((1 ∷ 2 ∷ 3 ∷ []) ++ 0 ∷ []) ((2 ∷ []) ++ 0 ∷ [])
      ≡ some (prefix_length (λ x. not (member x (2 ∷ []))) (1 ∷ 2 ∷ 3 ∷ [])))
    × (strspn ((1 ∷ 2 ∷ 3 ∷ []) ++ 0 ∷ []) ((2 ∷ []) ++ 0 ∷ [])
        ≡ some (prefix_length (λ x. member x (2 ∷ [])) (1 ∷ 2 ∷ 3 ∷ [])))
strcspn-prefix_length_example =
    strcspn-prefix_length (1 ∷ 2 ∷ 3 ∷ []) (2 ∷ []) [] [] three-AllBytes one-AllBytes

-- A string of two at the end of a memory, copied to its start.
abbrev eight : List ℕ
eight = 9 ∷ 9 ∷ 9 ∷ 9 ∷ 9 ∷ 65 ∷ 66 ∷ 0 ∷ []

program : Unit {0}
unfolding strlen strtok_r find_char strrchr
program = tt

strlcpy-bytes_example : Returns (strlcpy 0 5 2 eight) λ r.
    (r.0 ≡ 2)
    × (length r.1 ≡ length eight)
    × ((j : ℕ)
        → get_or r.1 j 0 ≡ (
            if j == 0 + min 2 (2 - 1)
            then 0
            else if within 0 (min 2 (2 - 1)) j
            then get_or eight (5 + (j - 0)) 0
            else get_or eight j 0))
unfolding program
strlcpy-bytes_example =
    strlcpy-bytes eight 0 5 2 2 refl (omega arith) (omega arith) (inl (omega arith))

-- The tokens of "  A B".
tokens :
    strtok_r (some 0) (32 ∷ 0 ∷ []) 0 (32 ∷ 32 ∷ 65 ∷ 32 ∷ 66 ∷ 0 ∷ [])
    ≡ some (some 2, 4, 32 ∷ 32 ∷ 65 ∷ 0 ∷ 66 ∷ 0 ∷ [])
unfolding program
tokens = refl

no_terminator : strrchr (65 ∷ 0 ∷ []) 0 ≡ some none
unfolding program
no_terminator = refl
