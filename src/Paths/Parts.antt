-- ===== src/Paths/Parts.antt =====
-- The next part of a path.
use cs162_group.Prelude.{
  ℕ, zero, suc, ◌+◌, ◌≤◌, ◌<◌, ◌≡◌, refl, ap, ◌∙◌, true, false, List, [], ◌∷◌, ◌++◌, ◌==◌, ◌||◌,
  ◌>>=◌, arith, Bool-cases, inl, inr, some, none, length, ltb, set, replicate, Returns,
}
use cs162_group.Prelude.Int.{pos, negsuc}
use cs162_group.Strings.Compare.{AllBytes}
use cs162_group.Directory.{name_max}
use cs162_group.Paths.{slash, skip_slashes, copy_part, get_next_part}
use cs162_group.Paths.Names.{IsPart}

-- The list from place `i` on in place of what is there.
abbrev pub put_all : ℕ → List ℕ → List ℕ → List ℕ
put_all i [] part = part
put_all i (x ∷ xs) part = put_all (i + 1) xs (set part i x)

-- What may follow a part: a slash or the end of the string.
abbrev pub EndsHere : List ℕ → Type 0
EndsHere [] = ⊥
EndsHere (x ∷ xs) = (x == slash || x == 0) ≡ true

skip_lem : (k : ℕ) (src : List ℕ) → skip_slashes (replicate k slash ++ src) ≡ skip_slashes src
skip_lem zero src = refl
skip_lem (suc k) src = skip_lem k src

copy_lem :
    (name rest part : List ℕ) (i : ℕ)
    → AllBytes name
    → IsPart name
    → EndsHere rest
    → i + length name ≤ name_max
    → copy_part i part (name ++ rest)
      ≡ some (some rest, set (put_all i name part) (i + length name) 0)
unfolding copy_part
copy_lem [] [] part i h p ends fits = absurd ends
copy_lem [] (x ∷ rest) part i h p ends fits =
    rw ends (ap (λ n. some (some (x ∷ rest), set part n 0)) (omega arith))
copy_lem (x ∷ name) rest part i h p ends fits =
    let go : (x == slash || x == 0) ≡ false = ground (arith, h.0, p.0) in
    let room : ltb i name_max ≡ true = ground (arith, fits) in
    let more = copy_lem name rest (set part i x) (i + 1) h.1 p.1 ends (omega (arith, fits)) in
    rw (go, room)
      (more
        ∙ ap (λ n. some (some rest, set (put_all (i + 1) name (set part i x)) n 0)) (omega arith))

too_long :
    (name rest part : List ℕ) (i : ℕ)
    → AllBytes name
    → IsPart name
    → EndsHere rest
    → i ≤ name_max
    → name_max < i + length name
    → Returns (copy_part i part (name ++ rest)) λ r. r.0 ≡ none
unfolding copy_part
too_long [] rest part i h p ends le lt = absurd (omega (arith, le, lt))
too_long (x ∷ name) rest part i h p ends le lt =
    let go : (x == slash || x == 0) ≡ false = ground (arith, h.0, p.0) in
    elim (Bool-cases (ltb i name_max)) [
      | inl room ↦
          let (r, run, e) =
            too_long name rest (set part i x) (i + 1) h.1 p.1 ends (ground (arith, room))
              (omega (arith, lt)) in
          (r, rw (go, room) run, e)
      | inr full ↦ ((none, part), rw (go, full) refl, refl)
    ]

module _ (k : ℕ) (x : ℕ) (name rest part : List ℕ) (h : AllBytes (x ∷ name)) (p : IsPart (x ∷ name))
    (ends : EndsHere rest) where
  abbrev src : List ℕ
  src = replicate k slash ++ (x ∷ name ++ rest)

  skipped : skip_slashes src ≡ some (x ∷ (name ++ rest))
  skipped =
      let other : (x == slash) ≡ false = ground (arith, p.0) in
      skip_lem k (x ∷ (name ++ rest)) ∙ rw other refl

  part_short :
      length (x ∷ name) ≤ name_max
      → get_next_part part src
        ≡ some (pos 1, set (put_all 0 (x ∷ name) part) (length (x ∷ name)) 0, rest)
  unfolding get_next_part
  part_short fits =
      let go : (x == 0) ≡ false = ground (arith, h.0) in
      let copy : copy_part 0 part (x ∷ (name ++ rest))
          ≡ some (some rest, set (put_all 0 (x ∷ name) part) (length (x ∷ name)) 0) =
        copy_lem (x ∷ name) rest part 0 h p ends (omega (arith, fits))
        ∙ ap (λ n. some (some rest, set (put_all 0 (x ∷ name) part) n 0)) (omega arith) in
      rw (skipped, ◌>>=◌, go, copy) refl

  part_long :
      name_max < length (x ∷ name)
      → Returns (get_next_part part src) λ r. (r.0 ≡ negsuc 0) × (r.2 ≡ src)
  unfolding get_next_part
  part_long long =
      let go : (x == 0) ≡ false = ground (arith, h.0) in
      let ((e, part'), run, none') =
        too_long (x ∷ name) rest part 0 h p ends (omega arith) (omega (arith, long)) in
      let run' : copy_part 0 part (x ∷ (name ++ rest)) ≡ some (none, part') =
        run ∙ ap (λ q. some (q, part')) none' in
      ((negsuc 0, part', src), rw (skipped, ◌>>=◌, go, run') refl, (refl, refl))

part_end :
    (k : ℕ) (rest part : List ℕ)
    → get_next_part part (replicate k slash ++ 0 ∷ rest)
      ≡ some (pos 0, part, replicate k slash ++ 0 ∷ rest)
unfolding get_next_part
part_end k rest part = rw (skip_lem k (0 ∷ rest), ◌>>=◌) refl

-- After any slashes, a part of 1 to 14 bytes is copied with a terminator, gives 1 and moves the pointer to
-- the slash or the end of the string after it; a longer one gives -1 and leaves the pointer. With no
-- part left the result is 0, and the buffer and the pointer stay. The string is never read past its end.
pub get_next_part-parts :
    (k : ℕ) (name rest part : List ℕ)
    → AllBytes name
    → IsPart name
    → EndsHere rest
    → 0 < length name
    → (length name ≤ name_max
        → get_next_part part (replicate k slash ++ (name ++ rest))
          ≡ some (pos 1, set (put_all 0 name part) (length name) 0, rest))
      × (name_max < length name
          → Returns
              (get_next_part part (replicate k slash ++ (name ++ rest)))
              λ r. (r.0 ≡ negsuc 0) × (r.2 ≡ replicate k slash ++ (name ++ rest)))
      × ((tail : List ℕ)
          → get_next_part part (replicate k slash ++ 0 ∷ tail)
            ≡ some (pos 0, part, replicate k slash ++ 0 ∷ tail))
get_next_part-parts k [] rest part h p ends some' = absurd (omega (arith, some'))
get_next_part-parts k (x ∷ name) rest part h p ends some' = (
  part_short k x name rest part h p ends,
  part_long k x name rest part h p ends,
  (λ tail. part_end k tail part),
)
