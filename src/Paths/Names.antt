-- ===== src/Paths/Names.antt =====
-- A path of a directory and a name is split into the two.
use cs162_group.Prelude.{
  ℕ, zero, suc, ◌+◌, ◌-◌, ◌≤◌, ◌<◌, ◌≡◌, ◌≢◌, refl, sym, ap, ◌∙◌, true, false, List, [], ◌∷◌, ◌++◌,
  ◌==◌, arith, length, length-append, get_or, take, replicate, length-replicate,
}
use mathlib.Core.List.{append_assoc}
use cs162_group.Store.Pieces.{take-append, get_or-append}
use cs162_group.Directory.Slots.{drop_left, get_or-left}
use cs162_group.Paths.{slash, back_slashes, back_part, dirname, basename}

-- A part of a path: bytes none of which is a slash.
abbrev pub IsPart : List ℕ → Type 0
IsPart [] = Unit
IsPart (x ∷ xs) = (x ≢ slash) × IsPart xs

get_or-IsPart : (xs : List ℕ) (i : ℕ) → IsPart xs → i < length xs → get_or xs i 0 ≢ slash
get_or-IsPart [] i h lt = absurd (omega arith)
get_or-IsPart (x ∷ xs) zero h lt = h.0
get_or-IsPart (x ∷ xs) (suc i) h lt = get_or-IsPart xs i h.1 (omega arith)

-- Back over a run of slashes to a byte that is none, or to the start.
back_slashes-run :
    (path : List ℕ) (n k : ℕ)
    → ((i : ℕ) → n ≤ i → i < n + k → get_or path i 0 ≡ slash)
    → back_slashes path (n + k) ≡ back_slashes path n
unfolding back_slashes
back_slashes-run path n zero h = ap (back_slashes path) (omega arith)
back_slashes-run path n (suc k) h =
    let e : n + suc k ≡ suc (n + k) = omega arith in
    let s : (get_or path (n + k) 0 == slash) ≡ true =
      ground (arith, h (n + k) (omega arith) (omega arith)) in
    rw (e, s) (back_slashes-run path n k (λ i le lt. h i le (omega (arith, lt))))

back_slashes-stop :
    (path : List ℕ) (i : ℕ) → get_or path i 0 ≢ slash → back_slashes path (suc i) ≡ suc i
unfolding back_slashes
back_slashes-stop path i h =
    let s : (get_or path i 0 == slash) ≡ false = ground (arith, h) in rw s refl

-- Back over a part to the slash before it.
back_part-run :
    (path : List ℕ) (n k : ℕ)
    → ((i : ℕ) → n ≤ i → i < n + k → get_or path i 0 ≢ slash)
    → back_part path (n + k) ≡ back_part path n
unfolding back_part
back_part-run path n zero h = ap (back_part path) (omega arith)
back_part-run path n (suc k) h =
    let e : n + suc k ≡ suc (n + k) = omega arith in
    let s : (get_or path (n + k) 0 == slash) ≡ false =
      ground (arith, h (n + k) (omega arith) (omega arith)) in
    rw (e, s) (back_part-run path n k (λ i le lt. h i le (omega (arith, lt))))

back_part-stop : (path : List ℕ) (i : ℕ) → get_or path i 0 ≡ slash → back_part path (suc i) ≡ suc i
unfolding back_part
back_part-stop path i h = let s : (get_or path i 0 == slash) ≡ true = ground (arith, h) in rw s refl

-- The last byte of a directory's path is not a slash.
abbrev pub EndsPart : List ℕ → Type 0
EndsPart dir = (i : ℕ) × (length dir ≡ suc i) × (get_or dir i 0 ≢ slash)

get_or-slashes : (k i : ℕ) → i < k → get_or (replicate k slash) i 0 ≡ slash
get_or-slashes zero i lt = absurd (omega arith)
get_or-slashes (suc k) zero lt = refl
get_or-slashes (suc k) (suc i) lt = get_or-slashes k i (omega arith)

-- The runs of a path: a directory, slashes, a name and slashes.
module _ (dir base : List ℕ) (s z : ℕ) (ends : EndsPart dir) (part : IsPart base)
    (some' : 0 < length base) where
  abbrev before : List ℕ
  before = replicate (suc s) slash

  abbrev after : List ℕ
  after = replicate z slash

  abbrev path : List ℕ
  path = dir ++ (before ++ (base ++ after))

  abbrev d : ℕ
  d = length dir

  abbrev b : ℕ
  b = length base

  length-path : length path ≡ d + suc s + b + z
  length-path = omega (
    arith,
    length-append dir (before ++ (base ++ after)),
    length-append before (base ++ after),
    length-append base after,
    length-replicate (suc s) slash,
    length-replicate z slash,
  )

  in_after : (i : ℕ) → d + suc s + b ≤ i → i < d + suc s + b + z → get_or path i 0 ≡ slash
  in_after i le lt =
      get_or-append dir (before ++ (base ++ after)) i (i - d) 0 (omega (arith, le))
      ∙ get_or-append before (base ++ after) (i - d) (i - d - suc s) 0
          (omega (arith, le, length-replicate (suc s) slash))
      ∙ get_or-append base after (i - d - suc s) (i - d - suc s - b) 0 (omega (arith, le))
      ∙ get_or-slashes z (i - d - suc s - b) (omega (arith, le, lt))

  in_base : (i : ℕ) → d + suc s ≤ i → i < d + suc s + b → get_or path i 0 ≢ slash
  in_base i le lt e =
      let at =
        get_or-append dir (before ++ (base ++ after)) i (i - d) 0 (omega (arith, le))
        ∙ get_or-append before (base ++ after) (i - d) (i - d - suc s) 0
            (omega (arith, le, length-replicate (suc s) slash))
        ∙ get_or-left base after (i - d - suc s) (omega (arith, le, lt)) in
      get_or-IsPart base (i - d - suc s) part (omega (arith, le, lt)) (sym at ∙ e)

  in_before : (i : ℕ) → d ≤ i → i < d + suc s → get_or path i 0 ≡ slash
  in_before i le lt =
      get_or-append dir (before ++ (base ++ after)) i (i - d) 0 (omega (arith, le))
      ∙ get_or-left before (base ++ after) (i - d)
          (omega (arith, le, lt, length-replicate (suc s) slash))
      ∙ get_or-slashes (suc s) (i - d) (omega (arith, le, lt))

  last_lem : back_slashes path (length path) ≡ d + suc s + b
  last_lem =
      let stop : d + suc s + b ≡ suc (d + s + b) = omega arith in
      ap (back_slashes path) length-path
      ∙ back_slashes-run path (d + suc s + b) z in_after
      ∙ ap (back_slashes path) stop
      ∙ back_slashes-stop path (d + s + b)
          (in_base (d + s + b) (omega (arith, some')) (omega arith))
      ∙ sym stop

  start_lem : (k : ℕ) → k ≤ b → back_part path (d + suc s + k) ≡ d + suc s
  start_lem k le =
      let stop : d + suc s ≡ suc (d + s) = omega arith in
      back_part-run path (d + suc s) k (λ i h h'. in_base i h (omega (arith, h', le)))
      ∙ ap (back_part path) stop
      ∙ back_part-stop path (d + s) (in_before (d + s) (omega arith) (omega arith))
      ∙ sym stop

  end_lem : back_slashes path (d + s) ≡ d
  end_lem =
      let (i, len, ne) = ends in
      back_slashes-run path d s (λ j h h'. in_before j h (omega (arith, h')))
      ∙ ap (back_slashes path) len
      ∙ back_slashes-stop path i
          (λ e. ne (sym (get_or-left dir (before ++ (base ++ after)) i (omega (arith, len))) ∙ e))
      ∙ sym len

  name_lem : basename path ≡ base
  unfolding basename
  name_lem =
      let start = start_lem b (omega arith) in
      let more : (length path == 0) ≡ false = ground (arith, length-path) in
      let found : (d + suc s + b == 0) ≡ false = ground arith in
      let front : take (d + suc s + b) path ≡ (dir ++ before) ++ base =
        ap (take (d + suc s + b)) (
          sym (append_assoc dir before (base ++ after))
          ∙ sym (append_assoc (dir ++ before) base after))
        ∙ take-append ((dir ++ before) ++ base) after (d + suc s + b) (
            omega (
              arith,
              length-append (dir ++ before) base,
              length-append dir before,
              length-replicate (suc s) slash,
            )) in
      rw (more, last_lem, found, start, front)
        (drop_left (dir ++ before) base (d + suc s)
          (omega (arith, length-append dir before, length-replicate (suc s) slash)))

  dir_lem : dirname path ≡ dir
  unfolding dirname
  dir_lem =
      let (i, len, _) = ends in
      let back : d + suc s + b - 1 ≡ d + suc s + (b - 1) = omega (arith, some') in
      let start = ap (back_part path) back ∙ start_lem (b - 1) (omega arith) in
      let more : (length path == 0) ≡ false = ground (arith, length-path) in
      let found : (d + suc s + b == 0) ≡ false = ground arith in
      let started : (d + suc s == 0) ≡ false = ground arith in
      let less : d + suc s - 1 ≡ d + s = omega arith in
      let ended : (d == 0) ≡ false = ground (arith, len) in
      rw (more, last_lem, found, start, started, less, end_lem, ended)
        (take-append dir (before ++ (base ++ after)) d refl)

-- A path of a directory that does not end in a slash, one or more slashes, a name without slashes, and any
-- slashes after it is split into the directory and the name.
pub dirname-basename :
    (dir base : List ℕ) (s z : ℕ)
    → EndsPart dir
    → IsPart base
    → 0 < length base
    → (dirname (dir ++ (replicate (suc s) slash ++ (base ++ replicate z slash))) ≡ dir)
      × (basename (dir ++ (replicate (suc s) slash ++ (base ++ replicate z slash))) ≡ base)
dirname-basename dir base s z ends part some' =
    (dir_lem dir base s z ends part some', name_lem dir base s z ends part some')
