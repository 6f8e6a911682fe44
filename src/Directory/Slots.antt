-- ===== src/Directory/Slots.antt =====
-- A name that is copied into a slot, and the slots around it.
use Prim.Native.Nat.{min}
use cs162_group.Prelude.{
  ℕ, zero, suc, ◌+◌, ◌*◌, ◌-◌, ◌/◌, ◌%◌, ◌^◌, ◌<◌, ◌≡◌, refl, ap, ◌∙◌, false, not, some, List, [],
  ◌∷◌, ◌++◌, ◌>>=◌, ◌==◌, arith, Bool-cases, inl, inr, length, Returns, take, drop, get_or,
  length-append, length-take,
}
use mathlib.Core.Path.{ap₂}
use cs162_group.Store.Words.{decode, encode}
use cs162_group.Store.Pieces.{take-append, get_or-append}
use cs162_group.Strings.{strlen}
use cs162_group.Strings.Bound.{strlcpy-bytes}
use cs162_group.Strings.Compare.{AllBytes}
use cs162_group.Directory.{DirEntry, to_entry, of_entry, entry_size, copy_name, bool_byte}

pub drop_left : (xs ys : List ℕ) (n : ℕ) → n ≡ length xs → drop n (xs ++ ys) ≡ ys
drop_left [] ys n e = rw e refl
drop_left (x ∷ xs) ys zero e = absurd (omega arith)
drop_left (x ∷ xs) ys (suc n) e = drop_left xs ys n (omega arith)

pub get_or-left : (xs ys : List ℕ) (i : ℕ) → i < length xs → get_or (xs ++ ys) i 0 ≡ get_or xs i 0
get_or-left [] ys i h = absurd (omega arith)
get_or-left (x ∷ xs) ys zero h = refl
get_or-left (x ∷ xs) ys (suc i) h = get_or-left xs ys i (omega arith)

get_or-take : (n : ℕ) (xs : List ℕ) (i : ℕ) → i < n → get_or (take n xs) i 0 ≡ get_or xs i 0
get_or-take zero xs i h = absurd (omega arith)
get_or-take (suc n) [] i h = refl
get_or-take (suc n) (x ∷ xs) zero h = refl
get_or-take (suc n) (x ∷ xs) (suc i) h = get_or-take n xs i (omega arith)

-- A run that starts with the bytes of a string and a 0 is that string.
starts :
    (a xs : List ℕ)
    → length a < length xs
    → ((j : ℕ) → j < length a → get_or xs j 0 ≡ get_or a j 0)
    → get_or xs (length a) 0 ≡ 0
    → (rest : List ℕ) × (xs ≡ a ++ 0 ∷ rest)
starts a [] h e z = absurd (omega arith)
starts [] (x ∷ xs) h e z = (xs, ap (λ y. y ∷ xs) z)
starts (y ∷ a) (x ∷ xs) h e z =
    let (rest, q) = starts a xs (omega arith) (λ j lt. e (suc j) (omega arith)) z in
    (rest, ap₂ ◌∷◌ (e 0 (omega arith)) q)

strlen_lem : (a rest : List ℕ) → AllBytes a → strlen (a ++ 0 ∷ rest) ≡ some (length a)
unfolding strlen
strlen_lem [] rest h = refl
strlen_lem (x ∷ a) rest h =
    let n : (x == 0) ≡ false = ground (arith, h.0) in rw (n, strlen_lem a rest h.1) refl

-- A name that fits is copied whole.
pub copy_name-starts :
    (buffer a rest : List ℕ)
    → AllBytes a
    → length a < length buffer
    → Returns
        (copy_name buffer (a ++ 0 ∷ rest))
        λ name. (length name ≡ length buffer) × ((rest' : List ℕ) × (name ≡ a ++ 0 ∷ rest'))
unfolding copy_name
copy_name-starts buffer a rest bytes fits =
    let b = length buffer in
    let src = a ++ 0 ∷ rest in
    let len : strlen (drop b (buffer ++ src)) ≡ some (length a) =
      ap strlen (drop_left buffer src b refl) ∙ strlen_lem a rest bytes in
    let size = length-append buffer src in
    let ((n, mem), run, (_, same, put)) =
      strlcpy-bytes (buffer ++ src) 0 b b (length a) len (omega (arith, size)) (omega arith)
        (inl (omega arith)) in
    let short : length (take b mem) ≡ b = omega (arith, length-take b mem, same, size) in
    let m : min (length a) (b - 1) ≡ length a = omega (arith, fits) in
    (
      take b mem,
      rw (run, ◌>>=◌) refl,
      (
        short,
        starts a (take b mem) (omega (arith, short, fits))
            (λ j lt.
              let g : get_or (buffer ++ src) (b + (j - 0)) 0 ≡ get_or a j 0 =
                get_or-append buffer src (b + (j - 0)) j 0 (omega arith)
                ∙ get_or-left a (0 ∷ rest) j lt in
              get_or-take b mem j (omega (arith, lt, fits)) ∙ put j ∙ ground (arith, m, g, lt))
            (get_or-take b mem (length a) fits ∙ put (length a) ∙ ground (arith, m)),
      ),
    )

-- The fields of a slot come back.
pub to_entry-of_entry :
    (e : DirEntry)
    → e.inode_sector < 2 ^ 32
    → length e.name ≡ 15
    → (length (of_entry e) ≡ entry_size) × (to_entry (of_entry e) ≡ e)
unfolding encode decode
to_entry-of_entry e small len =
    let tail = bool_byte e.in_use ∷ [] in
    let name : take 15 (e.name ++ tail) ≡ e.name = take-append e.name tail 15 len in
    let last : get_or (e.name ++ tail) 15 0 ≡ bool_byte e.in_use =
      get_or-append e.name tail 15 0 0 (omega (arith, len)) in
    let used : not (bool_byte e.in_use == 0) ≡ e.in_use = elim (Bool-cases e.in_use) [
      | inl h ↦ rw h refl
      | inr h ↦ rw h refl
    ] in
    let sector : (e.inode_sector % 256
          + 256 * (e.inode_sector / 256 % 256)
          + 65536 * (e.inode_sector / 65536 % 256)
          + 16777216 * (e.inode_sector / 16777216 % 256))
        ≡ e.inode_sector =
      omega (arith, small) in
    (omega (arith, length-append e.name tail, len), rw (sector, name, last, used) refl)
