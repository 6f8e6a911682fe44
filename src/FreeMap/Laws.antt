-- ===== src/FreeMap/Laws.antt =====
-- Allocation takes the first free run, and gives everything back when it cannot be recorded.
use cs162_group.Prelude.{
  ℕ, ◌+◌, ◌≤◌, ◌<◌, ◌≡◌, refl, ap, Bool, true, false, Option, none, some, ◌⊎◌, inl, inr, ◌>>=◌,
  ◌==◌, if◌then◌else◌, arith, Returns, Bool-cases, ◌∙◌,
}
use mathlib.Core.Path.{subst}
use cs162_group.Bitmap.{Bitmap, bitmap_error, bitmap_set_multiple, bitmap_scan_and_flip}
use cs162_group.Bitmap.Bit.{bit_at, IsValid, Wrote}
use cs162_group.Bitmap.Range.{within, bitmap_set_multiple-Wrote, all-none_iff, bitmap_all-false}
use cs162_group.Bitmap.Scan.{IsFirst, HasNone, bitmap_scan_and_flip-Wrote}
use cs162_group.FreeMap.{store_map, free_map_allocate, free_map_release}

-- The first free run is marked in a map.
abbrev pub IsMarked : Bitmap → ℕ → ℕ → Bitmap → Type 0
IsMarked m cnt s m' =
    IsFirst m 0 cnt false s × Wrote m (λ j. if within s cnt j then true else bit_at m j) m'

-- The write of a map to its file ends with this result.
abbrev pub Stores : {S : Type 0} → (Bitmap → S → Option (Bool × S)) → Bitmap → S → Bool → Type 0
Stores {S = S} write_map m w result = (w' : S) × (write_map m w ≡ some (result, w'))

-- What an allocation of `cnt` sectors gives: the first free run, now in use and, if there is a file, written
-- to it; or nothing with every sector as it was, for want of a free run, or because there is a file
-- and the map with the first free run in use was not written to it.
abbrev pub Taken :
    {S : Type 0}
    → Bool
    → (Bitmap → S → Option (Bool × S))
    → Bitmap
    → S
    → ℕ
    → Option ℕ
    → Bitmap
    → Type 0
Taken has_file write_map m w cnt (some s) m' =
    IsMarked m cnt s m' × (has_file ≡ true → Stores write_map m' w true)
Taken has_file write_map m w cnt none m' =
    Wrote m (bit_at m) m'
    × (HasNone m 0 cnt false
        ⊎ ((has_file ≡ true)
            × ((s : ℕ) × (m₁ : Bitmap) × IsMarked m cnt s m₁ × Stores write_map m₁ w false)))

module _ {S : Type 0} (has_file : Bool) (write_map : Bitmap → S → Option (Bool × S))
    (Good : S → Type 0) where
  -- The write of the map to its file does not panic on a good state, and leaves a good one.
  abbrev pub Writes : Type 0
  Writes = (m : Bitmap) (w : S) → Good w → Returns (write_map m w) λ r. Good r.1

  store_map-Returns :
      Writes
      → (m : Bitmap) (w : S) → Good w
      → Returns (store_map has_file write_map m w) λ r. Good r.1
  unfolding store_map
  store_map-Returns h m w good = elim (Bool-cases has_file) [
    | inl e ↦ let (r, run, g) = h m w good in (r, rw e run, g)
    | inr e ↦ ((true, w), rw e refl, good)
  ]

  -- The result is that of the write, if there is a file.
  store_map-Stores :
      (m : Bitmap) (w : S) (r : Bool × S)
      → store_map has_file write_map m w ≡ some r
      → (has_file ≡ true → Stores write_map m w r.0) × (r.0 ≡ false → has_file ≡ true)
  unfolding store_map
  store_map-Stores m w r e = elim (Bool-cases has_file) [
    | inl on ↦ ((λ _. (r.1, rw on at e)), (λ _. on))
    | inr off ↦
        let e' : some (true, w) ≡ some r = rw off at e in
        ((λ on. absurd (ground (arith, on, off))), (λ bad. absurd (ground (arith, e', bad))))
  ]

  restore :
      (m m₁ : Bitmap) (s cnt : ℕ)
      → IsFirst m 0 cnt false s
      → Wrote m (λ j. if within s cnt j then true else bit_at m j) m₁
      → Returns (bitmap_set_multiple m₁ s cnt false) (Wrote m (bit_at m))
  restore m m₁ s cnt first u =
      let (m₂, run, w) =
        bitmap_set_multiple-Wrote m₁ s cnt false u.valid (omega (arith, first.fits, u.size)) in
      (
        m₂,
        run,
        record {
          valid = w.valid;
          size = w.size ∙ u.size;
          bits = λ j. ground (arith, w.bits j, u.bits j, first.run j);
        },
      )

  pub free_map_allocate-Taken :
      Writes
      → (cnt : ℕ) (m : Bitmap) (w : S) → IsValid m
      → Good w
      → 0 < cnt
      → Returns
          (free_map_allocate has_file write_map cnt (m, w))
          λ r. Taken has_file write_map m w cnt r.0 r.1.0 × Good r.1.1
  unfolding free_map_allocate
  free_map_allocate-Taken h cnt m w v good pos =
      let (r, run, out) = bitmap_scan_and_flip-Wrote m v cnt false 0 (omega arith) pos in
      go r run out
    where
      go :
          (r : ℕ × Bitmap)
          → bitmap_scan_and_flip m 0 cnt false ≡ some r
          → IsMarked m cnt r.0 r.1 ⊎ (r.0 ≡ bitmap_error) × (r.1 ≡ m) × HasNone m 0 cnt false
          → Returns
              (free_map_allocate has_file write_map cnt (m, w))
              λ r. Taken has_file write_map m w cnt r.0 r.1.0 × Good r.1.1
      go (s, m₁) run (inr (e, same, out)) = (
        (none, (m₁, w)),
        rw (run, ◌>>=◌, e) refl,
        (
          (
            record {
              valid = rw same v;
              size = ap (λ b. b.bit_cnt) same;
              bits = λ j. ap (λ b. bit_at b j) same;
            },
            inl out,
          ),
          good,
        ),
      )
      go (s, m₁) run (inl (first, u)) =
          let (t, stored, g) = store_map-Returns h m₁ w good in
          let ne : (s == bitmap_error) ≡ false = ground (arith, v.small, first.fits) in
          let (made, filed) = store_map-Stores m₁ w t stored in
          elim (Bool-cases t.0) [
            | inl ok ↦ (
              (some s, (m₁, t.1)),
              rw (run, ◌>>=◌, ne, stored, ok) refl,
              (((first, u), (λ on. subst (Stores write_map m₁ w) ok (made on))), g),
            )
            | inr bad ↦
                let (m₂, back, z) = restore m m₁ s cnt first u in
                (
                  (none, (m₂, t.1)),
                  rw (run, ◌>>=◌, ne, stored, bad, back) refl,
                  (
                    (
                      z,
                      inr (
                        filed bad,
                        (s, m₁, (first, u), subst (Stores write_map m₁ w) bad (made (filed bad))),
                      ),
                    ),
                    g,
                  ),
                )
          ]

  -- On a valid map, where the write of the map to its file does not panic: giving back a run that
  -- is in use frees exactly that run, and giving back a run inside the map with a sector that is
  -- free panics.
  pub free_map_release-Wrote :
      Writes
      → (s cnt : ℕ) (m : Bitmap) (w : S) → IsValid m
      → Good w
      → s + cnt ≤ m.bit_cnt
      → (((j : ℕ) → s ≤ j → j < s + cnt → bit_at m j ≡ true)
          → Returns
              (free_map_release has_file write_map s cnt (m, w))
              λ r. Wrote m (λ j. if within s cnt j then false else bit_at m j) r.0 × Good r.1)
        × ((j : ℕ)
            → s ≤ j
            → j < s + cnt
            → bit_at m j ≡ false
            → free_map_release has_file write_map s cnt (m, w) ≡ none)
  unfolding free_map_release
  free_map_release-Wrote h s cnt m w v good fits = (
    (λ used.
        let all = (all-none_iff m s cnt v fits).0.1 used in
        let (m₁, cleared, u) = bitmap_set_multiple-Wrote m s cnt false v fits in
        let (r, stored, g) = h m₁ w good in
        ((m₁, r.1), rw (all, ◌>>=◌, cleared, stored) refl, (u, g))),
    (λ j lo hi off. rw (bitmap_all-false m s cnt v fits j lo hi off, ◌>>=◌) refl),
  )
