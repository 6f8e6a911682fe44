-- ===== src/Paths/Tests.antt =====
-- Sample paths.
use cs162_group.Prelude.{
  ℕ, ◌≡◌, ◌≤◌, ◌<◌, refl, List, [], ◌∷◌, ◌++◌, arith, length, replicate, set, some, Returns,
}
use cs162_group.Prelude.Int.{pos, negsuc}
use cs162_group.Directory.{name_max}
use cs162_group.Paths.{slash, get_next_part, dirname, basename}
use cs162_group.Paths.Names.{dirname-basename}
use cs162_group.Paths.Parts.{put_all, get_next_part-parts}

-- `/ab` and `c`.
abbrev dir_ab : List ℕ
dir_ab = 47 ∷ 97 ∷ 98 ∷ []

abbrev name_c : List ℕ
name_c = 99 ∷ []

dirname-basename_example :
    (dirname (dir_ab ++ (replicate 2 slash ++ (name_c ++ replicate 1 slash))) ≡ dir_ab)
    × (basename (dir_ab ++ (replicate 2 slash ++ (name_c ++ replicate 1 slash))) ≡ name_c)
dirname-basename_example =
    dirname-basename dir_ab name_c 1 1 (2, refl, λ q. ground (arith, q))
      (λ q. ground (arith, q), tt) (omega arith)

get_next_part-parts_example :
    (length name_c ≤ name_max
      → get_next_part (replicate 15 0) (replicate 1 slash ++ (name_c ++ 0 ∷ []))
        ≡ some (pos 1, set (put_all 0 name_c (replicate 15 0)) (length name_c) 0, 0 ∷ []))
    × (name_max < length name_c
        → Returns
            (get_next_part (replicate 15 0) (replicate 1 slash ++ (name_c ++ 0 ∷ [])))
            λ r. (r.0 ≡ negsuc 0) × (r.2 ≡ replicate 1 slash ++ (name_c ++ 0 ∷ [])))
    × ((tail : List ℕ)
        → get_next_part (replicate 15 0) (replicate 1 slash ++ 0 ∷ tail)
          ≡ some (pos 0, replicate 15 0, replicate 1 slash ++ 0 ∷ tail))
get_next_part-parts_example =
    get_next_part-parts 1 name_c (0 ∷ []) (replicate 15 0) (omega arith, tt)
      (λ q. ground (arith, q), tt) refl (omega arith)
