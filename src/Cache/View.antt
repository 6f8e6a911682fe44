-- ===== src/Cache/View.antt =====
-- What a list of cache blocks holds: the first valid block of a sector, and how many there are.
use cs162_group.Prelude.{
  ℕ, zero, suc, ◌+◌, ◌-◌, ◌≤◌, inl, inr, Bool-cases, ◌≡◌, refl, Bool, true, false, Option, none,
  some, List, [], ◌∷◌, arith, if◌then◌else◌, get_elem?, set, map,
}
use cs162_group.Block.{Data}
use cs162_group.Cache.{CacheBlock, Cache, matches, check_from, invalidate}

abbrev pub peek : ℕ → List CacheBlock → Option CacheBlock
peek s [] = none
peek s (b ∷ bs) = if matches s b then some b else peek s bs

abbrev pub to_nat : Bool → ℕ
to_nat true = 1
to_nat false = 0

abbrev pub count : ℕ → List CacheBlock → ℕ
count s [] = 0
count s (b ∷ bs) = to_nat (matches s b) + count s bs

-- The contents of a sector as the file system sees it: the cached copy, else the disk's.
unfoldable pub view : Cache → ℕ → Data
view c s = elim (peek s c.blocks) [ some b ↦ b.data' | none ↦ c.dev.sectors s ]

pub peek-eq-none : (s : ℕ) (bs : List CacheBlock) → count s bs ≡ 0 → peek s bs ≡ none
peek-eq-none s [] h = refl
peek-eq-none s (b ∷ bs) h = ground (arith, peek-eq-none s bs)

pub count_of_peek-none : (s : ℕ) (bs : List CacheBlock) → peek s bs ≡ none → count s bs ≡ 0
count_of_peek-none s [] h = refl
count_of_peek-none s (b ∷ bs) h = ground (arith, count_of_peek-none s bs)

pub peek-matches :
    (s : ℕ) (bs : List CacheBlock) (b : CacheBlock) → peek s bs ≡ some b → matches s b ≡ true
peek-matches s [] b h = ground arith
peek-matches s (x ∷ bs) b h = ground (arith, peek-matches s bs b)

-- Replacing one block changes the count by what that block held and holds.
pub count-set :
    (s : ℕ) (bs : List CacheBlock) (i : ℕ) (b b' : CacheBlock)
    → get_elem? bs i ≡ some b
    → count s (set bs i b') + to_nat (matches s b) ≡ count s bs + to_nat (matches s b')
count-set s [] i b b' h = ground arith
count-set s (x ∷ bs) zero b b' h = ground arith
count-set s (x ∷ bs) (suc i) b b' h = ground (arith, count-set s bs i b b')

count_of_get :
    (s : ℕ) (bs : List CacheBlock) (i : ℕ) (b : CacheBlock)
    → get_elem? bs i ≡ some b
    → to_nat (matches s b) ≤ count s bs
count_of_get s [] i b h = ground arith
count_of_get s (x ∷ bs) zero b h = ground arith
count_of_get s (x ∷ bs) (suc i) b h = ground (arith, count_of_get s bs i b)

pub peek_of_get :
    (s : ℕ) (bs : List CacheBlock) (i : ℕ) (b : CacheBlock)
    → get_elem? bs i ≡ some b
    → matches s b ≡ true
    → count s bs ≤ 1
    → peek s bs ≡ some b
peek_of_get s [] i b h m c = ground arith
peek_of_get s (x ∷ bs) zero b h m c = ground arith
peek_of_get s (x ∷ bs) (suc i) b h m c = ground (arith, peek_of_get s bs i b, count_of_get s bs i b)

-- The first valid block for a sector, after one block is replaced.
pub peek-set :
    (s : ℕ) (bs : List CacheBlock) (i : ℕ) (b b' : CacheBlock)
    → get_elem? bs i ≡ some b
    → count s bs ≤ 1
    → count s (set bs i b') ≤ 1
    → peek s (set bs i b')
      ≡ (if matches s b' then some b' else if matches s b then none else peek s bs)
peek-set s [] i b b' h c c' = ground arith
peek-set s (x ∷ bs) zero b b' h c c' = ground (arith, peek-eq-none s bs)
peek-set s (x ∷ bs) (suc i) b b' h c c' =
    ground
      (arith, peek-set s bs i b b', count_of_get s bs i b, count-set s bs i b b', peek-eq-none s bs)

-- A hit of `cache_check` is the first valid block for the sector, a miss means that there is none.
pub check_from-none :
    (s : ℕ) (bs : List CacheBlock) (n : ℕ) → check_from s bs n ≡ none → peek s bs ≡ none
unfolding check_from
check_from-none s [] n h = refl
check_from-none s (x ∷ bs) n h = ground (arith, check_from-none s bs (n + 1))

pub check_from-some :
    (s : ℕ) (bs : List CacheBlock) (n j : ℕ)
    → check_from s bs n ≡ some j
    → (b : CacheBlock) × (n ≤ j) × (get_elem? bs (j - n) ≡ some b) × (peek s bs ≡ some b)
unfolding check_from
check_from-some s [] n j h = cc
check_from-some s (x ∷ bs) n j h = elim (Bool-cases (matches s x)) [
  | inl hit ↦
      let e : n ≡ j = ground arith in
      let z : j - n ≡ 0 = omega arith in (x, omega arith, rw z refl, ground arith)
  | inr miss ↦
      let (b, le, got, top) = check_from-some s bs (n + 1) j (ground arith) in
      let z : j - n ≡ suc (j - (n + 1)) = omega arith in (b, omega arith, rw z got, ground arith)
]

-- Nothing is held once every block is invalid.
pub peek-invalidate : (s : ℕ) (bs : List CacheBlock) → peek s (map invalidate bs) ≡ none
peek-invalidate s [] = refl
peek-invalidate s (b ∷ bs) = peek-invalidate s bs
