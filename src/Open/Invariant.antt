-- ===== src/Open/Invariant.antt =====
-- What holds of the open inodes: one address for each sector, and counts that fit.
use cs162_group.Prelude.{
  ℕ, ◌≤◌, ◌<◌, ◌≡◌, ◌≢◌, refl, ap, sym, ◌∙◌, none, some, List, [], ◌∷◌, ◌==◌, if◌then◌else◌, arith,
  Bool-cases, inl, inr, true,
}
use cs162_group.Open.{OpenInode, OpenInodes, open_at, node_at, put_node}

-- No address stands twice.
abbrev pub Distinct : List (ℕ × OpenInode) → Type 0
Distinct [] = Unit
Distinct ((a, n) ∷ rest) = (node_at a rest ≡ none) × Distinct rest

-- Every address of the list is below the next one, and the inodes have distinct sectors.
pub record IsOpen (t : OpenInodes) : Type 0 where
  pub distinct : Distinct t.nodes
  pub below : (p : ℕ) (n : OpenInode) → node_at p t.nodes ≡ some n → p < t.next
  pub one :
      (p q : ℕ) (n k : OpenInode)
      → node_at p t.nodes ≡ some n
      → node_at q t.nodes ≡ some k
      → n.sector ≡ k.sector
      → p ≡ q
  pub counted : (p : ℕ) (n : OpenInode) → node_at p t.nodes ≡ some n → 0 < n.open_cnt
  pub denied : (p : ℕ) (n : OpenInode) → node_at p t.nodes ≡ some n → n.deny_write_cnt ≤ n.open_cnt

pub node_at-put :
    (xs : List (ℕ × OpenInode)) (p q : ℕ) (x n : OpenInode)
    → node_at p xs ≡ some n
    → node_at q (put_node p x xs) ≡ (if q == p then some x else node_at q xs)
node_at-put [] p q x n h = absurd (ground (arith, h))
node_at-put ((a, k) ∷ rest) p q x n h = elim (Bool-cases (a == p)) [
  | inl e ↦ rw e (ground (arith, e))
  | inr e ↦
      let h' : node_at p rest ≡ some n = rw e at h in
      rw e (ground (arith, node_at-put rest p q x n h', e))
]

-- The inode that is there already.
pub put_node_same :
    (xs : List (ℕ × OpenInode)) (p : ℕ) (n : OpenInode)
    → node_at p xs ≡ some n
    → put_node p n xs ≡ xs
put_node_same [] p n h = refl
put_node_same ((a, k) ∷ rest) p n h = elim (Bool-cases (a == p)) [
  | inl e ↦
      let k' : some k ≡ some n = rw e at h in
      let k'' : k ≡ n = cc in rw e (ap (λ x. (a, x) ∷ rest) (sym k''))
  | inr e ↦
      let h' : node_at p rest ≡ some n = rw e at h in
      rw e (ap (λ xs. (a, k) ∷ xs) (put_node_same rest p n h'))
]

pub open_at-some :
    (xs : List (ℕ × OpenInode)) (s p : ℕ)
    → Distinct xs
    → open_at s xs ≡ some p
    → (n : OpenInode) × (node_at p xs ≡ some n) × (n.sector ≡ s)
open_at-some [] s p d h = absurd (ground (arith, h))
open_at-some ((a, k) ∷ rest) s p d h = elim (Bool-cases (k.sector == s)) [
  | inl hit ↦
      let h' : some a ≡ some p = rw hit at h in
      let e : (a == p) ≡ true = ground (arith, h') in (k, rw e refl, ground (arith, hit))
  | inr miss ↦
      let h' : open_at s rest ≡ some p = rw miss at h in
      let (n, at, same) = open_at-some rest s p d.1 h' in
      elim (Bool-cases (a == p)) [
        | inl e ↦
            let e' : a ≡ p = ground arith in
            absurd (ground (arith, ap (λ q. node_at q rest) e', d.0, at))
        | inr e ↦ (n, rw e at, same)
      ]
]

pub open_at-none :
    (xs : List (ℕ × OpenInode)) (s p : ℕ) (n : OpenInode)
    → open_at s xs ≡ none
    → node_at p xs ≡ some n
    → n.sector ≢ s
open_at-none [] s p n h e = absurd (ground (arith, e))
open_at-none ((a, k) ∷ rest) s p n h e = elim (Bool-cases (k.sector == s)) [
  | inl hit ↦ absurd (ground (arith, h, hit))
  | inr miss ↦
      let h' : open_at s rest ≡ none = rw miss at h in
      elim (Bool-cases (a == p)) [
        | inl here ↦ let e' : some k ≡ some n = rw here at e in ground (arith, e', miss)
        | inr there ↦
            let e' : node_at p rest ≡ some n = rw there at e in open_at-none rest s p n h' e'
      ]
]

pub put-Distinct :
    (xs : List (ℕ × OpenInode)) (p : ℕ) (x n : OpenInode)
    → Distinct xs
    → node_at p xs ≡ some n
    → Distinct (put_node p x xs)
put-Distinct [] p x n d h = tt
put-Distinct ((a, k) ∷ rest) p x n d h = elim (Bool-cases (a == p)) [
  | inl e ↦ rw e d
  | inr e ↦
      let h' : node_at p rest ≡ some n = rw e at h in
      rw e (ground (arith, node_at-put rest p a x n h', e, d.0), put-Distinct rest p x n d.1 h')
]

-- What was there put back.
pub put-put :
    (xs : List (ℕ × OpenInode)) (p : ℕ) (x n k : OpenInode)
    → node_at p xs ≡ some n
    → k ≡ n
    → put_node p k (put_node p x xs) ≡ xs
put-put [] p x n k h e = refl
put-put ((a, m) ∷ rest) p x n k h e = elim (Bool-cases (a == p)) [
  | inl here ↦
      let h' : some m ≡ some n = rw here at h in
      let m' : m ≡ n = cc in rw (here, here) (ap (λ z. (a, z) ∷ rest) (e ∙ sym m'))
  | inr there ↦
      let h' : node_at p rest ≡ some n = rw there at h in
      rw (there, there) (ap (λ z. (a, m) ∷ z) (put-put rest p x n k h' e))
]
