-- ===== src/Synch/Boot.antt =====
-- The start of a run.
use cs162_group.Prelude.{ℕ, ◌≡◌, ◌≢◌, refl, sym, ap, some, ◌⊎◌, inl, inr, arith}
use cs162_group.Synch.{Sema, outside}
use cs162_group.Synch.System.{boot}
use cs162_group.Synch.Invariant.{makes, IsSane}
use cs162_group.Synch.Keeps.{apart}

two : (t : ℕ) → ((t ≡ 0) ⊎ (t ≡ 1)) ⊎ ((t ≢ 0) × (t ≢ 1))
two t = elim (apart 0 t) [
  | inl e ↦ inl (inl e)
  | inr n ↦ elim (apart 1 t) [ inl e ↦ inl (inr e) | inr n' ↦ inr (n, n') ]
]

no_maker : (value : Sema → ℕ) (u t : ℕ) → makes ((boot value).pc u) ≢ some t
no_maker value u t q = elim (apart 1 u) [
  | inl e ↦ ground (arith, q, e)
  | inr n ↦ ground (arith, q, n)
]

-- The lists are in order at the start.
pub boot-IsSane : (value : Sema → ℕ) → IsSane (boot value)
boot-IsSane value = record {
  alive = refl;
  runs = refl;
  only = λ t r. elim (two t) [
    | inl (inl e) ↦ e
    | inl (inr e) ↦ absurd (ground (arith, r, e))
    | inr (n, n') ↦ absurd (ground (arith, r, n, n'))
  ];
  lists = record {
    queued = λ t h. absurd (omega (arith, h));
    once = λ t. omega arith;
    asleep = λ s t h. absurd (omega (arith, h));
    wait_once = λ s t. omega arith;
    idle_thread = λ i e. let i1 : i ≡ 1 = ground (arith, e) in rw i1 (refl, refl, refl, λ q. cc);
    idle_only = λ t p. elim (two t) [
      | inl (inl e) ↦ absurd (ground (arith, p, e))
      | inl (inr e) ↦ ap some (sym e)
      | inr (n, n') ↦ absurd (ground (arith, p, n'))
    ];
    in_ready = λ t on r. elim (two t) [
      | inl (inl e) ↦ absurd (ground (arith, r, e))
      | inl (inr e) ↦ absurd (ground (arith, r, e))
      | inr (n, n') ↦ absurd (ground (arith, r, n, n'))
    ];
    in_wait = λ t on b. elim (two t) [
      | inl (inl e) ↦ absurd (ground (arith, b, e))
      | inl (inr e) ↦ inr (inl (ap some (sym e)))
      | inr (n, n') ↦ absurd (ground (arith, b, n, n'))
    ];
    born = λ u t q. absurd (no_maker value u t q);
    by_one = λ u w t q q'. absurd (no_maker value u t q);
    unused = λ w h. refl;
    known = λ t. elim (apart 1 t) [
      | inl e ↦ rw e tt
      | inr n ↦ let o : (boot value).pc t ≡ outside = ground (arith, n) in rw o tt
    ];
  };
}
