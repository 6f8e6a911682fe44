-- ===== src/Synch/Wakes.antt =====
-- A waiter that wakes keeps the lists in order.
use cs162_group.Prelude.{
  ℕ, ◌+◌, ◌≤◌, ◌≡◌, ◌≢◌, refl, sym, ap, ◌∙◌, true, some, ◌⊎◌, inl, inr, List, [], ◌∷◌, ◌++◌, ◌==◌,
  if◌then◌else◌, count, count-append, arith, Bool-cases,
}
use cs162_group.Threads.{dying, Kernel, ready, blocked, assign, thread_unblock}
use cs162_group.Synch.{Sema, of_waiter, same, assign_sema, Pc}
use cs162_group.Synch.Invariant.{sleeps, Lists, Sane}
use cs162_group.Synch.Keeps.{same-eq, same_refl}

module _ (k : Kernel) (waiters : Sema → List ℕ) (next : ℕ) (pc : ℕ → Pc)
    (v : Sane k waiters next pc) (s : Sema) (t : ℕ) (ts : List ℕ) (first : waiters s ≡ t ∷ ts) where
  abbrev l : Lists k waiters next pc
  l = v.lists

  abbrev fewer : Sema → List ℕ
  fewer = assign_sema waiters s ts

  abbrev woken : Kernel
  woken = record k { ready_list = k.ready_list ++ t ∷ []; status = assign k.status t ready }

  in_first : count t (waiters s) ≡ 1 + count t ts
  in_first = rw first (ground arith)

  asleep_lem : (k.status t ≡ blocked) × (k.magic t ≡ true) × (sleeps (pc t) ≡ some s)
  asleep_lem = l.asleep s t (omega (arith, in_first))

  pub unblock_lem : thread_unblock t k ≡ some woken
  unfolding thread_unblock
  unblock_lem = let (b, on, _) = asleep_lem in rw (on, b) refl

  not_current : t ≢ k.current
  not_current e =
      let (b, _, _) = asleep_lem in absurd (ground (arith, b, ap (λ q. k.status q) e, v.runs))

  not_idle : k.idle_thread ≢ some t
  not_idle e =
      let (_, _, p) = asleep_lem in
      let (q, _, _, _) = l.idle_thread t e in absurd (ground (arith, p, ap sleeps q))

  not_ready : count t k.ready_list ≡ 0
  not_ready = elim (Bool-cases (count t k.ready_list == 0)) [
    | inl e ↦ ground arith
    | inr e ↦
        let (r, _) = l.queued t (ground arith) in
        let (b, _, _) = asleep_lem in absurd (ground (arith, r, b))
  ]

  at : (u : ℕ) → (u ≡ t) ⊎ (u ≢ t)
  at u = elim (Bool-cases (u == t)) [
    | inl e ↦ inl (ground arith)
    | inr e ↦ inr (λ h. ground (arith, h))
  ]

  self : assign k.status t ready t ≡ ready
  self = ground arith

  others : (u : ℕ) → u ≢ t → assign k.status t ready u ≡ k.status u
  others u ne = ground (arith, ne)

  longer :
      (u : ℕ) → count u (k.ready_list ++ t ∷ []) ≡ count u k.ready_list + (if t == u then 1 else 0)
  longer u = ground (arith, count-append u k.ready_list (t ∷ []))

  longer-others : (u : ℕ) → u ≢ t → count u (k.ready_list ++ t ∷ []) ≡ count u k.ready_list
  longer-others u ne = ground (arith, longer u, ne)

  longer_self : count t (k.ready_list ++ t ∷ []) ≡ 1
  longer_self = ground (arith, longer t, not_ready)

  at_most : (r : Sema) (u : ℕ) → count u (fewer r) ≤ count u (waiters r)
  at_most r u = elim (Bool-cases (same r s)) [
    | inl e ↦ rw (e, same-eq r s e, first) (omega arith)
    | inr e ↦ rw e (omega arith)
  ]

  fewer-others : (r : Sema) (u : ℕ) → u ≢ t → count u (fewer r) ≡ count u (waiters r)
  fewer-others r u ne = elim (Bool-cases (same r s)) [
    | inl e ↦ rw (e, same-eq r s e, first) (ground (arith, ne))
    | inr e ↦ rw e refl
  ]

  fewer_self : (r : Sema) → count t (fewer r) ≡ 0
  fewer_self r = elim (Bool-cases (same r s)) [
    | inl e ↦ rw e (omega (arith, in_first, l.wait_once s t))
    | inr e ↦ elim (Bool-cases (count t (waiters r) == 0)) [
      | inl z ↦ rw e (ground arith)
      | inr z ↦
          let (_, _, p) = asleep_lem in
          let (_, _, q) = l.asleep r t (ground arith) in
          let rs : r ≡ s = cc in absurd (cc (e, ap (λ q. same q s) rs, same_refl s))
    ]
  ]

  woken-Lists : Lists woken fewer next pc
  woken-Lists = record {
    queued = λ u h. elim (at u) [
      | inl e ↦
          let (_, on, _) = asleep_lem in
          (ap (assign k.status t ready) e ∙ self, ap (λ q. k.magic q) e ∙ on)
      | inr ne ↦ let (r, on) = l.queued u (rw (sym (longer-others u ne)) h) in (others u ne ∙ r, on)
    ];
    once = λ u. elim (at u) [
      | inl e ↦ omega (arith, longer_self, ap (λ q. count q (k.ready_list ++ t ∷ [])) e)
      | inr ne ↦ omega (arith, longer-others u ne, l.once u)
    ];
    asleep = λ r u h. elim (at u) [
      | inl e ↦ absurd (omega (arith, h, fewer_self r, ap (λ q. count q (fewer r)) e))
      | inr ne ↦
          let (b, on, p) = l.asleep r u (omega (arith, h, at_most r u)) in (others u ne ∙ b, on, p)
    ];
    wait_once = λ r u. omega (arith, at_most r u, l.wait_once r u);
    idle_thread = λ i e.
        let (p, on, n, d) = l.idle_thread i e in
        let ne : i ≢ t = λ h. not_idle (e ∙ ap some h) in
        (p, on, longer-others i ne ∙ n, λ q. d (sym (others i ne) ∙ q));
    idle_only = l.idle_only;
    in_ready = λ u on r. elim (at u) [
      | inl e ↦ inl (ap (λ q. count q (k.ready_list ++ t ∷ [])) e ∙ longer_self)
      | inr ne ↦ elim (l.in_ready u on (sym (others u ne) ∙ r)) [
        | inl n ↦ inl (longer-others u ne ∙ n)
        | inr i ↦ inr i
      ]
    ];
    in_wait = λ u on b. elim (at u) [
      | inl e ↦ absurd (ground (arith, b, e))
      | inr ne ↦ elim (l.in_wait u on (sym (others u ne) ∙ b)) [
        | inl (r, p, n) ↦ inl (r, p, fewer-others r u ne ∙ n)
        | inr i ↦ inr i
      ]
    ];
    unused = λ w h. elim (Bool-cases (same (of_waiter w) s)) [
      | inl e ↦ absurd (cc (first, l.unused w h, ap waiters (same-eq (of_waiter w) s e)))
      | inr e ↦ rw e (l.unused w h)
    ];
    known = l.known;
    born = λ u p q.
        let (on, d, on', b, o) = l.born u p q in
        let (_, _, asks) = asleep_lem in
        let ne : p ≢ t = λ e. absurd (cc (o, asks, ap (λ q. sleeps (pc q)) e, ap sleeps o)) in
        let d' : assign k.status t ready u ≢ dying = elim (at u) [
          | inl e ↦ λ h. absurd (ground (arith, h, e))
          | inr ne' ↦ λ h. d (sym (others u ne') ∙ h)
        ] in
        (on, d', on', others p ne ∙ b, o);
    by_one = l.by_one;
  }

  pub woken-Sane : Sane woken fewer next pc
  woken-Sane = record {
    alive = v.alive;
    runs = others k.current (λ e. not_current (sym e)) ∙ v.runs;
    only = λ u r. elim (at u) [
      | inl e ↦ absurd (ground (arith, r, e))
      | inr ne ↦ v.only u (sym (others u ne) ∙ r)
    ];
    lists = woken-Lists;
  }
