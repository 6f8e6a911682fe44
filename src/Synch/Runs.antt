-- ===== src/Synch/Runs.antt =====
-- Steps after which the same thread runs keep the lists in order.
use cs162_group.Prelude.{
  ℕ, ◌+◌, ◌≡◌, ◌≢◌, refl, sym, ap, ◌∙◌, inl, inr, List, [], count, arith, Bool-cases,
}
use cs162_group.Threads.{Kernel, assign}
use cs162_group.Synch.{
  numbering, readying, Sema, plain, of_lock, of_waiter, same, assign_sema, Pc, outside, downing,
  acquiring, acquired, released, leaving, waiting, signalling, broadcasting, rousing, idling,
}
use cs162_group.Synch.Invariant.{sleeps, makes, Known, Lists, Sane}
use cs162_group.Synch.Keeps.{apart, same-eq, out_of_wait}

Known-step : (next : ℕ) (p : Pc) → Known next p → Known (next + 1) p
Known-step next outside h = h
Known-step next (downing (plain s)) h = h
Known-step next (downing (of_lock s)) h = h
Known-step next (downing (of_waiter u)) h = omega (arith, h)
Known-step next (acquiring l a) h = h
Known-step next (acquired l a) h = h
Known-step next (released l a) h = h
Known-step next (leaving u l) h = omega (arith, h)
Known-step next (waiting u l) h = omega (arith, h)
Known-step next (signalling u) h = h
Known-step next (broadcasting c l) h = h
Known-step next (rousing u c l) h = h
Known-step next (numbering page) h = h
Known-step next (readying page tid) h = h
Known-step next idling h = h

module _ (k : Kernel) (waiters : Sema → List ℕ) (next : ℕ) (pc : ℕ → Pc)
    (v : Sane k waiters next pc) where
  abbrev l : Lists k waiters next pc
  l = v.lists

  abbrev c : ℕ
  c = k.current

  -- The thread that runs goes on somewhere else.
  module _ (p : Pc) (busy : pc c ≢ idling) (works : p ≢ idling) (knows : Known next p)
      (same' : makes p ≡ makes (pc c)) where
    pc-others : (t : ℕ) → t ≢ c → assign pc c p t ≡ pc t
    pc-others t ne = ground (arith, ne)

    pc_self : assign pc c p c ≡ p
    pc_self = ground arith

    makes_kept : (u : ℕ) → makes (assign pc c p u) ≡ makes (pc u)
    makes_kept u = elim (apart c u) [
      | inl e ↦
          ap (λ q. makes (assign pc c p q)) e
          ∙ ap makes pc_self
          ∙ same'
          ∙ ap (λ q. makes (pc q)) (sym e)
      | inr ne ↦ ap makes (pc-others u ne)
    ]

    pc-Lists : Lists k waiters next (assign pc c p)
    pc-Lists = record {
      queued = l.queued;
      once = l.once;
      asleep = λ s t h.
          let (b, on, q) = l.asleep s t h in
          let ne : t ≢ c = λ e.
            omega (arith, h, out_of_wait k waiters next pc v s, ap (λ q. count q (waiters s)) e) in
          (b, on, ap sleeps (pc-others t ne) ∙ q);
      wait_once = l.wait_once;
      idle_thread = λ i e.
          let (q, on, n, d) = l.idle_thread i e in
          let ne : i ≢ c = λ h. busy (sym (ap pc h) ∙ q) in (pc-others i ne ∙ q, on, n, d);
      idle_only = λ t q. elim (apart c t) [
        | inl e ↦ absurd (works (sym pc_self ∙ ap (assign pc c p) (sym e) ∙ q))
        | inr ne ↦ l.idle_only t (sym (pc-others t ne) ∙ q)
      ];
      in_ready = l.in_ready;
      in_wait = λ t on b.
          let ne : t ≢ c = λ e. absurd (ground (arith, b, ap (λ q. k.status q) e, v.runs)) in
          elim (l.in_wait t on b) [
            | inl (s, q, n) ↦ inl (s, ap sleeps (pc-others t ne) ∙ q, n)
            | inr (inl i) ↦ inr (inl i)
            | inr (inr (u, q)) ↦ inr (inr (u, makes_kept u ∙ q))
          ];
      unused = l.unused;
      known = λ t. elim (apart c t) [
        | inl e ↦ rw e (rw pc_self knows)
        | inr ne ↦ rw (pc-others t ne) (l.known t)
      ];
      born = λ u t q.
          let (on, d, on', b, o) = l.born u t (sym (makes_kept u) ∙ q) in
          let ne : t ≢ c = λ e. absurd (ground (arith, b, ap (λ q. k.status q) e, v.runs)) in
          (on, d, on', b, pc-others t ne ∙ o);
      by_one = λ u w t q q'. l.by_one u w t (sym (makes_kept u) ∙ q) (sym (makes_kept w) ∙ q');
    }

    pub pc-Sane : Sane k waiters next (assign pc c p)
    pc-Sane = record { alive = v.alive; runs = v.runs; only = v.only; lists = pc-Lists }

  -- A new waiter.
  module _ where
    emptied : (s : Sema) → assign_sema waiters (of_waiter next) [] s ≡ waiters s
    emptied s = elim (Bool-cases (same s (of_waiter next))) [
      | inl e ↦ rw (e, same-eq s (of_waiter next) e) (sym (l.unused next (omega arith)))
      | inr e ↦ rw e refl
    ]

    waiter-Lists : Lists k (assign_sema waiters (of_waiter next) []) (next + 1) pc
    waiter-Lists = record {
      queued = l.queued;
      once = l.once;
      asleep = λ s t h. l.asleep s t (omega (arith, h, ap (count t) (emptied s)));
      wait_once = λ s t. omega (arith, l.wait_once s t, ap (count t) (emptied s));
      idle_thread = l.idle_thread;
      idle_only = l.idle_only;
      in_ready = l.in_ready;
      in_wait = λ t on b. elim (l.in_wait t on b) [
        | inl (s, q, n) ↦ inl (s, q, ap (count t) (emptied s) ∙ n)
        | inr i ↦ inr i
      ];
      unused = λ w h. emptied (of_waiter w) ∙ l.unused w (omega (arith, h));
      known = λ t. Known-step next (pc t) (l.known t);
      born = l.born;
      by_one = l.by_one;
    }

    pub waiter-Sane : Sane k (assign_sema waiters (of_waiter next) []) (next + 1) pc
    waiter-Sane = record { alive = v.alive; runs = v.runs; only = v.only; lists = waiter-Lists }
