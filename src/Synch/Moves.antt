-- ===== src/Synch/Moves.antt =====
-- Switches keep the lists in order.
use cs162_group.Prelude.{
  ℕ, ◌≤◌, ◌<◌, ◌≡◌, ◌≢◌, refl, sym, ap, ◌∙◌, true, ◌⊎◌, inl, inr, List, [], ◌∷◌, ◌==◌, count, arith,
  Bool-cases,
}
use mathlib.Core.Path.{subst}
use cs162_group.Threads.{Kernel, running, ready, blocked, dying}
use cs162_group.Threads.Queue.{Switched}
use cs162_group.Synch.{outside, Sema, Pc, idling}
use cs162_group.Synch.Invariant.{sleeps, Lists, Sane}

-- A thread that has the status of before, when another is the one that runs now.
module _ (waiters : Sema → List ℕ) (next : ℕ) (pc : ℕ → Pc) (k k' : Kernel) (s : Switched k k')
    (l : Lists k waiters next pc) (still : (t : ℕ) → k.status t ≢ running) where
  abbrev n : ℕ
  n = k'.current

  other : (t : ℕ) → t ≢ n → k'.status t ≡ k.status t
  other t ne = s.status t ∙ ground (arith, ne)

  now : k'.status n ≡ running
  now = s.status n ∙ ground arith

  -- A thread that does not run is not the one that was switched to.
  elsewhere : (t : ℕ) → k'.status t ≢ running → t ≢ n
  elsewhere t ne e = ne (ap (λ q. k'.status q) e ∙ now)

  -- The thread that was switched to was first in the run list, or idle.
  came :
      ((k.ready_list ≡ n ∷ k'.ready_list) × (k.status n ≡ ready))
      ⊎ ((k.ready_list ≡ []) × (k'.ready_list ≡ []) × (pc n ≡ idling) × (k.status n ≢ dying))
  came = elim s.taken [
    | inl e ↦ let c : 0 < count n k.ready_list = rw e (ground arith) in inl (e, (l.queued n c).0)
    | inr (e, e', i) ↦ let (p, _, _, d) = l.idle_thread n i in inr (e, e', p, d)
  ]

  counted : (t : ℕ) → t ≢ n → count t k.ready_list ≡ count t k'.ready_list
  counted t ne = elim came [
    | inl (e, _) ↦ rw e (ground (arith, ne))
    | inr (e, e', _, _) ↦ rw (e, e') refl
  ]

  -- The thread that was switched to is not in the run list any more.
  gone : count n k'.ready_list ≡ 0
  gone = elim came [
    | inl (e, _) ↦
        let c : count n (n ∷ k'.ready_list) ≤ 1 = subst (λ xs. count n xs ≤ 1) e (l.once n) in
        ground (arith, c)
    | inr (e, e', _, _) ↦ rw e' refl
  ]

  not_new : (t : ℕ) → 0 < count t k'.ready_list → t ≢ n
  not_new t c e = omega (arith, gone, ap (λ q. count q k'.ready_list) e)

  -- A sleeping thread was not switched to.
  sleeper : (sem : Sema) (t : ℕ) → 0 < count t (waiters sem) → t ≢ n
  sleeper sem t c e =
      let (b, _, p) = l.asleep sem t c in
      elim came [
        | inl (_, r) ↦ absurd (ground (arith, b, r, ap (λ q. k.status q) e))
        | inr (_, _, i, _) ↦ absurd (ground (arith, p, i, ap (λ q. sleeps (pc q)) e))
      ]

  not_dying : (t : ℕ) → k.status t ≢ dying → k.magic t ≡ true → k'.magic t ≡ true
  not_dying t ne on = s.kept t on (inr ne)

  fewer : (t : ℕ) → count t k'.ready_list ≤ count t k.ready_list
  fewer t = elim came [
    | inl (e, _) ↦ rw e (omega arith)
    | inr (e, e', _, _) ↦ rw (e, e') (omega arith)
  ]

  never_dying : (t : ℕ) → k.status t ≢ dying → k'.status t ≢ dying
  never_dying t ne e = elim (Bool-cases (t == n)) [
    | inl h ↦
        let h' : t ≡ n = ground arith in
        let r : k'.status t ≡ running = ap (λ q. k'.status q) h' ∙ now in cc
    | inr h ↦ let h' : t ≢ n = λ q. ground (arith, q) in ne (sym (other t h') ∙ e)
  ]

  -- Nor was a blocked thread that has not run.
  not_woken : (t : ℕ) → k.status t ≡ blocked → pc t ≡ outside → t ≢ n
  not_woken t b o e = elim came [
    | inl (_, r) ↦ absurd (ground (arith, b, r, ap (λ q. k.status q) e))
    | inr (_, _, i, _) ↦ absurd (ground (arith, o, i, ap pc e))
  ]

  switch-Lists : Lists k' waiters next pc
  switch-Lists = record {
    queued = λ t c.
        let ne = not_new t c in
        let (r, on) = l.queued t (rw (counted t ne) c) in
        (other t ne ∙ r, not_dying t (λ e. cc) on);
    once = λ t. omega (arith, fewer t, l.once t);
    asleep = λ sem t c.
        let ne = sleeper sem t c in
        let (b, on, p) = l.asleep sem t c in (other t ne ∙ b, not_dying t (λ e. cc) on, p);
    wait_once = l.wait_once;
    idle_thread = λ i e.
        let (p, on, c, d) = l.idle_thread i (sym s.idle ∙ e) in
        (p, not_dying i d on, omega (arith, fewer i, c), never_dying i d);
    idle_only = λ t p. s.idle ∙ l.idle_only t p;
    in_ready = λ t on r.
        let ne = elsewhere t (λ e. cc) in
        elim (l.in_ready t (s.old t on) (sym (other t ne) ∙ r)) [
          | inl c ↦ inl (sym (counted t ne) ∙ c)
          | inr i ↦ inr (s.idle ∙ i)
        ];
    in_wait = λ t on b.
        let ne = elsewhere t (λ e. cc) in
        elim (l.in_wait t (s.old t on) (sym (other t ne) ∙ b)) [
          | inl c ↦ inl c
          | inr (inl i) ↦ inr (inl (s.idle ∙ i))
          | inr (inr w) ↦ inr (inr w)
        ];
    unused = l.unused;
    known = l.known;
    born = λ u t q.
        let (on, d, on', b, o) = l.born u t q in
        let ne = not_woken t b o in
        (not_dying u d on, never_dying u d, not_dying t (λ e. cc) on', other t ne ∙ b, o);
    by_one = l.by_one;
  }

  pub switch-Sane : Sane k' waiters next pc
  switch-Sane = record {
    alive = s.kept n s.alive (inl refl);
    runs = now;
    only = λ t r. elim (Bool-cases (t == n)) [
      | inl e ↦ ground arith
      | inr e ↦ let ne : t ≢ n = λ q. ground (arith, q) in absurd (still t (sym (other t ne) ∙ r))
    ];
    lists = switch-Lists;
  }
