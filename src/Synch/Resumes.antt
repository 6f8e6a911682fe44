-- ===== src/Synch/Resumes.antt =====
-- The steps of a thread in synch.c, and in `thread_create`, keep the lists in order.
use cs162_group.Prelude.{
  ℕ, ◌+◌, ◌<◌, ◌≡◌, ◌≢◌, refl, sym, ap, ◌∙◌, Bool, false, none, some, inl, inr, List, [], ◌∷◌,
  ◌>>=◌, ◌||◌, Bool-cases, Option-cases,
}
use mathlib.Core.Path.{subst}
use cs162_group.Threads.{assign, points_to, thread_current, thread_block}
use cs162_group.Synch.{
  After, returns, numbers, readies, numbering, readying, going_on, tid_lock, allocate_tid, Sema,
  of_lock, of_waiter, Machine, Pc, outside, downing, acquiring, acquired, released, leaving,
  waiting, signalling, broadcasting, rousing, idling, sema_up, lock_held_by_current_thread,
  lock_release, is_empty, rouse_first, broadcast_round, resume,
}
use cs162_group.Synch.Invariant.{sleeps, makes, page_of, Known, Sane, IsSane}
use cs162_group.Synch.Keeps.{current_lem}
use cs162_group.Synch.Switches.{idle-Sane}
use cs162_group.Synch.Runs.{pc-Sane}
use cs162_group.Synch.Joins.{numbered-Sane, joined_queue, add_to_queue_lem, joined-IsSane}
use cs162_group.Synch.Ups.{upped, sema_up_lem, upped-IsSane, go_to-IsSane, down_round-IsSane}

going_on_works : (a : After) → going_on a ≢ idling
going_on_works returns e = cc
going_on_works (numbers page) e = cc
going_on_works (readies page tid) e = cc

going_on-Known : (next : ℕ) (a : After) → Known next (going_on a)
going_on-Known next returns = tt
going_on-Known next (numbers page) = tt
going_on-Known next (readies page tid) = tt

going_on-makes : (a : After) → makes (going_on a) ≡ page_of a
going_on-makes returns = refl
going_on-makes (numbers page) = refl
going_on-makes (readies page tid) = refl

module _ (m : Machine) (v : IsSane m) where
  abbrev c : ℕ
  c = m.kernel.current

  pub here : thread_current m.kernel ≡ some c
  here = current_lem m.kernel m.waiters m.next_waiter m.pc v

  pub held_lem : (l : ℕ) → lock_held_by_current_thread l m ≡ some (points_to (m.holder l) c)
  unfolding lock_held_by_current_thread
  held_lem l = rw (here, ◌>>=◌) refl

  pub place-IsSane :
      (p : Pc)
      → m.pc c ≢ idling
      → p ≢ idling
      → Known m.next_waiter p
      → makes p ≡ makes (m.pc c)
      → Sane m.kernel m.waiters m.next_waiter (assign m.pc c p)
  place-IsSane p busy works knows kept =
      pc-Sane m.kernel m.waiters m.next_waiter m.pc v p busy works knows kept

  up_then-IsSane :
      (s : Sema) (q : Pc) (b : Bool) (m' : Machine)
      → m.pc c ≢ idling
      → q ≢ idling
      → Known m.next_waiter q
      → makes q ≡ makes (m.pc c)
      → ◌>>=◌ {B = Bool × Machine}
          (sema_up s m)
          (λ m₁. some (false, record m₁ { pc = assign m₁.pc c q }))
        ≡ some (b, m')
      → IsSane m'
  up_then-IsSane s q b m' busy works knows kept e =
      let e' = rw (sema_up_lem m v s, ◌>>=◌) at e in
      let u = upped s m in
      let r : m' ≡ record u { pc = assign u.pc c q } = cc in
      rw r
        (pc-Sane u.kernel u.waiters u.next_waiter u.pc (upped-IsSane m v s) q busy works knows kept)

  rouse-IsSane :
      (ws : List ℕ) (a l : ℕ) → m.pc c ≡ broadcasting a l → IsSane (rouse_first ws a l c m)
  rouse-IsSane [] a l at = place-IsSane outside (λ q. cc) (λ e. cc) tt (ap makes (sym at))
  rouse-IsSane (w ∷ ws) a l at =
      place-IsSane (rousing w a l) (λ q. cc) (λ e. cc) tt (ap makes (sym at))

  broadcast-IsSane :
      (a l : ℕ) (m' : Machine)
      → m.pc c ≡ broadcasting a l
      → broadcast_round a l c m ≡ some m'
      → IsSane m'
  unfolding broadcast_round
  broadcast-IsSane a l m' at e =
      let e₁ = rw (held_lem l, ◌>>=◌) at e in
      elim (Bool-cases (is_empty (m.cond_waiters a) || points_to (m.holder l) c)) [
        | inl ok ↦
            let e₂ = rw ok at e₁ in
            let r : m' ≡ rouse_first (m.cond_waiters a) a l c m = cc in
            rw r (rouse-IsSane (m.cond_waiters a) a l at)
        | inr bad ↦ let e₂ = rw bad at e₁ in cc
      ]

  pub release-IsSane :
      (a : After) (l : ℕ) (m' : Machine)
      → m.pc c ≢ idling
      → page_of a ≡ makes (m.pc c)
      → lock_release a l m ≡ some m'
      → IsSane m'
  unfolding lock_release
  release-IsSane a l m' busy kept e =
      let e₁ = rw (held_lem l, ◌>>=◌) at e in
      elim (Bool-cases (points_to (m.holder l) c)) [
        | inl held ↦
            let e₂ = rw held at e₁ in
            let m₁ : Machine = record m { holder = assign m.holder l none } in
            go_to-IsSane m₁ v (released l a) m' busy (λ q. cc) tt kept e₂
        | inr free ↦ let e₂ = rw free at e₁ in cc
      ]

-- The steps of the thread that runs.
module _ (m : Machine) (v : IsSane m) where
  allocate_tid-IsSane :
      (page : ℕ) (m' : Machine)
      → m.pc m.kernel.current ≡ numbering page
      → allocate_tid page m ≡ some m'
      → IsSane m'
  unfolding allocate_tid
  allocate_tid-IsSane page m' at e =
      let n = m.kernel.next_tid in
      release-IsSane (record m { kernel = record m.kernel { next_tid = n + 1 } })
        (numbered-Sane m.kernel m.waiters m.next_waiter m.pc (n + 1) v) (readies page n) tid_lock m'
        (λ q. cc) (ap makes (sym at)) e

  pub resume-IsSane :
      (p : Pc) (b : Bool) (m' : Machine)
      → m.pc m.kernel.current ≡ p
      → resume m.kernel.current p m ≡ some (b, m')
      → IsSane m'
  unfolding resume
  resume-IsSane outside b m' at e = cc
  resume-IsSane (downing s) b m' at e =
      down_round-IsSane m v s outside b m' (ap sleeps at) (λ q. cc) (λ q. cc) tt (ap makes (sym at))
        e
  resume-IsSane (acquiring l a) b m' at e =
      down_round-IsSane m v (of_lock l) (acquired l a) b m' (ap sleeps at) (λ q. cc) (λ q. cc) tt
        (ap makes (sym at)) e
  resume-IsSane (acquired l a) b m' at e =
      let r : m' ≡ record m {
        holder = assign m.holder l (some m.kernel.current);
        pc = assign m.pc m.kernel.current (going_on a);
      } =
        cc in
      rw r (
        place-IsSane m v (going_on a) (λ q. cc) (going_on_works a) (going_on-Known m.next_waiter a)
          (going_on-makes a ∙ ap makes (sym at)))
  resume-IsSane (released l a) b m' at e =
      up_then-IsSane m v (of_lock l) (going_on a) b m' (λ q. cc) (going_on_works a)
        (going_on-Known m.next_waiter a) (going_on-makes a ∙ ap makes (sym at)) e
  resume-IsSane (leaving w l) b m' at e =
      let k : w < m.next_waiter = subst (Known m.next_waiter) at (v.lists.known m.kernel.current) in
      up_then-IsSane m v (of_lock l) (waiting w l) b m' (λ q. cc) (λ q. cc) k (ap makes (sym at)) e
  resume-IsSane (waiting w l) b m' at e =
      down_round-IsSane m v (of_waiter w) (acquiring l returns) b m' (ap sleeps at) (λ q. cc)
        (λ q. cc) tt (ap makes (sym at)) e
  resume-IsSane (signalling w) b m' at e =
      up_then-IsSane m v (of_waiter w) outside b m' (λ q. cc) (λ q. cc) tt (ap makes (sym at)) e
  resume-IsSane (broadcasting a l) b m' at e =
      elim (Option-cases (broadcast_round a l m.kernel.current m)) [
        | inl none' ↦ let e' = rw none' at e in cc
        | inr (m₁, ok) ↦
            let e' = rw (ok, ◌>>=◌) at e in
            let r : m' ≡ m₁ = cc in rw r (broadcast-IsSane m v a l m₁ at ok)
      ]
  resume-IsSane (rousing w a l) b m' at e =
      up_then-IsSane m v (of_waiter w) (broadcasting a l) b m' (λ q. cc) (λ q. cc) tt
        (ap makes (sym at)) e
  resume-IsSane (numbering page) b m' at e = elim (Option-cases (allocate_tid page m)) [
    | inl none' ↦ let e' = rw none' at e in cc
    | inr (m₁, ok) ↦
        let e' = rw (ok, ◌>>=◌) at e in
        let r : m' ≡ m₁ = cc in rw r (allocate_tid-IsSane page m₁ at ok)
  ]
  resume-IsSane (readying page tid) b m' at e =
      let e' = rw (add_to_queue_lem m v page tid (ap makes at), ◌>>=◌) at e in
      let r : m' ≡ joined_queue page tid m = cc in rw r (joined-IsSane m v page tid (ap makes at))
  resume-IsSane idling b m' at e = elim (Option-cases (thread_block m.kernel)) [
    | inl none' ↦ let e' = rw none' at e in cc
    | inr (k, ok) ↦
        let e' = rw (ok, ◌>>=◌) at e in
        let r : m' ≡ record m { kernel = k } = cc in
        rw r (idle-Sane m.kernel k m.waiters m.next_waiter m.pc v at ok)
  ]
