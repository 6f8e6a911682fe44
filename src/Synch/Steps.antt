-- ===== src/Synch/Steps.antt =====
-- Every step of the machine keeps the lists in order.
use cs162_group.Prelude.{
  ℕ, ◌+◌, ◌-◌, ◌≡◌, refl, sym, ap, Bool, none, some, inl, inr, List, [], ◌∷◌, ◌++◌, ◌>>=◌, ltb,
  arith, Bool-cases,
}
use cs162_group.Threads.{assign, points_to}
use cs162_group.Synch.{
  returns, Sema, plain, of_lock, of_waiter, assign_sema, Machine, outside, downing, acquiring,
  acquired, leaving, signalling, broadcasting, sema_try_down, lock_acquire, lock_try_acquire,
  cond_wait, cond_signal, signal_first, all_but_first,
}
use cs162_group.Synch.System.{
  Call, call_down, call_try_down, call_up, call_acquire, call_try_acquire, call_release, call_wait,
  call_signal, call_broadcast, enter, Step, resumes, calls, preempted, exits, creates, Reach, start,
  later,
}
use cs162_group.Synch.Invariant.{makes, IsSane}
use cs162_group.Synch.Boot.{boot-IsSane}
use cs162_group.Synch.Switches.{yield-Sane, exit-Sane}
use cs162_group.Synch.Runs.{waiter-Sane}
use cs162_group.Synch.Creates.{thread_create-IsSane}
use cs162_group.Synch.Ups.{upped, sema_up_lem, upped-IsSane, go_to-IsSane}
use cs162_group.Synch.Resumes.{held_lem, here, place-IsSane, release-IsSane, resume-IsSane}

signal-IsSane :
    (ws : List ℕ) (m m' : Machine)
    → IsSane m
    → m.pc m.kernel.current ≡ outside
    → signal_first ws m ≡ some m'
    → IsSane m'
signal-IsSane [] m m' v at e = let r : m' ≡ m = cc in rw r v
signal-IsSane (w ∷ ws) m m' v at e =
    go_to-IsSane m v (signalling w) m' (λ q. cc) (λ q. cc) tt (ap makes (sym at)) e

module _ (m : Machine) (v : IsSane m) where
  abbrev c : ℕ
  c = m.kernel.current

  try-IsSane : (s : Sema) → IsSane (sema_try_down s m).1
  unfolding sema_try_down
  try-IsSane s = elim (Bool-cases (ltb 0 (m.value s))) [
    | inl more ↦ rw more v
    | inr less ↦ rw less v
  ]

  pub enter-IsSane :
      (call : Call) (m' : Machine) → m.pc c ≡ outside → enter call m ≡ some m' → IsSane m'
  unfolding lock_acquire lock_try_acquire cond_wait cond_signal sema_try_down
  enter-IsSane (call_down s) m' at e =
      go_to-IsSane m v (downing (plain s)) m' (λ q. cc) (λ q. cc) tt (ap makes (sym at)) e
  enter-IsSane (call_try_down s) m' at e =
      let r : m' ≡ (sema_try_down (plain s) m).1 = cc in rw r (try-IsSane (plain s))
  enter-IsSane (call_up s) m' at e =
      let e' = rw (sema_up_lem m v (plain s)) at e in
      let r : m' ≡ upped (plain s) m = cc in rw r (upped-IsSane m v (plain s))
  enter-IsSane (call_acquire l) m' at e =
      let e₁ = rw (held_lem m v l, ◌>>=◌) at e in
      elim (Bool-cases (points_to (m.holder l) c)) [
        | inl held ↦ let e₂ = rw held at e₁ in cc
        | inr free ↦
            let e₂ = rw free at e₁ in
            go_to-IsSane m v (acquiring l returns) m' (λ q. cc) (λ q. cc) tt (ap makes (sym at)) e₂
      ]
  enter-IsSane (call_try_acquire l) m' at e =
      let e₁ = rw (held_lem m v l, ◌>>=◌) at e in
      elim (Bool-cases (points_to (m.holder l) c)) [
        | inl held ↦ let e₂ = rw held at e₁ in cc
        | inr free ↦ elim (Bool-cases (ltb 0 (m.value (of_lock l)))) [
          | inl more ↦
              let e₂ = rw (free, more, here m v) at e₁ in
              let r : m' ≡ record m {
                value = assign_sema m.value (of_lock l) (m.value (of_lock l) - 1);
                pc = assign m.pc c (acquired l returns);
              } =
                cc in
              rw r
                (place-IsSane m v (acquired l returns) (λ q. cc) (λ q. cc) tt (ap makes (sym at)))
          | inr less ↦ let e₂ = rw (free, less, here m v) at e₁ in let r : m' ≡ m = cc in rw r v
        ]
      ]
  enter-IsSane (call_release l) m' at e =
      release-IsSane m v returns l m' (λ q. cc) (ap makes (sym at)) e
  enter-IsSane (call_wait a l) m' at e =
      let e₁ = rw (held_lem m v l, ◌>>=◌) at e in
      elim (Bool-cases (points_to (m.holder l) c)) [
        | inl held ↦
            let e₂ = rw held at e₁ in
            let w = m.next_waiter in
            let m₁ : Machine = record m {
              value = assign_sema m.value (of_waiter w) 0;
              waiters = assign_sema m.waiters (of_waiter w) [];
              next_waiter = w + 1;
              holder = assign m.holder l none;
              cond_waiters = assign m.cond_waiters a (m.cond_waiters a ++ w ∷ []);
            } in
            go_to-IsSane m₁ (waiter-Sane m.kernel m.waiters w m.pc v) (leaving w l) m' (λ q. cc)
              (λ q. cc) (omega arith) (ap makes (sym at)) e₂
        | inr free ↦ let e₂ = rw free at e₁ in cc
      ]
  enter-IsSane (call_signal a l) m' at e =
      let e₁ = rw (held_lem m v l, ◌>>=◌) at e in
      elim (Bool-cases (points_to (m.holder l) c)) [
        | inl held ↦
            let e₂ = rw (held, ◌>>=◌) at e₁ in
            let m₁ : Machine = record m {
              cond_waiters = assign m.cond_waiters a (all_but_first (m.cond_waiters a));
            } in
            signal-IsSane (m.cond_waiters a) m₁ m' v at e₂
        | inr free ↦ let e₂ = rw free at e₁ in cc
      ]
  enter-IsSane (call_broadcast a l) m' at e =
      go_to-IsSane m v (broadcasting a l) m' (λ q. cc) (λ q. cc) tt (ap makes (sym at)) e

-- A step keeps the lists in order.
pub Step-IsSane : {m m' : Machine} {b : Bool} → IsSane m → Step m b m' → IsSane m'
Step-IsSane {m} {m'} {b} v (resumes e) = resume-IsSane m v (m.pc m.kernel.current) b m' refl e
Step-IsSane {m} {m'} v (calls call out e) = enter-IsSane m v call m' out e
Step-IsSane {m} v (preempted {k} e) = yield-Sane m.kernel k m.waiters m.next_waiter m.pc v e
Step-IsSane {m} v (exits {k} out e) = exit-Sane m.kernel k m.waiters m.next_waiter m.pc v out e
Step-IsSane {m} {m'} v (creates page name priority out free e) =
    thread_create-IsSane m m' v page name priority out free e

-- In each state of a run, one live thread runs and the lists are in order. The threads of a run call the
-- functions of synch.c, create threads and exit, and sleep in no other way, and the timer may preempt
-- between any two steps. A thread is then once in the run list if it is ready and once in the list of the
-- semaphore it is to take if it is blocked, and in no list else. Outside of the lists only the idle thread
-- may be ready or blocked, and a thread may be blocked that exactly one live thread is about to make
-- ready at the end of `thread_create`.
pub Reach-IsSane : (value : Sema → ℕ) {m : Machine} → Reach value m → IsSane m
Reach-IsSane value start = boot-IsSane value
Reach-IsSane value (later r s) = Step-IsSane (Reach-IsSane value r) s
