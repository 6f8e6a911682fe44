-- ===== src/Synch/Calls.antt =====
-- What each call and each step does to the run list.
use cs162_group.Prelude.{
  ℕ, ◌-◌, ◌≡◌, refl, sym, ap, ◌∙◌, Bool, false, some, inl, inr, ltb, List, [], ◌∷◌, ◌>>=◌,
  Bool-cases,
}
use cs162_group.Threads.{Kernel, assign, points_to}
use cs162_group.Synch.{
  returns, Sema, plain, of_lock, assign_sema, Machine, downing, acquiring, acquired, released,
  leaving, signalling, broadcasting, lock_acquire, lock_release, cond_wait, cond_signal,
  signal_first, sema_try_down, lock_try_acquire,
}
use cs162_group.Synch.System.{
  Call, call_down, call_try_down, call_up, call_acquire, call_try_acquire, call_release, call_wait,
  call_signal, call_broadcast, enter, Step, resumes, calls, preempted, exits, creates,
}
use cs162_group.Synch.Invariant.{IsSane}
use cs162_group.Synch.Ups.{upped, sema_up_lem, append_none, first_of}
use cs162_group.Synch.Resumes.{held_lem}
use cs162_group.Synch.Creates.{thread_create_lem}
use cs162_group.Synch.Shifts.{
  Shifted, same-Shifted, here, go_to-Shifted, yield-Shifted, exit-Shifted, resume-Shifted,
}

module _ (m : Machine) (v : IsSane m) where
  abbrev k : Kernel
  k = m.kernel

  abbrev c : ℕ
  c = k.current

  try-Shifted : (s : Sema) → Shifted false k (sema_try_down s m).1.kernel
  unfolding sema_try_down
  try-Shifted s = elim (Bool-cases (ltb 0 (m.value s))) [
    | inl more ↦ rw more (same-Shifted k)
    | inr less ↦ rw less (same-Shifted k)
  ]

  signal-Shifted :
      (ws : List ℕ) (m₁ m' : Machine)
      → m₁.kernel ≡ k
      → signal_first ws m₁ ≡ some m'
      → Shifted false k m'.kernel
  signal-Shifted [] m₁ m' q e =
      let r : m' ≡ m₁ = cc in rw (ap (λ x. x.kernel) r ∙ q) (same-Shifted k)
  signal-Shifted (w ∷ ws) m₁ m' q e = go_to-Shifted m v m₁ m' (signalling w) q e

  pub enter-Shifted :
      (call : Call) (m' : Machine) → enter call m ≡ some m' → Shifted false k m'.kernel
  unfolding lock_acquire lock_try_acquire lock_release cond_wait cond_signal sema_try_down
  enter-Shifted (call_down s) m' e = go_to-Shifted m v m m' (downing (plain s)) refl e
  enter-Shifted (call_try_down s) m' e =
      let r : m' ≡ (sema_try_down (plain s) m).1 = cc in rw r (try-Shifted (plain s))
  enter-Shifted (call_up s) m' e =
      let e' = rw (sema_up_lem m v (plain s)) at e in
      let r : m' ≡ upped (plain s) m = cc in rw r (first_of (m.waiters (plain s)), refl)
  enter-Shifted (call_acquire n) m' e =
      let e₁ = rw (held_lem m v n, ◌>>=◌) at e in
      elim (Bool-cases (points_to (m.holder n) c)) [
        | inl held ↦ let e₂ = rw held at e₁ in cc
        | inr free ↦ let e₂ = rw free at e₁ in go_to-Shifted m v m m' (acquiring n returns) refl e₂
      ]
  enter-Shifted (call_try_acquire n) m' e =
      let e₁ = rw (held_lem m v n, ◌>>=◌) at e in
      elim (Bool-cases (points_to (m.holder n) c)) [
        | inl held ↦ let e₂ = rw held at e₁ in cc
        | inr free ↦ elim (Bool-cases (ltb 0 (m.value (of_lock n)))) [
          | inl more ↦
              let e₂ = rw (free, more, here m v) at e₁ in
              let r : m' ≡ record m {
                value = assign_sema m.value (of_lock n) (m.value (of_lock n) - 1);
                pc = assign m.pc c (acquired n returns);
              } =
                cc in
              rw r (same-Shifted k)
          | inr less ↦
              let e₂ = rw (free, less, here m v) at e₁ in
              let r : m' ≡ m = cc in rw r (same-Shifted k)
        ]
      ]
  enter-Shifted (call_release n) m' e =
      let e₁ = rw (held_lem m v n, ◌>>=◌) at e in
      elim (Bool-cases (points_to (m.holder n) c)) [
        | inl held ↦ let e₂ = rw held at e₁ in go_to-Shifted m v _ m' (released n returns) refl e₂
        | inr free ↦ let e₂ = rw free at e₁ in cc
      ]
  enter-Shifted (call_wait a n) m' e =
      let e₁ = rw (held_lem m v n, ◌>>=◌) at e in
      elim (Bool-cases (points_to (m.holder n) c)) [
        | inl held ↦
            let e₂ = rw held at e₁ in go_to-Shifted m v _ m' (leaving m.next_waiter n) refl e₂
        | inr free ↦ let e₂ = rw free at e₁ in cc
      ]
  enter-Shifted (call_signal a n) m' e =
      let e₁ = rw (held_lem m v n, ◌>>=◌) at e in
      elim (Bool-cases (points_to (m.holder n) c)) [
        | inl held ↦
            let e₂ = rw (held, ◌>>=◌) at e₁ in signal-Shifted (m.cond_waiters a) _ m' refl e₂
        | inr free ↦ let e₂ = rw free at e₁ in cc
      ]
  enter-Shifted (call_broadcast a n) m' e = go_to-Shifted m v m m' (broadcasting a n) refl e

pub Step-Shifted :
    {m m' : Machine} {b : Bool} → IsSane m → Step m b m' → Shifted b m.kernel m'.kernel
Step-Shifted {m} {m'} {b} v (resumes e) = resume-Shifted m v (m.pc m.kernel.current) b m' refl e
Step-Shifted {m} {m'} v (calls call out e) = enter-Shifted m v call m' e
Step-Shifted {m} v (preempted {k} e) = yield-Shifted m v k e
Step-Shifted {m} v (exits {k} out e) = exit-Shifted m v k e
Step-Shifted {m} {m'} v (creates page name priority out free e) =
    rw (thread_create_lem m m' v page name priority out free e)
      ([], sym (append_none m.kernel.ready_list))
