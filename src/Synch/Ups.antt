-- ===== src/Synch/Ups.antt =====
-- The steps of semaphores and of the threads' places keep the lists in order.
use cs162_group.Prelude.{
  ℕ, ◌+◌, ◌-◌, ◌≡◌, ◌≢◌, refl, sym, ap, Bool, some, inl, inr, List, [], ◌∷◌, ◌++◌, ◌>>=◌, ◌==◌,
  arith, Bool-cases, Option-cases,
}
use mathlib.Core.Path.{subst, fun_ext}
use cs162_group.Threads.{Kernel, Status, ready, assign, thread_block}
use cs162_group.Synch.{
  Sema, same, assign_sema, Machine, Pc, idling, down_round, sema_up, wake_first, all_but_first,
  go_to,
}
use cs162_group.Synch.Invariant.{sleeps, makes, Known, Sane, IsSane}
use cs162_group.Synch.Keeps.{same-eq, current_lem}
use cs162_group.Synch.Switches.{sleep-Sane}
use cs162_group.Synch.Wakes.{unblock_lem, woken-Sane}
use cs162_group.Synch.Runs.{pc-Sane}

abbrev pub first_of : List ℕ → List ℕ
first_of [] = []
first_of (t ∷ ts) = t ∷ []

abbrev readied : List ℕ → (ℕ → Status) → ℕ → Status
readied [] f = f
readied (t ∷ ts) f = assign f t ready

-- The machine after `sema_up`: the first waiter, if there is one, is at the end of the run list.
abbrev pub upped : Sema → Machine → Machine
upped s m = record m {
  kernel = record m.kernel {
    ready_list = m.kernel.ready_list ++ first_of (m.waiters s);
    status = readied (m.waiters s) m.kernel.status;
  };
  waiters = assign_sema m.waiters s (all_but_first (m.waiters s));
  value = assign_sema m.value s (m.value s + 1);
}

pub append_none : (xs : List ℕ) → xs ++ [] ≡ xs
append_none [] = refl
append_none (x ∷ xs) = ap (λ ys. x ∷ ys) (append_none xs)

module _ (m : Machine) (v : IsSane m) where
  abbrev roused : List ℕ → Kernel
  roused xs = record m.kernel {
    ready_list = m.kernel.ready_list ++ first_of xs;
    status = readied xs m.kernel.status;
  }

  emptied : (s : Sema) → m.waiters s ≡ [] → m.waiters ≡ assign_sema m.waiters s []
  emptied s e =
      fun_ext
        (λ r. elim (Bool-cases (same r s)) [ inl h ↦ rw (h, same-eq r s h) e | inr h ↦ rw h refl ])

  quiet : m.kernel ≡ roused []
  quiet = ap (λ xs. record m.kernel { ready_list = xs }) (sym (append_none m.kernel.ready_list))

  wakes : (s : Sema) (xs : List ℕ) → m.waiters s ≡ xs → wake_first xs m.kernel ≡ some (roused xs)
  wakes s [] e = ap some quiet
  wakes s (t ∷ ts) e = unblock_lem m.kernel m.waiters m.next_waiter m.pc v s t ts e

  -- No assertion of `sema_up` fails.
  pub sema_up_lem : (s : Sema) → sema_up s m ≡ some (upped s m)
  unfolding sema_up
  sema_up_lem s = rw (wakes s (m.waiters s) refl, ◌>>=◌) refl

  roused-Sane :
      (s : Sema) (xs : List ℕ)
      → m.waiters s ≡ xs
      → Sane (roused xs) (assign_sema m.waiters s (all_but_first xs)) m.next_waiter m.pc
  roused-Sane s [] e =
      subst (λ w. Sane (roused []) w m.next_waiter m.pc) (emptied s e)
        (subst (λ k. Sane k m.waiters m.next_waiter m.pc) quiet v)
  roused-Sane s (t ∷ ts) e = woken-Sane m.kernel m.waiters m.next_waiter m.pc v s t ts e

  pub upped-IsSane : (s : Sema) → IsSane (upped s m)
  upped-IsSane s = roused-Sane s (m.waiters s) refl

  pub go_to-IsSane :
      (p : Pc) (m' : Machine)
      → m.pc m.kernel.current ≢ idling
      → p ≢ idling
      → Known m.next_waiter p
      → makes p ≡ makes (m.pc m.kernel.current)
      → go_to p m ≡ some m'
      → IsSane m'
  unfolding go_to
  go_to-IsSane p m' busy works knows kept e =
      let e' = rw (current_lem m.kernel m.waiters m.next_waiter m.pc v, ◌>>=◌) at e in
      let q : m' ≡ record m { pc = assign m.pc m.kernel.current p } = cc in
      rw q (pc-Sane m.kernel m.waiters m.next_waiter m.pc v p busy works knows kept)

  pub down_round-IsSane :
      (s : Sema) (after : Pc) (b : Bool) (m' : Machine)
      → sleeps (m.pc m.kernel.current) ≡ some s
      → m.pc m.kernel.current ≢ idling
      → after ≢ idling
      → Known m.next_waiter after
      → makes after ≡ makes (m.pc m.kernel.current)
      → down_round s after m ≡ some (b, m')
      → IsSane m'
  unfolding down_round
  down_round-IsSane s after b m' asks busy works knows kept e = elim (Bool-cases (m.value s == 0)) [
    | inl zero' ↦
        let e' = rw (current_lem m.kernel m.waiters m.next_waiter m.pc v, ◌>>=◌, zero') at e in
        elim (Option-cases (thread_block m.kernel)) [
          | inl none' ↦ absurd (ground (arith, rw none' at e'))
          | inr (k, at) ↦
              let e'' = rw (at, ◌>>=◌) at e' in
              let w = assign_sema m.waiters s (m.waiters s ++ m.kernel.current ∷ []) in
              let q : m' ≡ record m { kernel = k; waiters = w } = cc in
              rw q (sleep-Sane m.kernel k m.waiters m.next_waiter m.pc v s asks at)
        ]
    | inr more ↦
        let e' = rw (current_lem m.kernel m.waiters m.next_waiter m.pc v, ◌>>=◌, more) at e in
        let q : m' ≡ record m {
          value = assign_sema m.value s (m.value s - 1);
          pc = assign m.pc m.kernel.current after;
        } =
          cc in
        rw q (pc-Sane m.kernel m.waiters m.next_waiter m.pc v after busy works knows kept)
  ]
