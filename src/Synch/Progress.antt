-- ===== src/Synch/Progress.antt =====
-- The timer can always preempt: no assertion of `thread_yield` fails.
use cs162_group.Prelude.{
  ℕ, ◌<◌, ◌≡◌, refl, true, false, Option, none, some, inl, inr, List, [], ◌∷◌, ◌++◌, arith, ◌>>=◌,
  ◌==◌, if◌then◌else◌, Bool-cases, count,
}
use cs162_group.Threads.{
  Kernel, running, ready, is_running, is_dying, assign, points_to, thread_yield, schedule,
  next_thread_to_run, thread_schedule_tail, if_empty, rest,
}
use cs162_group.Synch.{Sema, Machine, Pc}
use cs162_group.Synch.System.{Reach}
use cs162_group.Synch.Invariant.{Sane}
use cs162_group.Synch.Keeps.{current_lem}
use cs162_group.Synch.Locks.{points_to-eq}
use cs162_group.Synch.Steps.{Reach-IsSane}

abbrev ran : Kernel → Kernel
ran j = record j { status = assign j.status j.current running; thread_ticks = 0 }

tail_total :
    (prev : Option ℕ) (j : Kernel)
    → ((p : ℕ) → prev ≡ some p → is_dying (assign j.status j.current running p) ≡ false)
    → (k' : Kernel) × (thread_schedule_tail prev j ≡ some k')
unfolding thread_schedule_tail
tail_total none j live = (ran j, refl)
tail_total (some p) j live = (ran j, rw (live p refl) refl)

schedule_total :
    (k : Kernel) (n : ℕ)
    → is_running (k.status k.current) ≡ false
    → is_dying (k.status k.current) ≡ false
    → if_empty k.ready_list k.idle_thread ≡ some n
    → k.magic n ≡ true
    → (k' : Kernel) × (schedule k ≡ some k')
unfolding schedule next_thread_to_run
schedule_total k n off live next alive =
    let j : Kernel = record k { ready_list = rest k.ready_list; current = n } in
    let prev = (if k.current == n then none else some k.current) in
    let (k', e) = tail_total prev j (λ p e. elim (Bool-cases (k.current == n)) [
      | inl self ↦ absurd (ground (arith, e, self))
      | inr other ↦ ground (arith, e, other, live)
    ]) in
    (k', rw (off, ◌>>=◌, next, alive) e)

module _ (k : Kernel) (waiters : Sema → List ℕ) (next : ℕ) (pc : ℕ → Pc)
    (v : Sane k waiters next pc) where
  abbrev c : ℕ
  c = k.current

  head-alive : (x : ℕ) (xs : List ℕ) → k.ready_list ≡ x ∷ xs → k.magic x ≡ true
  head-alive x xs e =
      let h : 0 < count x k.ready_list = rw e (ground arith) in (v.lists.queued x h).1

  -- There is a thread to switch to.
  next-alive :
      (xs : List ℕ)
      → k.ready_list ≡ xs
      → (n : ℕ) × (if_empty (if points_to k.idle_thread c then xs else xs ++ c ∷ []) k.idle_thread
          ≡ some n)
        × (k.magic n ≡ true)
  next-alive [] e = elim (Bool-cases (points_to k.idle_thread c)) [
    | inl idle ↦ (c, rw idle (points_to-eq k.idle_thread c idle), v.alive)
    | inr busy ↦ (c, rw busy refl, v.alive)
  ]
  next-alive (x ∷ xs) e = elim (Bool-cases (points_to k.idle_thread c)) [
    | inl idle ↦ (x, rw idle refl, head-alive x xs e)
    | inr busy ↦ (x, rw busy refl, head-alive x xs e)
  ]

  abbrev asked : Kernel
  asked = record k {
    ready_list = if points_to k.idle_thread c then k.ready_list else k.ready_list ++ c ∷ [];
    status = assign k.status c ready;
  }

  yield_total : (k' : Kernel) × (thread_yield k ≡ some k')
  unfolding thread_yield
  yield_total =
      let (n, next', alive) = next-alive k.ready_list refl in
      let (k', e) : (k' : Kernel) × (schedule asked ≡ some k') =
        schedule_total asked n (ground arith) (ground arith) next' alive in
      (k', rw (current_lem k waiters next pc v, ◌>>=◌) e)

-- In every state of a run the thread that runs can yield.
pub Reach-thread_yield :
    (value : Sema → ℕ) {m : Machine}
    → Reach value m
    → (k : Kernel) × (thread_yield m.kernel ≡ some k)
Reach-thread_yield value {m} reach =
    yield_total m.kernel m.waiters m.next_waiter m.pc (Reach-IsSane value reach)
