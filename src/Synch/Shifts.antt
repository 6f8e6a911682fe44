-- ===== src/Synch/Shifts.antt =====
-- What each step does to the run list: threads join at its end and leave at its front.
use cs162_group.Prelude.{
  ℕ, ◌+◌, ◌-◌, ◌≡◌, refl, sym, ap, ◌∙◌, Bool, true, false, some, inl, inr, List, [], ◌∷◌, ◌++◌,
  ◌>>=◌, ◌==◌, ◌||◌, if◌then◌else◌, Bool-cases, Option-cases,
}
use cs162_group.Threads.{
  Kernel, ready, blocked, dying, assign, points_to, thread_yield, thread_exit, thread_block,
  thread_current, remove_from,
}
use cs162_group.Threads.Queue.{Taken, schedule-Switched}
use cs162_group.Synch.{
  returns, readies, numbering, readying, going_on, tid_lock, allocate_tid, Sema, of_lock, of_waiter,
  assign_sema, Machine, Pc, outside, downing, acquiring, acquired, released, leaving, waiting,
  signalling, broadcasting, rousing, idling, down_round, sema_up, lock_release, go_to, is_empty,
  rouse_first, broadcast_round, resume,
}
use cs162_group.Synch.Invariant.{makes, IsSane}
use cs162_group.Synch.Keeps.{current_lem}
use cs162_group.Synch.Ups.{upped, sema_up_lem, append_none, first_of}
use cs162_group.Synch.Resumes.{held_lem}
use cs162_group.Synch.Joins.{numbered-Sane, joined_queue, add_to_queue_lem}

-- Without a switch the run list only grows. With one, its first thread runs.
abbrev pub Shifted : Bool → Kernel → Kernel → Type 0
Shifted false k k' = (zs : List ℕ) × (k'.ready_list ≡ k.ready_list ++ zs)
Shifted true k k' =
    (zs : List ℕ) × Taken (k.ready_list ++ zs) k.idle_thread k'.current k'.ready_list

pub same-Shifted : (k : Kernel) → Shifted false k k
same-Shifted k = ([], sym (append_none k.ready_list))

module _ (m : Machine) (v : IsSane m) where
  abbrev k : Kernel
  k = m.kernel

  abbrev c : ℕ
  c = k.current

  pub here : thread_current k ≡ some c
  here = current_lem k m.waiters m.next_waiter m.pc v

  pub yield-Shifted : (k' : Kernel) → thread_yield k ≡ some k' → Shifted true k k'
  unfolding thread_yield
  yield-Shifted k' e =
      let e' = rw (here, ◌>>=◌) at e in
      let j : Kernel = record k {
        ready_list = if points_to k.idle_thread c then k.ready_list else k.ready_list ++ c ∷ [];
        status = assign k.status c ready;
      } in
      let s = schedule-Switched j k' e' in
      elim (Bool-cases (points_to k.idle_thread c)) [
        | inl idle ↦ ([], rw (append_none k.ready_list) (rw idle at s.taken))
        | inr busy ↦ (c ∷ [], rw busy at s.taken)
      ]

  pub exit-Shifted : (k' : Kernel) → thread_exit k ≡ some k' → Shifted true k k'
  unfolding thread_exit
  exit-Shifted k' e =
      let e' = rw (here, ◌>>=◌) at e in
      let j : Kernel = record k {
        all_list = remove_from c k.all_list;
        status = assign k.status c dying;
      } in
      let s = schedule-Switched j k' e' in ([], rw (append_none k.ready_list) s.taken)

  pub block-Shifted : (k' : Kernel) → thread_block k ≡ some k' → Shifted true k k'
  unfolding thread_block
  block-Shifted k' e =
      let e' = rw (here, ◌>>=◌) at e in
      let j : Kernel = record k { status = assign k.status c blocked } in
      let s = schedule-Switched j k' e' in ([], rw (append_none k.ready_list) s.taken)

  go_to-kernel : (m₁ m' : Machine) (q : Pc) → go_to q m₁ ≡ some m' → m'.kernel ≡ m₁.kernel
  unfolding go_to
  go_to-kernel m₁ m' q e = elim (Option-cases (thread_current m₁.kernel)) [
    | inl none' ↦ let e' = rw none' at e in cc
    | inr (t, ok) ↦
        let e' = rw (ok, ◌>>=◌) at e in
        let r : m' ≡ record m₁ { pc = assign m₁.pc t q } = cc in ap (λ x. x.kernel) r
  ]

  pub go_to-Shifted :
      (m₁ m' : Machine) (q : Pc) → m₁.kernel ≡ k → go_to q m₁ ≡ some m' → Shifted false k m'.kernel
  go_to-Shifted m₁ m' q e g = rw (go_to-kernel m₁ m' q g ∙ e) (same-Shifted k)

  down_round-Shifted :
      (s : Sema) (after : Pc) (b : Bool) (m' : Machine)
      → down_round s after m ≡ some (b, m')
      → Shifted b k m'.kernel
  unfolding down_round
  down_round-Shifted s after b m' e = elim (Bool-cases (m.value s == 0)) [
    | inl zero' ↦
        let e' = rw (here, ◌>>=◌, zero') at e in
        elim (Option-cases (thread_block m.kernel)) [
          | inl none' ↦ let e'' = rw none' at e' in cc
          | inr (k', ok) ↦
              let e'' = rw (ok, ◌>>=◌) at e' in
              let w = assign_sema m.waiters s (m.waiters s ++ c ∷ []) in
              let r : m' ≡ record m { kernel = k'; waiters = w } = cc in
              let b' : b ≡ true = cc in rw (r, b') (block-Shifted k' ok)
        ]
    | inr more ↦
        let e' = rw (here, ◌>>=◌, more) at e in
        let r : m'
            ≡ record m { value = assign_sema m.value s (m.value s - 1); pc = assign m.pc c after } =
          cc in
        let b' : b ≡ false = cc in rw (r, b') (same-Shifted k)
  ]

  up_then-Shifted :
      (s : Sema) (q : Pc) (b : Bool) (m' : Machine)
      → ◌>>=◌ {B = Bool × Machine}
          (sema_up s m)
          (λ m₁. some (false, record m₁ { pc = assign m₁.pc c q }))
        ≡ some (b, m')
      → Shifted b k m'.kernel
  up_then-Shifted s q b m' e =
      let e' = rw (sema_up_lem m v s, ◌>>=◌) at e in
      let u = upped s m in
      let r : m' ≡ record u { pc = assign u.pc c q } = cc in
      let b' : b ≡ false = cc in rw (r, b') (first_of (m.waiters s), refl)

  rouse-kernel : (ws : List ℕ) (a n : ℕ) → (rouse_first ws a n c m).kernel ≡ k
  rouse-kernel [] a n = refl
  rouse-kernel (w ∷ ws) a n = refl

  broadcast-kernel : (a n : ℕ) (m' : Machine) → broadcast_round a n c m ≡ some m' → m'.kernel ≡ k
  unfolding broadcast_round
  broadcast-kernel a n m' e =
      let e₁ = rw (held_lem m v n, ◌>>=◌) at e in
      elim (Bool-cases (is_empty (m.cond_waiters a) || points_to (m.holder n) c)) [
        | inl ok ↦
            let e₂ = rw ok at e₁ in
            let r : m' ≡ rouse_first (m.cond_waiters a) a n c m = cc in
            ap (λ x. x.kernel) r ∙ rouse-kernel (m.cond_waiters a) a n
        | inr bad ↦ let e₂ = rw bad at e₁ in cc
      ]

  allocate_tid-Shifted :
      (page : ℕ) (m' : Machine) → allocate_tid page m ≡ some m' → Shifted false k m'.kernel
  unfolding allocate_tid lock_release
  allocate_tid-Shifted page m' e =
      let n = k.next_tid in
      let m₁ : Machine = record m { kernel = record k { next_tid = n + 1 } } in
      let e₁ =
        rw (held_lem m₁ (numbered-Sane k m.waiters m.next_waiter m.pc (n + 1) v) tid_lock, ◌>>=◌) at
          e in
      elim (Bool-cases (points_to (m.holder tid_lock) c)) [
        | inl held ↦
            let e₂ = rw held at e₁ in
            let q = go_to-kernel _ m' (released tid_lock (readies page n)) e₂ in
            ([], ap (λ x. x.ready_list) q ∙ sym (append_none k.ready_list))
        | inr free ↦ let e₂ = rw free at e₁ in cc
      ]

  pub resume-Shifted :
      (p : Pc) (b : Bool) (m' : Machine)
      → m.pc c ≡ p
      → resume c p m ≡ some (b, m')
      → Shifted b k m'.kernel
  unfolding resume
  resume-Shifted outside b m' at e = cc
  resume-Shifted (downing s) b m' at e = down_round-Shifted s outside b m' e
  resume-Shifted (acquiring n a) b m' at e = down_round-Shifted (of_lock n) (acquired n a) b m' e
  resume-Shifted (acquired n a) b m' at e =
      let r : m'
          ≡ record m { holder = assign m.holder n (some c); pc = assign m.pc c (going_on a) } =
        cc in
      let b' : b ≡ false = cc in rw (r, b') (same-Shifted k)
  resume-Shifted (released n a) b m' at e = up_then-Shifted (of_lock n) (going_on a) b m' e
  resume-Shifted (leaving w n) b m' at e = up_then-Shifted (of_lock n) (waiting w n) b m' e
  resume-Shifted (waiting w n) b m' at e =
      down_round-Shifted (of_waiter w) (acquiring n returns) b m' e
  resume-Shifted (signalling w) b m' at e = up_then-Shifted (of_waiter w) outside b m' e
  resume-Shifted (broadcasting a n) b m' at e = elim (Option-cases (broadcast_round a n c m)) [
    | inl none' ↦ let e' = rw none' at e in cc
    | inr (m₁, ok) ↦
        let e' = rw (ok, ◌>>=◌) at e in
        let r : m' ≡ m₁ = cc in
        let b' : b ≡ false = cc in
        rw (b', ap (λ x. x.kernel) r ∙ broadcast-kernel a n m₁ ok) (same-Shifted k)
  ]
  resume-Shifted (rousing w a n) b m' at e = up_then-Shifted (of_waiter w) (broadcasting a n) b m' e
  resume-Shifted (numbering page) b m' at e = elim (Option-cases (allocate_tid page m)) [
    | inl none' ↦ let e' = rw none' at e in cc
    | inr (m₁, ok) ↦
        let e' = rw (ok, ◌>>=◌) at e in
        let r : m' ≡ m₁ = cc in
        let b' : b ≡ false = cc in rw (r, b') (allocate_tid-Shifted page m₁ ok)
  ]
  resume-Shifted (readying page tid) b m' at e =
      let e' = rw (add_to_queue_lem m v page tid (ap makes at), ◌>>=◌) at e in
      let r : m' ≡ joined_queue page tid m = cc in
      let b' : b ≡ false = cc in rw (r, b') (page ∷ [], refl)
  resume-Shifted idling b m' at e = elim (Option-cases (thread_block m.kernel)) [
    | inl none' ↦ let e' = rw none' at e in cc
    | inr (k', ok) ↦
        let e' = rw (ok, ◌>>=◌) at e in
        let r : m' ≡ record m { kernel = k' } = cc in
        let b' : b ≡ true = cc in rw (r, b') (block-Shifted k' ok)
  ]
