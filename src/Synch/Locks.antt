-- ===== src/Synch/Locks.antt =====
-- What each step does to a lock.
use cs162_group.Prelude.{
  ℕ, ◌+◌, ◌-◌, ◌≡◌, ◌≢◌, refl, sym, ap, ◌∙◌, Bool, true, Option, none, some, ◌⊎◌, inl, inr, List,
  [], ◌∷◌, ◌>>=◌, ◌||◌, ltb, arith, Bool-cases, Option-cases,
}
use cs162_group.Threads.{assign, points_to, thread_block, thread_current}
use cs162_group.Synch.{
  After, returns, numbers, readies, numbering, readying, going_on, tid_lock, allocate_tid,
  lock_release, Sema, plain, of_lock, of_waiter, assign_sema, Machine, Pc, outside, downing,
  acquiring, acquired, released, leaving, waiting, signalling, broadcasting, rousing, idling,
  sema_try_down, go_to, lock_try_acquire, is_empty, rouse_first, broadcast_round, resume,
}
use cs162_group.Synch.System.{second}
use cs162_group.Synch.Invariant.{IsSane}
use cs162_group.Synch.Invariant.{makes}
use cs162_group.Synch.Joins.{numbered-Sane, joined_queue, add_to_queue_lem}
use cs162_group.Synch.Keeps.{apart, current_lem}
use cs162_group.Synch.Resumes.{held_lem}
use cs162_group.Synch.Turns.{
  in_section, Inside, Turn, takes, becomes, ceases, here, joined, apart_from, place-Turn,
  still-Turn, down_round-Turn, up_then-Turn,
}

pub points_to-eq : (o : Option ℕ) (t : ℕ) → points_to o t ≡ true → o ≡ some t
points_to-eq none t h = cc
points_to-eq (some u) t h = ap some (ground arith)

module _ (m : Machine) (v : IsSane m) (l : ℕ) where
  abbrev c : ℕ
  c = m.kernel.current

  -- To another place with nothing else done to the lock.
  pub go_to-Turn :
      (m₁ m' : Machine) (q : Pc)
      → m₁.kernel ≡ m.kernel
      → m₁.value (of_lock l) ≡ m.value (of_lock l)
      → m₁.holder l ≡ m.holder l
      → m₁.pc ≡ m.pc
      → in_section q ≢ some l
      → go_to q m₁ ≡ some m'
      → Turn l m m'
  unfolding go_to
  go_to-Turn m₁ m' q k e e' p out g =
      let g' = rw (k, here m v l, ◌>>=◌) at g in
      let r : m' ≡ record m₁ { pc = assign m₁.pc c q } = cc in
      rw r (place-Turn m v l _ q e e' (ap (λ f. assign f c q) p) out)

  going_on-Outside : (a : After) → in_section (going_on a) ≢ some l
  going_on-Outside returns q = cc
  going_on-Outside (numbers page) q = cc
  going_on-Outside (readies page tid) q = cc

  -- An assertion that the thread that runs holds a lock.
  rouse-Turn : (ws : List ℕ) (a n : ℕ) → Turn l m (rouse_first ws a n c m)
  rouse-Turn [] a n = place-Turn m v l _ outside refl refl refl (λ q. cc)
  rouse-Turn (w ∷ ws) a n = place-Turn m v l _ (rousing w a n) refl refl refl (λ q. cc)

  broadcast-Turn : (a n : ℕ) (m' : Machine) → broadcast_round a n c m ≡ some m' → Turn l m m'
  unfolding broadcast_round
  broadcast-Turn a n m' e =
      let e₁ = rw (held_lem m v n, ◌>>=◌) at e in
      elim (Bool-cases (is_empty (m.cond_waiters a) || points_to (m.holder n) c)) [
        | inl ok ↦
            let e₂ = rw ok at e₁ in
            let r : m' ≡ rouse_first (m.cond_waiters a) a n c m = cc in
            rw r (rouse-Turn (m.cond_waiters a) a n)
        | inr bad ↦ let e₂ = rw bad at e₁ in cc
      ]

  pub other_lock : (n : ℕ) (a : After) → n ≢ l → in_section (acquired n a) ≢ some l
  other_lock n a ne e = ne (ground (arith, e))

  kept_by_lock :
      (n x : ℕ) → n ≢ l → assign_sema m.value (of_lock n) x (of_lock l) ≡ m.value (of_lock l)
  kept_by_lock n x ne = ground (arith, ne)

  -- The semaphore of a lock, from a place in its section.
  release-which :
      (n : ℕ)
      → in_section (m.pc c) ≡ some n
      → ((of_lock n ≡ of_lock l) × Inside l m c)
        ⊎ (assign_sema m.value (of_lock n) (m.value (of_lock n) + 1) (of_lock l)
            ≡ m.value (of_lock l))
  release-which n i = elim (apart l n) [
    | inl e ↦ inl (ap of_lock e, i ∙ ap some e)
    | inr ne ↦ inr (kept_by_lock n (m.value (of_lock n) + 1) ne)
  ]

  acquire-which :
      (n : ℕ) (a : After)
      → (of_lock n ≡ of_lock l)
        ⊎ ((assign_sema m.value (of_lock n) (m.value (of_lock n) - 1) (of_lock l)
              ≡ m.value (of_lock l))
            × (in_section (acquired n a) ≢ some l))
  acquire-which n a = elim (apart l n) [
    | inl e ↦ inl (ap of_lock e)
    | inr ne ↦ inr (kept_by_lock n (m.value (of_lock n) - 1) ne, other_lock n a ne)
  ]

  down-which :
      (s : Sema)
      → (s ≡ of_lock l)
        ⊎ ((assign_sema m.value s (m.value s - 1) (of_lock l) ≡ m.value (of_lock l))
            × (in_section outside ≢ some l))
  down-which (plain n) = inr (refl, λ q. cc)
  down-which (of_lock n) = elim (apart l n) [
    | inl e ↦ inl (ap of_lock e)
    | inr ne ↦ inr (kept_by_lock n (m.value (of_lock n) - 1) ne, λ q. cc)
  ]
  down-which (of_waiter n) = inr (refl, λ q. cc)

  -- The holder gives up the lock and goes on in its section.
  pub leave-Turn :
      (n : ℕ) (m₁ m' : Machine) (q : Pc)
      → m.holder n ≡ some c
      → thread_current m₁.kernel ≡ some c
      → m₁.value (of_lock l) ≡ m.value (of_lock l)
      → m₁.holder ≡ assign m.holder n none
      → m₁.pc ≡ m.pc
      → in_section q ≡ some n
      → go_to q m₁ ≡ some m'
      → Turn l m m'
  unfolding go_to
  leave-Turn n m₁ m' q held k e h p i g =
      let g' = rw (k, ◌>>=◌) at g in
      let m₂ : Machine = record m₁ { pc = assign m₁.pc c q } in
      let r : m' ≡ m₂ = cc in
      let p' : m₂.pc ≡ assign m.pc c q = ap (λ f. assign f c q) p in
      elim (apart l n) [
        | inl same' ↦ rw r (
            ceases (ap m.holder (sym same') ∙ held) e (ap (λ f. f l) h ∙ ground (arith, same'))
              (λ t j. joined m v l q t (ap (λ f. in_section (f t)) (sym p') ∙ j)))
        | inr ne ↦ rw r (
            place-Turn m v l m₂ q e (ap (λ f. f l) h ∙ ground (arith, ne)) p'
              (λ j. other_lock n returns ne (sym i ∙ j)))
      ]

  allocate_tid-Turn : (page : ℕ) (m' : Machine) → allocate_tid page m ≡ some m' → Turn l m m'
  unfolding allocate_tid lock_release
  allocate_tid-Turn page m' e =
      let n = m.kernel.next_tid in
      let m₁ : Machine = record m { kernel = record m.kernel { next_tid = n + 1 } } in
      let v₁ : IsSane m₁ = numbered-Sane m.kernel m.waiters m.next_waiter m.pc (n + 1) v in
      let e₁ = rw (held_lem m₁ v₁ tid_lock, ◌>>=◌) at e in
      elim (Bool-cases (points_to (m.holder tid_lock) c)) [
        | inl held ↦
            let e₂ = rw held at e₁ in
            leave-Turn tid_lock (record m₁ { holder = assign m.holder tid_lock none }) m'
              (released tid_lock (readies page n)) (points_to-eq (m.holder tid_lock) c held)
              (current_lem m₁.kernel m.waiters m.next_waiter m.pc v₁) refl refl refl refl e₂
        | inr free ↦ let e₂ = rw free at e₁ in cc
      ]

  pub resume-Turn :
      (p : Pc) (b : Bool) (m' : Machine) → m.pc c ≡ p → resume c p m ≡ some (b, m') → Turn l m m'
  unfolding resume
  resume-Turn outside b m' at e = cc
  resume-Turn (downing s) b m' at e = down_round-Turn m v l s outside b m' (down-which s) e
  resume-Turn (acquiring n a) b m' at e =
      down_round-Turn m v l (of_lock n) (acquired n a) b m' (acquire-which n a) e
  resume-Turn (acquired n a) b m' at e =
      let m₁ : Machine = record m {
        holder = assign m.holder n (some c);
        pc = assign m.pc c (going_on a);
      } in
      let r : m' ≡ m₁ = cc in
      elim (apart l n) [
        | inl same' ↦ rw r (
            becomes (ap in_section at ∙ ap some same') refl (ground (arith, same'))
              (apart_from m v l (going_on a) (going_on-Outside a)))
        | inr ne ↦
            rw r
              (place-Turn m v l m₁ (going_on a) refl (ground (arith, ne)) refl (going_on-Outside a))
      ]
  resume-Turn (released n a) b m' at e =
      up_then-Turn m v l (of_lock n) (going_on a) b m' (going_on-Outside a)
        (release-which n (ap in_section at)) e
  resume-Turn (leaving w n) b m' at e =
      up_then-Turn m v l (of_lock n) (waiting w n) b m' (λ q. cc)
        (release-which n (ap in_section at)) e
  resume-Turn (waiting w n) b m' at e =
      down_round-Turn m v l (of_waiter w) (acquiring n returns) b m' (inr (refl, λ q. cc)) e
  resume-Turn (signalling w) b m' at e =
      up_then-Turn m v l (of_waiter w) outside b m' (λ q. cc) (inr refl) e
  resume-Turn (broadcasting a n) b m' at e = elim (Option-cases (broadcast_round a n c m)) [
    | inl none' ↦ let e' = rw none' at e in cc
    | inr (m₁, ok) ↦
        let e' = rw (ok, ◌>>=◌) at e in let r : m' ≡ m₁ = cc in rw r (broadcast-Turn a n m₁ ok)
  ]
  resume-Turn (rousing w a n) b m' at e =
      up_then-Turn m v l (of_waiter w) (broadcasting a n) b m' (λ q. cc) (inr refl) e
  resume-Turn (numbering page) b m' at e = elim (Option-cases (allocate_tid page m)) [
    | inl none' ↦ let e' = rw none' at e in cc
    | inr (m₁, ok) ↦
        let e' = rw (ok, ◌>>=◌) at e in let r : m' ≡ m₁ = cc in rw r (allocate_tid-Turn page m₁ ok)
  ]
  resume-Turn (readying page tid) b m' at e =
      let e' = rw (add_to_queue_lem m v page tid (ap makes at), ◌>>=◌) at e in
      let r : m' ≡ joined_queue page tid m = cc in
      rw r (place-Turn m v l (joined_queue page tid m) outside refl refl refl (λ q. cc))
  resume-Turn idling b m' at e = elim (Option-cases (thread_block m.kernel)) [
    | inl none' ↦ let e' = rw none' at e in cc
    | inr (k, ok) ↦
        let e' = rw (ok, ◌>>=◌) at e in
        let r : m' ≡ record m { kernel = k } = cc in rw r (still-Turn m v l _ refl refl refl)
  ]

  module _ (n : ℕ) where
    pub try-Turn : (m' : Machine) → second (lock_try_acquire n m) ≡ some m' → Turn l m m'
    unfolding lock_try_acquire sema_try_down go_to
    try-Turn m' e =
        let e₁ = rw (held_lem m v n, ◌>>=◌) at e in
        elim (Bool-cases (points_to (m.holder n) c)) [
          | inl held ↦ let e₂ = rw held at e₁ in cc
          | inr free ↦ elim (Bool-cases (ltb 0 (m.value (of_lock n)))) [
            | inl more ↦
                let e₂ = rw (free, more, here m v l) at e₁ in
                let m₁ : Machine = record m {
                  value = assign_sema m.value (of_lock n) (m.value (of_lock n) - 1);
                  pc = assign m.pc c (acquired n returns);
                } in
                let r : m' ≡ m₁ = cc in
                elim (apart l n) [
                  | inl same' ↦
                      let z : m.value (of_lock l) ≢ 0 = λ z. ground (arith, more, same', z) in
                      rw r
                        (takes z (ground (arith, same')) refl (joined m v l (acquired n returns)))
                  | inr ne ↦ rw r (
                      place-Turn m v l m₁ (acquired n returns)
                        (kept_by_lock n (m.value (of_lock n) - 1) ne) refl refl
                        (other_lock n returns ne))
                ]
            | inr less ↦
                let e₂ = rw (free, less, here m v l) at e₁ in
                let r : m' ≡ m = cc in rw r (still-Turn m v l m refl refl refl)
          ]
        ]
