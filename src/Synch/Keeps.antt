-- ===== src/Synch/Keeps.antt =====
-- Each way of giving up the processor keeps the lists in order.
use cs162_group.Prelude.{
  ℕ, ◌<◌, ◌≡◌, ◌≢◌, refl, sym, ap, ◌∙◌, true, Option, none, some, ◌⊎◌, inl, inr, List, [], ◌∷◌,
  ◌++◌, ◌==◌, if◌then◌else◌, count, count-append, arith, Bool-cases,
}
use cs162_group.Threads.{
  Kernel, Status, running, ready, blocked, dying, points_to, assign, thread_current,
}
use cs162_group.Synch.{
  numbering, readying, Sema, plain, of_lock, of_waiter, same, Pc, outside, downing, acquiring,
  acquired, released, leaving, waiting, signalling, broadcasting, rousing, idling,
}
use cs162_group.Synch.Invariant.{sleeps, makes, Known, Lists, Sane}

pub apart : (a u : ℕ) → (u ≡ a) ⊎ (u ≢ a)
apart a u = elim (Bool-cases (u == a)) [
  | inl e ↦ inl (ground arith)
  | inr e ↦ inr (λ h. ground (arith, h))
]

pub same-eq : (r s : Sema) → same r s ≡ true → r ≡ s
same-eq (plain a) (plain b) h = ap plain (ground arith)
same-eq (of_lock a) (of_lock b) h = ap of_lock (ground arith)
same-eq (of_waiter a) (of_waiter b) h = ap of_waiter (ground arith)
same-eq (plain a) (of_lock b) h = cc
same-eq (plain a) (of_waiter b) h = cc
same-eq (of_lock a) (plain b) h = cc
same-eq (of_lock a) (of_waiter b) h = cc
same-eq (of_waiter a) (plain b) h = cc
same-eq (of_waiter a) (of_lock b) h = cc

pub same_refl : (s : Sema) → same s s ≡ true
same_refl (plain a) = ground arith
same_refl (of_lock a) = ground arith
same_refl (of_waiter a) = ground arith

pub Known-below : (next w : ℕ) (p : Pc) → Known next p → sleeps p ≡ some (of_waiter w) → w < next
Known-below next w outside h e = cc
Known-below next w (downing (plain s)) h e = cc
Known-below next w (downing (of_lock s)) h e = cc
Known-below next w (downing (of_waiter u)) h e = ground (arith, e, h)
Known-below next w (acquiring l a) h e = cc
Known-below next w (acquired l a) h e = cc
Known-below next w (released l a) h e = cc
Known-below next w (leaving u l) h e = cc
Known-below next w (waiting u l) h e = ground (arith, e, h)
Known-below next w (signalling u) h e = cc
Known-below next w (broadcasting c l) h e = cc
Known-below next w (rousing u c l) h e = cc
Known-below next w (numbering page) h e = cc
Known-below next w (readying page tid) h e = cc
Known-below next w idling h e = cc

module _ (k : Kernel) (waiters : Sema → List ℕ) (next : ℕ) (pc : ℕ → Pc)
    (v : Sane k waiters next pc) where
  abbrev c : ℕ
  c = k.current

  abbrev l : Lists k waiters next pc
  l = v.lists

  -- The thread that runs stands in no list.
  pub out_of_ready : count c k.ready_list ≡ 0
  out_of_ready = elim (Bool-cases (count c k.ready_list == 0)) [
    | inl e ↦ ground arith
    | inr e ↦ let (r, _) = l.queued c (ground arith) in absurd (ground (arith, r, v.runs))
  ]

  pub out_of_wait : (s : Sema) → count c (waiters s) ≡ 0
  out_of_wait s = elim (Bool-cases (count c (waiters s) == 0)) [
    | inl e ↦ ground arith
    | inr e ↦ let (b, _, _) = l.asleep s c (ground arith) in absurd (ground (arith, b, v.runs))
  ]

  pub current_lem : thread_current k ≡ some c
  unfolding thread_current
  current_lem = rw (v.alive, v.runs) refl

  -- After the status of the thread that runs was set to another, none runs.
  abbrev left : Status → Kernel
  left s = record k { status = assign k.status c s }

  pub none_left : (s : Status) → s ≢ running → (t : ℕ) → assign k.status c s t ≢ running
  none_left s ne t e = elim (Bool-cases (t == c)) [
    | inl h ↦ ne (ground (arith, e, h))
    | inr h ↦
        let r : k.status t ≡ running = ground (arith, e, h) in
        let h' = v.only t r in absurd (ground (arith, h, h'))
  ]

  abbrev queue : List ℕ
  queue = if points_to k.idle_thread c then k.ready_list else k.ready_list ++ c ∷ []

  queue-others : (t : ℕ) → t ≢ c → count t queue ≡ count t k.ready_list
  queue-others t ne = elim (Bool-cases (points_to k.idle_thread c)) [
    | inl e ↦ rw e refl
    | inr e ↦ rw e (ground (arith, count-append t k.ready_list (c ∷ []), ne))
  ]

  queue_self : count c queue ≡ (if points_to k.idle_thread c then 0 else 1)
  queue_self = elim (Bool-cases (points_to k.idle_thread c)) [
    | inl e ↦ rw e out_of_ready
    | inr e ↦ rw e (ground (arith, count-append c k.ready_list (c ∷ []), out_of_ready))
  ]

  points-eq : (i : Option ℕ) (p : ℕ) → points_to i p ≡ true → i ≡ some p
  points-eq none p h = cc
  points-eq (some q) p h = ground arith

  pub left_self : (s : Status) → assign k.status c s c ≡ s
  left_self s = ground arith

  pub left-others : (s : Status) (t : ℕ) → t ≢ c → assign k.status c s t ≡ k.status t
  left-others s t ne = ground (arith, ne)

  not_sleeping : (s : Sema) (t : ℕ) → 0 < count t (waiters s) → t ≢ c
  not_sleeping s t h e = omega (arith, out_of_wait s, ap (λ q. count q (waiters s)) e)

  -- A thread that is being created, and the one that creates it, after another status of the thread that runs.
  pub others_born :
      (s : Status) (u t : ℕ)
      → (u ≡ c → s ≢ dying)
      → makes (pc u) ≡ some t
      → (k.magic u ≡ true)
        × (assign k.status c s u ≢ dying)
        × (k.magic t ≡ true)
        × (assign k.status c s t ≡ blocked)
        × (pc t ≡ outside)
  others_born s u t lives q =
      let (on, d, on', b, o) = l.born u t q in
      let ne : t ≢ c = λ e. absurd (ground (arith, b, v.runs, ap (λ q. k.status q) e)) in
      let d' : assign k.status c s u ≢ dying = elim (apart c u) [
        | inl e ↦ λ h. lives e (ground (arith, h, e))
        | inr ne' ↦ λ h. d (sym (left-others s u ne') ∙ h)
      ] in
      (on, d', on', left-others s t ne ∙ b, o)

  -- In the run list, unless it is the idle thread.
  pub yield-Lists :
      Lists
        (record k {
          ready_list = if points_to k.idle_thread c then k.ready_list else k.ready_list ++ c ∷ [];
          status = assign k.status c ready;
        })
        waiters
        next
        pc
  yield-Lists = record {
    queued = λ t h. elim (apart c t) [
      | inl e ↦ (ap (assign k.status c ready) e ∙ left_self ready, ap (λ q. k.magic q) e ∙ v.alive)
      | inr ne ↦
          let (r, on) = l.queued t (rw (sym (queue-others t ne)) h) in
          (left-others ready t ne ∙ r, on)
    ];
    once = λ t. elim (apart c t) [
      | inl e ↦ rw e (ground (arith, queue_self))
      | inr ne ↦ omega (arith, queue-others t ne, l.once t)
    ];
    asleep = λ s t h.
        let (b, on, p) = l.asleep s t h in (left-others ready t (not_sleeping s t h) ∙ b, on, p);
    wait_once = l.wait_once;
    idle_thread = λ i e.
        let (p, on, n, d) = l.idle_thread i e in
        elim (apart c i) [
          | inl h ↦
              let idle : points_to k.idle_thread c ≡ true = ground (arith, e, h) in
              (p, on, rw (h, idle) out_of_ready, λ q. absurd (ground (arith, q, h)))
          | inr ne ↦ (p, on, queue-others i ne ∙ n, λ q. d (sym (left-others ready i ne) ∙ q))
        ];
    idle_only = l.idle_only;
    in_ready = λ t on r. elim (apart c t) [
      | inl e ↦ elim (Bool-cases (points_to k.idle_thread c)) [
        | inl idle ↦ inr (points-eq k.idle_thread c idle ∙ ap some (sym e))
        | inr busy ↦ inl (ap (λ q. count q queue) e ∙ queue_self ∙ ground (arith, busy))
      ]
      | inr ne ↦ elim (l.in_ready t on (sym (left-others ready t ne) ∙ r)) [
        | inl n ↦ inl (queue-others t ne ∙ n)
        | inr i ↦ inr i
      ]
    ];
    in_wait = λ t on b. elim (apart c t) [
      | inl e ↦ absurd (ground (arith, b, e))
      | inr ne ↦ l.in_wait t on (sym (left-others ready t ne) ∙ b)
    ];
    unused = l.unused;
    known = l.known;
    born = λ u t q. others_born ready u t (λ _ e. cc) q;
    by_one = l.by_one;
  }

  -- The statuses of the other threads, for a status of the thread that runs that is in no list.
  pub others_in_wait :
      (s : Status) (t : ℕ)
      → t ≢ c
      → k.magic t ≡ true
      → assign k.status c s t ≡ blocked
      → ((r : Sema) × (sleeps (pc t) ≡ some r) × (count t (waiters r) ≡ 1))
        ⊎ ((k.idle_thread ≡ some t) ⊎ ((u : ℕ) × (makes (pc u) ≡ some t)))
  others_in_wait s t ne on b = l.in_wait t on (sym (left-others s t ne) ∙ b)

  pub others_queued :
      (s : Status) (t : ℕ)
      → 0 < count t k.ready_list
      → (assign k.status c s t ≡ ready) × (k.magic t ≡ true)
  others_queued s t h = elim (apart c t) [
    | inl e ↦ absurd (omega (arith, h, out_of_ready, ap (λ q. count q k.ready_list) e))
    | inr ne ↦ let (r, on) = l.queued t h in (left-others s t ne ∙ r, on)
  ]

  pub others_asleep :
      (s : Status) (r : Sema) (t : ℕ)
      → 0 < count t (waiters r)
      → (assign k.status c s t ≡ blocked) × (k.magic t ≡ true) × (sleeps (pc t) ≡ some r)
  others_asleep s r t h =
      let (b, on, p) = l.asleep r t h in (left-others s t (not_sleeping r t h) ∙ b, on, p)
