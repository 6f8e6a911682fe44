-- ===== src/Threads/Queue.antt =====
-- What a switch of threads changes.
use cs162_group.Prelude.{
  ℕ, ◌≡◌, ◌≢◌, refl, ap, ◌∙◌, true, false, not, Option, none, some, ◌⊎◌, inl, inr, List, [], ◌∷◌,
  ◌>>=◌, ◌==◌, ◌&&◌, if◌then◌else◌, arith, Bool-cases, Option-cases,
}
use cs162_group.Threads.{
  Kernel, Status, running, ready, blocked, dying, is_running, is_dying, assign, schedule,
  next_thread_to_run, thread_schedule_tail, if_empty, rest,
}

-- The run list before and after the next thread is taken from it.
abbrev pub Taken : List ℕ → Option ℕ → ℕ → List ℕ → Type 0
Taken before idle next after =
    (before ≡ next ∷ after) ⊎ ((before ≡ []) × (after ≡ []) × (idle ≡ some next))

pub record Switched (k k' : Kernel) : Type 0 where
  pub taken : Taken k.ready_list k.idle_thread k'.current k'.ready_list
  pub alive : k.magic k'.current ≡ true
  pub status : (t : ℕ) → k'.status t ≡ (if t == k'.current then running else k.status t)
  pub old : (t : ℕ) → k'.magic t ≡ true → k.magic t ≡ true
  pub kept :
      (t : ℕ) → k.magic t ≡ true → (t ≡ k'.current) ⊎ (k.status t ≢ dying) → k'.magic t ≡ true
  pub idle : k'.idle_thread ≡ k.idle_thread
  pub not_running : is_running (k.status k.current) ≡ false

-- What the tail of a switch leaves.
record Tailed (j k' : Kernel) : Type 0 where
  current : k'.current ≡ j.current
  list : k'.ready_list ≡ j.ready_list
  idle : k'.idle_thread ≡ j.idle_thread
  status : (t : ℕ) → k'.status t ≡ (if t == j.current then running else j.status t)
  old : (t : ℕ) → k'.magic t ≡ true → j.magic t ≡ true
  kept : (t : ℕ) → j.magic t ≡ true → (t ≡ j.current) ⊎ (j.status t ≢ dying) → k'.magic t ≡ true

is_dying-eq : (s : Status) → is_dying s ≡ true → s ≡ dying
is_dying-eq running h = cc
is_dying-eq ready h = cc
is_dying-eq blocked h = cc
is_dying-eq dying h = refl

abbrev ran : Kernel → Kernel
ran j = record j { status = assign j.status j.current running; thread_ticks = 0 }

ran-Tailed : (j : Kernel) → Tailed j (ran j)
ran-Tailed j = record {
  current = refl;
  list = refl;
  idle = refl;
  status = λ t. refl;
  old = λ t on. on;
  kept = λ t on live. on;
}

tail-Tailed :
    (prev : Option ℕ) (j k' : Kernel) → thread_schedule_tail prev j ≡ some k' → Tailed j k'
unfolding thread_schedule_tail
tail-Tailed none j k' e = let k'' : k' ≡ ran j = cc in rw k'' (ran-Tailed j)
tail-Tailed (some p) j k' e =
    elim (Bool-cases (is_dying ((ran j).status p) && not (p == j.initial_thread))) [
      | inl dead ↦ elim (Bool-cases (p == j.current)) [
        | inl self ↦ absurd (ground (arith, dead, self))
        | inr other ↦
            let e' : some (record (ran j) { magic = assign j.magic p false }) ≡ some k' =
              rw (dead, ◌>>=◌, other) at e in
            let k'' : k' ≡ record (ran j) { magic = assign j.magic p false } = cc in
            rw k'' (record {
              current = refl;
              list = refl;
              idle = refl;
              status = λ t. refl;
              old = λ t on. ground (arith, on);
              kept = λ t on live. elim (Bool-cases (t == p)) [
                | inl e₁ ↦
                    let tp : t ≡ p = ground arith in
                    let d : j.status p ≡ dying =
                      is_dying-eq (j.status p) (ground (arith, dead, other)) in
                    elim live [
                      | inl c ↦ absurd (ground (arith, tp, c, other))
                      | inr ne ↦ absurd (ne (ap (λ q. j.status q) tp ∙ d))
                    ]
                | inr e₁ ↦ rw e₁ on
              ];
            })
      ]
      | inr live ↦
          let e' : some (ran j) ≡ some k' = rw live at e in
          let k'' : k' ≡ ran j = cc in rw k'' (ran-Tailed j)
    ]

taken-Taken :
    (xs : List ℕ) (idle : Option ℕ) (n c : ℕ) (after : List ℕ)
    → if_empty xs idle ≡ some n
    → c ≡ n
    → after ≡ rest xs
    → Taken xs idle c after
taken-Taken [] idle n c after e h h' = inr (refl, h', ground (arith, e, h))
taken-Taken (x ∷ xs) idle n c after e h h' = inl (ground (arith, e, h, h'))

pub schedule-Switched : (k k' : Kernel) → schedule k ≡ some k' → Switched k k'
unfolding schedule next_thread_to_run
schedule-Switched k k' e = elim (Bool-cases (is_running (k.status k.current))) [
  | inl on ↦ absurd (ground (arith, e, on))
  | inr off ↦ elim (Option-cases (if_empty k.ready_list k.idle_thread)) [
    | inl none' ↦ absurd (ground (arith, e, off, none'))
    | inr (n, at) ↦ elim (Bool-cases (k.magic n)) [
      | inl live ↦
          let j : Kernel = record k { ready_list = rest k.ready_list; current = n } in
          let e' : thread_schedule_tail (if k.current == n then none else some k.current) j
              ≡ some k' =
            rw (off, ◌>>=◌, at, live) at e in
          let t = tail-Tailed _ j k' e' in
          record {
            taken =
                taken-Taken k.ready_list k.idle_thread n k'.current k'.ready_list at t.current
                  t.list;
            alive = rw t.current live;
            status = λ p. rw t.current (t.status p);
            old = λ p on. t.old p on;
            kept = λ p on h. t.kept p on (rw t.current at h);
            idle = t.idle;
            not_running = off;
          }
      | inr dead ↦ absurd (ground (arith, e, off, at, dead))
    ]
  ]
]
