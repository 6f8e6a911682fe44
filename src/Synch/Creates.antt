-- ===== src/Synch/Creates.antt =====
-- The start of `thread_create` keeps the lists in order.
use cs162_group.Prelude.{
  ℕ, ◌≡◌, ◌≢◌, refl, sym, ap, ◌∙◌, true, false, some, ◌⊎◌, inl, inr, List, [], ◌∷◌, ◌++◌, ◌>>=◌,
  arith, Bool-cases, leb, take,
}
use cs162_group.Threads.{Kernel, blocked, assign, points_to, init_thread, thread_current, pri_max}
use cs162_group.Synch.{
  Sema, Pc, Machine, outside, acquiring, numbers, tid_lock, thread_create, lock_acquire,
  lock_held_by_current_thread, go_to,
}
use cs162_group.Synch.Invariant.{sleeps, makes, Lists, Sane, IsSane}
use cs162_group.Synch.Keeps.{apart}

-- The kernel after `init_thread`.
abbrev pub begun : ℕ → List ℕ → ℕ → Kernel → Kernel
begun page name priority k = record k {
  magic = assign k.magic page true;
  tid = assign k.tid page 0;
  status = assign k.status page blocked;
  name = assign k.name page (take 15 name);
  priority = assign k.priority page priority;
  has_pagedir = assign k.has_pagedir page false;
  all_list = k.all_list ++ page ∷ [];
}

module _ (k : Kernel) (waiters : Sema → List ℕ) (next : ℕ) (pc : ℕ → Pc)
    (v : Sane k waiters next pc) (page : ℕ) (free : k.magic page ≡ false) (name : List ℕ)
    (priority : ℕ) (out : pc k.current ≡ outside) where
  abbrev l : Lists k waiters next pc
  l = v.lists

  abbrev c : ℕ
  c = k.current

  abbrev k' : Kernel
  k' = begun page name priority k

  abbrev p : Pc
  p = acquiring tid_lock (numbers page)

  abbrev pc' : ℕ → Pc
  pc' = assign (assign pc page outside) c p

  not_live : (t : ℕ) → k.magic t ≡ true → t ≢ page
  not_live t on e = absurd (ground (arith, on, ap (λ q. k.magic q) e, free))

  c_new : c ≢ page
  c_new = not_live c v.alive

  others : (t : ℕ) → t ≢ page → k'.status t ≡ k.status t
  others t ne = ground (arith, ne)

  self : k'.status page ≡ blocked
  self = ground arith

  self_on : k'.magic page ≡ true
  self_on = ground arith

  lives : (t : ℕ) → k.magic t ≡ true → k'.magic t ≡ true
  lives t on = elim (apart page t) [
    | inl e ↦ ap (λ q. k'.magic q) e ∙ self_on
    | inr ne ↦ ground (arith, ne, on)
  ]

  lived : (t : ℕ) → t ≢ page → k'.magic t ≡ true → k.magic t ≡ true
  lived t ne on = ground (arith, ne, on)

  pub begun-current : thread_current k' ≡ some c
  unfolding thread_current
  begun-current = let on = lives c v.alive in let r = others c c_new ∙ v.runs in rw (on, r) refl

  pc-others : (t : ℕ) → t ≢ page → t ≢ c → pc' t ≡ pc t
  pc-others t ne ne' = ground (arith, ne, ne')

  pc_page : pc' page ≡ outside
  pc_page = let ne : page ≢ c = λ e. c_new (sym e) in ground (arith, ne)

  pc_c : pc' c ≡ p
  pc_c = ground arith

  not_c : (t : ℕ) → k.status t ≡ blocked → t ≢ c
  not_c t b e = absurd (ground (arith, b, ap (λ q. k.status q) e, v.runs))

  -- A thread is being created here, or was before.
  made :
      (u t : ℕ)
      → makes (pc' u) ≡ some t
      → ((u ≡ c) × (t ≡ page)) ⊎ ((u ≢ page) × (u ≢ c) × (makes (pc u) ≡ some t))
  made u t q = elim (apart page u) [
    | inl e ↦
        let q' = sym (ap makes pc_page) ∙ ap (λ x. makes (pc' x)) (sym e) ∙ q in
        absurd (ground (arith, q'))
    | inr ne ↦ elim (apart c u) [
      | inl e ↦
          let q' = sym (ap makes pc_c) ∙ ap (λ x. makes (pc' x)) (sym e) ∙ q in
          inl (e, ground (arith, q'))
      | inr ne' ↦ inr (ne, ne', ap makes (sym (pc-others u ne ne')) ∙ q)
    ]
  ]

  still_made : (u t : ℕ) → makes (pc u) ≡ some t → makes (pc' u) ≡ some t
  still_made u t q =
      let (on, _, _, _, _) = l.born u t q in
      let ne' : u ≢ c = λ e. absurd (ground (arith, q, ap (λ x. makes (pc x)) e, ap makes out)) in
      ap makes (pc-others u (not_live u on) ne') ∙ q

  begun-Lists : Lists k' waiters next pc'
  begun-Lists = record {
    queued = λ t h. let (r, on) = l.queued t h in (others t (not_live t on) ∙ r, lives t on);
    once = l.once;
    asleep = λ s t h.
        let (b, on, q) = l.asleep s t h in
        let ne = not_live t on in
        (others t ne ∙ b, lives t on, ap sleeps (pc-others t ne (not_c t b)) ∙ q);
    wait_once = l.wait_once;
    idle_thread = λ i e.
        let (q, on, n, d) = l.idle_thread i e in
        let ne = not_live i on in
        let ne' : i ≢ c = λ h. absurd (ground (arith, q, ap pc h, out)) in
        (pc-others i ne ne' ∙ q, lives i on, n, λ h. d (sym (others i ne) ∙ h));
    idle_only = λ t q. elim (apart page t) [
      | inl e ↦ absurd (cc (q, pc_page, ap pc' e))
      | inr ne ↦ elim (apart c t) [
        | inl e ↦ absurd (cc (q, pc_c, ap pc' e))
        | inr ne' ↦ l.idle_only t (sym (pc-others t ne ne') ∙ q)
      ]
    ];
    in_ready = λ t on r. elim (apart page t) [
      | inl e ↦ absurd (cc (r, self, ap (λ q. k'.status q) e))
      | inr ne ↦ l.in_ready t (lived t ne on) (sym (others t ne) ∙ r)
    ];
    in_wait = λ t on b. elim (apart page t) [
      | inl e ↦ inr (inr (c, ap makes pc_c ∙ ap some (sym e)))
      | inr ne ↦
          let b' = sym (others t ne) ∙ b in
          elim (l.in_wait t (lived t ne on) b') [
            | inl (s, q, n) ↦ inl (s, ap sleeps (pc-others t ne (not_c t b')) ∙ q, n)
            | inr (inl i) ↦ inr (inl i)
            | inr (inr (u, q)) ↦ inr (inr (u, still_made u t q))
          ]
    ];
    born = λ u t q. elim (made u t q) [
      | inl (eu, et) ↦
          rw (eu, et)
            (lives c v.alive, λ h. absurd (cc (h, others c c_new, v.runs)), self_on, self, pc_page)
      | inr (ne, ne', q') ↦
          let (on, d, on', b, o) = l.born u t q' in
          let nt = not_live t on' in
          (
            lives u on,
            λ h. d (sym (others u ne) ∙ h),
            lives t on',
            others t nt ∙ b,
            pc-others t nt (not_c t b) ∙ o,
          )
    ];
    by_one = λ u w t q q'. elim (made u t q) [
      | inl (eu, et) ↦ elim (made w t q') [
        | inl (ew, _) ↦ eu ∙ sym ew
        | inr (_, _, old) ↦ let (_, _, on, _, _) = l.born w t old in absurd (not_live t on et)
      ]
      | inr (_, _, old) ↦ elim (made w t q') [
        | inl (_, et) ↦ let (_, _, on, _, _) = l.born u t old in absurd (not_live t on et)
        | inr (_, _, old') ↦ l.by_one u w t old old'
      ]
    ];
    unused = l.unused;
    known = λ t. elim (apart c t) [
      | inl e ↦ rw e (rw pc_c tt)
      | inr ne' ↦ elim (apart page t) [
        | inl e ↦ rw e (rw pc_page tt)
        | inr ne ↦ rw (pc-others t ne ne') (l.known t)
      ]
    ];
  }

  pub begun-Sane : Sane k' waiters next pc'
  begun-Sane = record {
    alive = lives c v.alive;
    runs = others c c_new ∙ v.runs;
    only = λ t r. elim (apart page t) [
      | inl e ↦ absurd (cc (r, self, ap (λ q. k'.status q) e))
      | inr ne ↦ v.only t (sym (others t ne) ∙ r)
    ];
    lists = begun-Lists;
  }

-- The machine after the start of `thread_create`.
abbrev pub creating : ℕ → List ℕ → ℕ → Machine → Machine
creating page name priority m = record m {
  kernel = begun page name priority m.kernel;
  pc = assign (assign m.pc page outside) m.kernel.current (acquiring tid_lock (numbers page));
}

module _ (m m' : Machine) (v : IsSane m) (page : ℕ) (name : List ℕ) (priority : ℕ)
    (out : m.pc m.kernel.current ≡ outside) (free : m.kernel.magic page ≡ false)
    (e : thread_create (some page) name priority m ≡ some m') where
  abbrev cur : thread_current (begun page name priority m.kernel) ≡ some m.kernel.current
  cur = begun-current m.kernel m.waiters m.next_waiter m.pc v page free name priority out

  pub thread_create_lem : m' ≡ creating page name priority m
  unfolding thread_create init_thread lock_acquire lock_held_by_current_thread go_to
  thread_create_lem = elim (Bool-cases (leb priority pri_max)) [
    | inl low ↦
        let e₁ = rw (low, ◌>>=◌, cur) at e in
        elim (Bool-cases (points_to (m.holder tid_lock) m.kernel.current)) [
          | inl held ↦ let e₂ = rw held at e₁ in cc
          | inr not_held ↦ let e₂ = rw not_held at e₁ in cc
        ]
    | inr high ↦ absurd (ground (arith, e, high))
  ]

  pub thread_create-IsSane : IsSane m'
  thread_create-IsSane =
      rw thread_create_lem
        (begun-Sane m.kernel m.waiters m.next_waiter m.pc v page free name priority out)
