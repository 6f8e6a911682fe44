-- ===== src/Synch/Joins.antt =====
-- The rest of `thread_create` keeps the lists in order.
use cs162_group.Prelude.{
  ℕ, ◌+◌, ◌≡◌, ◌≢◌, refl, sym, ap, ◌∙◌, true, some, inl, inr, List, [], ◌∷◌, ◌++◌, ◌>>=◌, ◌==◌,
  if◌then◌else◌, count, count-append, arith, Bool-cases,
}
use cs162_group.Threads.{Kernel, ready, blocked, assign, thread_unblock}
use cs162_group.Synch.{Sema, Pc, Machine, outside, add_to_queue}
use cs162_group.Synch.Invariant.{sleeps, makes, Lists, Sane, IsSane}
use cs162_group.Synch.Keeps.{apart}

-- The next identifier is in no list.
pub numbered-Sane :
    (k : Kernel) (waiters : Sema → List ℕ) (next : ℕ) (pc : ℕ → Pc) (n : ℕ)
    → Sane k waiters next pc
    → Sane (record k { next_tid = n }) waiters next pc
numbered-Sane k waiters next pc n v = record {
  alive = v.alive;
  runs = v.runs;
  only = v.only;
  lists =
      let l = v.lists in
      record {
        queued = l.queued;
        once = l.once;
        asleep = l.asleep;
        wait_once = l.wait_once;
        idle_thread = l.idle_thread;
        idle_only = l.idle_only;
        in_ready = l.in_ready;
        in_wait = l.in_wait;
        born = l.born;
        by_one = l.by_one;
        unused = l.unused;
        known = l.known;
      };
}

-- The kernel when the new thread is ready.
abbrev pub queued_up : ℕ → ℕ → Kernel → Kernel
queued_up page tid k = record k {
  tid = assign k.tid page tid;
  ready_list = k.ready_list ++ page ∷ [];
  status = assign k.status page ready;
}

module _ (k : Kernel) (waiters : Sema → List ℕ) (next : ℕ) (pc : ℕ → Pc)
    (v : Sane k waiters next pc) (page tid : ℕ) (at : makes (pc k.current) ≡ some page) where
  abbrev l : Lists k waiters next pc
  l = v.lists

  abbrev c : ℕ
  c = k.current

  abbrev k' : Kernel
  k' = queued_up page tid k

  abbrev pc' : ℕ → Pc
  pc' = assign pc c outside

  on_page : k.magic page ≡ true
  on_page = let (_, _, on, _, _) = l.born c page at in on

  blocked_page : k.status page ≡ blocked
  blocked_page = let (_, _, _, b, _) = l.born c page at in b

  page_out : pc page ≡ outside
  page_out = let (_, _, _, _, o) = l.born c page at in o

  pub unblock-page : thread_unblock page (record k { tid = assign k.tid page tid }) ≡ some k'
  unfolding thread_unblock
  unblock-page = rw (on_page, blocked_page) refl

  not_c : (t : ℕ) → k.status t ≡ blocked → t ≢ c
  not_c t b e = absurd (ground (arith, b, ap (λ q. k.status q) e, v.runs))

  not_ready : count page k.ready_list ≡ 0
  not_ready = elim (Bool-cases (count page k.ready_list == 0)) [
    | inl e ↦ ground arith
    | inr e ↦ let (r, _) = l.queued page (ground arith) in absurd (ground (arith, r, blocked_page))
  ]

  others : (t : ℕ) → t ≢ page → k'.status t ≡ k.status t
  others t ne = ground (arith, ne)

  self : k'.status page ≡ ready
  self = ground arith

  longer : (t : ℕ) → count t k'.ready_list ≡ count t k.ready_list + (if page == t then 1 else 0)
  longer t = ground (arith, count-append t k.ready_list (page ∷ []))

  longer-others : (t : ℕ) → t ≢ page → count t k'.ready_list ≡ count t k.ready_list
  longer-others t ne = ground (arith, longer t, ne)

  longer_self : count page k'.ready_list ≡ 1
  longer_self = ground (arith, longer page, not_ready)

  pc-others : (t : ℕ) → t ≢ c → pc' t ≡ pc t
  pc-others t ne = ground (arith, ne)

  pc_c : pc' c ≡ outside
  pc_c = ground arith

  -- No other thread makes the one in the page.
  maker : (u t : ℕ) → makes (pc' u) ≡ some t → (u ≢ c) × (t ≢ page) × (makes (pc u) ≡ some t)
  maker u t q = elim (apart c u) [
    | inl e ↦
        let q' = sym (ap makes pc_c) ∙ ap (λ x. makes (pc' x)) (sym e) ∙ q in
        absurd (ground (arith, q'))
    | inr ne ↦
        let q' = ap makes (sym (pc-others u ne)) ∙ q in
        (ne, λ e. ne (l.by_one u c page (q' ∙ ap some e) at), q')
  ]

  queued_up-Lists : Lists k' waiters next pc'
  queued_up-Lists = record {
    queued = λ t h. elim (apart page t) [
      | inl e ↦ (ap (λ q. k'.status q) e ∙ self, ap (λ q. k.magic q) e ∙ on_page)
      | inr ne ↦ let (r, on) = l.queued t (rw (sym (longer-others t ne)) h) in (others t ne ∙ r, on)
    ];
    once = λ t. elim (apart page t) [
      | inl e ↦ omega (arith, longer_self, ap (λ q. count q k'.ready_list) e)
      | inr ne ↦ omega (arith, longer-others t ne, l.once t)
    ];
    asleep = λ s t h.
        let (b, on, q) = l.asleep s t h in
        let ne : t ≢ page =
          λ e. absurd (ground (arith, q, ap (λ x. sleeps (pc x)) e, ap sleeps page_out)) in
        (others t ne ∙ b, on, ap sleeps (pc-others t (not_c t b)) ∙ q);
    wait_once = l.wait_once;
    idle_thread = λ i e.
        let (q, on, n, d) = l.idle_thread i e in
        let ne : i ≢ page = λ h. absurd (ground (arith, q, ap pc h, page_out)) in
        let ne' : i ≢ c = λ h. absurd (ground (arith, at, ap makes (sym (ap pc h) ∙ q))) in
        (pc-others i ne' ∙ q, on, longer-others i ne ∙ n, λ h. d (sym (others i ne) ∙ h));
    idle_only = λ t q. elim (apart c t) [
      | inl e ↦ absurd (cc (q, pc_c, ap pc' e))
      | inr ne ↦ l.idle_only t (sym (pc-others t ne) ∙ q)
    ];
    in_ready = λ t on r. elim (apart page t) [
      | inl e ↦ inl (ap (λ q. count q k'.ready_list) e ∙ longer_self)
      | inr ne ↦ elim (l.in_ready t on (sym (others t ne) ∙ r)) [
        | inl n ↦ inl (longer-others t ne ∙ n)
        | inr i ↦ inr i
      ]
    ];
    in_wait = λ t on b. elim (apart page t) [
      | inl e ↦ absurd (cc (b, self, ap (λ q. k'.status q) e))
      | inr ne ↦
          let b' = sym (others t ne) ∙ b in
          elim (l.in_wait t on b') [
            | inl (s, q, n) ↦ inl (s, ap sleeps (pc-others t (not_c t b')) ∙ q, n)
            | inr (inl i) ↦ inr (inl i)
            | inr (inr (u, q)) ↦
                let ne' : u ≢ c = λ e. ne (ground (arith, q, ap (λ x. makes (pc x)) e, at)) in
                inr (inr (u, ap makes (pc-others u ne') ∙ q))
          ]
    ];
    born = λ u t q.
        let (_, nt, q') = maker u t q in
        let (on, d, on', b, o) = l.born u t q' in
        let nu : u ≢ page =
          λ e. absurd (ground (arith, q', ap (λ x. makes (pc x)) e, ap makes page_out)) in
        (on, λ h. d (sym (others u nu) ∙ h), on', others t nt ∙ b, pc-others t (not_c t b) ∙ o);
    by_one = λ u w t q q'.
        let (_, _, old) = maker u t q in let (_, _, old') = maker w t q' in l.by_one u w t old old';
    unused = l.unused;
    known = λ t. elim (apart c t) [
      | inl e ↦ rw e (rw pc_c tt)
      | inr ne ↦ rw (pc-others t ne) (l.known t)
    ];
  }

  pub queued_up-Sane : Sane k' waiters next pc'
  queued_up-Sane = record {
    alive = v.alive;
    runs = let ne : c ≢ page = λ e. not_c page blocked_page (sym e) in others c ne ∙ v.runs;
    only = λ t r. elim (apart page t) [
      | inl e ↦ absurd (cc (r, self, ap (λ q. k'.status q) e))
      | inr ne ↦ v.only t (sym (others t ne) ∙ r)
    ];
    lists = queued_up-Lists;
  }

-- The machine after `thread_create`.
abbrev pub joined_queue : ℕ → ℕ → Machine → Machine
joined_queue page tid m = record m {
  kernel = queued_up page tid m.kernel;
  pc = assign m.pc m.kernel.current outside;
}

module _ (m : Machine) (v : IsSane m) (page tid : ℕ)
    (at : makes (m.pc m.kernel.current) ≡ some page) where
  -- No assertion fails there.
  pub add_to_queue_lem : add_to_queue m.kernel.current page tid m ≡ some (joined_queue page tid m)
  unfolding add_to_queue
  add_to_queue_lem =
      rw (unblock-page m.kernel m.waiters m.next_waiter m.pc v page tid at, ◌>>=◌) refl

  pub joined-IsSane : IsSane (joined_queue page tid m)
  joined-IsSane = queued_up-Sane m.kernel m.waiters m.next_waiter m.pc v page tid at
