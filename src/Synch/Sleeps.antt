-- ===== src/Synch/Sleeps.antt =====
-- Threads that end or sleep keep the lists in order.
use cs162_group.Prelude.{
  ℕ, ◌<◌, ◌≡◌, ◌≢◌, refl, sym, ap, ◌∙◌, true, some, inl, inr, List, [], ◌∷◌, ◌++◌, if◌then◌else◌,
  count, count-append, arith, Bool-cases,
}
use cs162_group.Threads.{Kernel, Status, blocked, dying, assign, remove_from}
use cs162_group.Synch.{Sema, of_waiter, same, assign_sema, Pc, outside, idling}
use cs162_group.Synch.Invariant.{sleeps, Lists, Sane}
use cs162_group.Synch.Keeps.{
  apart, same-eq, same_refl, Known-below, left-others, left_self, others_in_wait, others_queued,
  others_asleep, others_born, out_of_wait,
}

module _ (k : Kernel) (waiters : Sema → List ℕ) (next : ℕ) (pc : ℕ → Pc)
    (v : Sane k waiters next pc) where
  abbrev c : ℕ
  c = k.current

  abbrev l : Lists k waiters next pc
  l = v.lists

  abbrev left : Status → Kernel
  left s = record k { status = assign k.status c s }

  -- Out of all lists: a thread that ends.
  pub exit-Lists :
      pc c ≡ outside
      → Lists
          (record k { all_list = remove_from c k.all_list; status = assign k.status c dying })
          waiters
          next
          pc
  exit-Lists out = record {
    queued = others_queued k waiters next pc v dying;
    once = l.once;
    asleep = others_asleep k waiters next pc v dying;
    wait_once = l.wait_once;
    idle_thread = λ i e.
        let (p, on, n, d) = l.idle_thread i e in
        elim (apart c i) [
          | inl h ↦ absurd (ground (arith, p, out, ap pc h))
          | inr ne ↦ (p, on, n, λ q. d (sym (left-others k waiters next pc v dying i ne) ∙ q))
        ];
    idle_only = l.idle_only;
    in_ready = λ t on r. elim (apart c t) [
      | inl e ↦ absurd (ground (arith, r, e))
      | inr ne ↦ l.in_ready t on (sym (left-others k waiters next pc v dying t ne) ∙ r)
    ];
    in_wait = λ t on b. elim (apart c t) [
      | inl e ↦ absurd (ground (arith, b, e))
      | inr ne ↦ others_in_wait k waiters next pc v dying t ne on b
    ];
    unused = l.unused;
    known = l.known;
    born =
        λ u t q. others_born k waiters next pc v dying u t (λ e. absurd (cc (q, ap pc e, out))) q;
    by_one = l.by_one;
  }

  -- The idle thread, which sleeps in no list.
  pub idle-Lists : pc c ≡ idling → Lists (left blocked) waiters next pc
  idle-Lists rest = record {
    queued = others_queued k waiters next pc v blocked;
    once = l.once;
    asleep = others_asleep k waiters next pc v blocked;
    wait_once = l.wait_once;
    idle_thread = λ i e.
        let (p, on, n, d) = l.idle_thread i e in
        elim (apart c i) [
          | inl h ↦ (p, on, n, λ q. absurd (ground (arith, q, h)))
          | inr ne ↦ (p, on, n, λ q. d (sym (left-others k waiters next pc v blocked i ne) ∙ q))
        ];
    idle_only = l.idle_only;
    in_ready = λ t on r. elim (apart c t) [
      | inl e ↦ absurd (ground (arith, r, e))
      | inr ne ↦ l.in_ready t on (sym (left-others k waiters next pc v blocked t ne) ∙ r)
    ];
    in_wait = λ t on b. elim (apart c t) [
      | inl e ↦ inr (inl (l.idle_only c rest ∙ ap some (sym e)))
      | inr ne ↦ others_in_wait k waiters next pc v blocked t ne on b
    ];
    unused = l.unused;
    known = l.known;
    born = λ u t q. others_born k waiters next pc v blocked u t (λ _ e. cc) q;
    by_one = l.by_one;
  }

  module _ (s : Sema) (asks : sleeps (pc c) ≡ some s) where
    abbrev longer : Sema → List ℕ
    longer = assign_sema waiters s (waiters s ++ c ∷ [])

    longer-others : (r : Sema) (t : ℕ) → t ≢ c → count t (longer r) ≡ count t (waiters r)
    longer-others r t ne = elim (Bool-cases (same r s)) [
      | inl e ↦ rw (e, same-eq r s e) (ground (arith, count-append t (waiters s) (c ∷ []), ne))
      | inr e ↦ rw e refl
    ]

    longer_self : (r : Sema) → count c (longer r) ≡ (if same r s then 1 else 0)
    longer_self r = elim (Bool-cases (same r s)) [
      | inl e ↦
          rw e
            (ground (arith, count-append c (waiters s) (c ∷ []), out_of_wait k waiters next pc v s))
      | inr e ↦ rw e (out_of_wait k waiters next pc v r)
    ]

    pub sleep-Lists : Lists (left blocked) longer next pc
    sleep-Lists = record {
      queued = others_queued k waiters next pc v blocked;
      once = l.once;
      asleep = λ r t h. elim (apart c t) [
        | inl e ↦
            let h' : 0 < count c (longer r) = omega (arith, h, ap (λ q. count q (longer r)) e) in
            let same' : same r s ≡ true = ground (arith, h', longer_self r) in
            (
              ap (assign k.status c blocked) e ∙ left_self k waiters next pc v blocked,
              ap (λ q. k.magic q) e ∙ v.alive,
              ap (λ q. sleeps (pc q)) e ∙ asks ∙ ap some (sym (same-eq r s same')),
            )
        | inr ne ↦ others_asleep k waiters next pc v blocked r t (rw (sym (longer-others r t ne)) h)
      ];
      wait_once = λ r t. elim (apart c t) [
        | inl e ↦ ground (arith, longer_self r, ap (λ q. count q (longer r)) e)
        | inr ne ↦ omega (arith, longer-others r t ne, l.wait_once r t)
      ];
      idle_thread = λ i e.
          let (p, on, n, d) = l.idle_thread i e in
          elim (apart c i) [
            | inl h ↦ absurd (ground (arith, asks, ap sleeps (sym (ap pc h) ∙ p)))
            | inr ne ↦ (p, on, n, λ q. d (sym (left-others k waiters next pc v blocked i ne) ∙ q))
          ];
      idle_only = l.idle_only;
      in_ready = λ t on r. elim (apart c t) [
        | inl e ↦ absurd (ground (arith, r, e))
        | inr ne ↦ l.in_ready t on (sym (left-others k waiters next pc v blocked t ne) ∙ r)
      ];
      in_wait = λ t on b. elim (apart c t) [
        | inl e ↦ inl (
          s,
          ap (λ q. sleeps (pc q)) e ∙ asks,
          ap (λ q. count q (longer s)) e ∙ longer_self s ∙ ground (arith, same_refl s),
        )
        | inr ne ↦ elim (others_in_wait k waiters next pc v blocked t ne on b) [
          | inl (r, p, n) ↦ inl (r, p, longer-others r t ne ∙ n)
          | inr i ↦ inr i
        ]
      ];
      unused = λ w h. elim (Bool-cases (same (of_waiter w) s)) [
        | inl e ↦
            let lt =
              Known-below next w (pc c) (l.known c)
                (asks ∙ ap some (sym (same-eq (of_waiter w) s e))) in
            absurd (omega (arith, lt))
        | inr e ↦ rw e (l.unused w h)
      ];
      known = l.known;
      born = λ u t q. others_born k waiters next pc v blocked u t (λ _ e. cc) q;
      by_one = l.by_one;
    }
