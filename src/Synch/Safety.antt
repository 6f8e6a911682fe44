-- ===== src/Synch/Safety.antt =====
-- Mutual exclusion: at most one thread has a lock.
use cs162_group.Prelude.{
  ℕ, ◌≤◌, ◌≡◌, ◌≢◌, refl, sym, ◌∙◌, Bool, none, some, ◌⊎◌, inl, inr, ltb, List, [], ◌∷◌, ◌>>=◌,
  ◌==◌, arith, Bool-cases,
}
use cs162_group.Threads.{assign, points_to}
use cs162_group.Synch.{
  returns, Sema, plain, of_lock, Machine, outside, downing, acquiring, released, leaving,
  signalling, broadcasting, lock_acquire, lock_release, cond_wait, cond_signal, signal_first,
  all_but_first, sema_try_down,
}
use cs162_group.Synch.System.{
  Call, call_down, call_try_down, call_up, call_acquire, call_try_acquire, call_release, call_wait,
  call_signal, call_broadcast, enter, Step, resumes, calls, preempted, exits, creates, Reach, start,
  later, boot,
}
use cs162_group.Synch.Invariant.{IsSane}
use cs162_group.Synch.Keeps.{apart}
use cs162_group.Synch.Creates.{thread_create_lem}
use cs162_group.Synch.Ups.{upped, sema_up_lem}
use cs162_group.Synch.Resumes.{held_lem}
use cs162_group.Synch.Steps.{Reach-IsSane}
use cs162_group.Synch.Turns.{here, Inside, Turn, neutral, takes, becomes, ceases, gives, still-Turn}
use cs162_group.Synch.Locks.{points_to-eq, resume-Turn, go_to-Turn, leave-Turn, try-Turn}

module _ (m : Machine) (v : IsSane m) (l : ℕ) where
  abbrev c : ℕ
  c = m.kernel.current

  signal-Turn :
      (ws : List ℕ) (m₁ m' : Machine)
      → m₁.kernel ≡ m.kernel
      → m₁.value (of_lock l) ≡ m.value (of_lock l)
      → m₁.holder l ≡ m.holder l
      → m₁.pc ≡ m.pc
      → signal_first ws m₁ ≡ some m'
      → Turn l m m'
  signal-Turn [] m₁ m' k e h p g = let r : m' ≡ m₁ = cc in rw r (still-Turn m v l m₁ e h p)
  signal-Turn (w ∷ ws) m₁ m' k e h p g = go_to-Turn m v l m₁ m' (signalling w) k e h p (λ q. cc) g

  enter-Turn :
      (call : Call) (m' : Machine) → m.pc c ≡ outside → enter call m ≡ some m' → Turn l m m'
  unfolding lock_acquire lock_release cond_wait cond_signal sema_try_down
  enter-Turn (call_down s) m' at e =
      go_to-Turn m v l m m' (downing (plain s)) refl refl refl refl (λ q. cc) e
  enter-Turn (call_try_down s) m' at e =
      let r : m' ≡ (sema_try_down (plain s) m).1 = cc in
      rw r (elim (Bool-cases (ltb 0 (m.value (plain s)))) [
        | inl more ↦ rw more (still-Turn m v l _ refl refl refl)
        | inr less ↦ rw less (still-Turn m v l _ refl refl refl)
      ])
  enter-Turn (call_up s) m' at e =
      let e' = rw (sema_up_lem m v (plain s)) at e in
      let r : m' ≡ upped (plain s) m = cc in rw r (still-Turn m v l _ refl refl refl)
  enter-Turn (call_acquire n) m' at e =
      let e₁ = rw (held_lem m v n, ◌>>=◌) at e in
      elim (Bool-cases (points_to (m.holder n) c)) [
        | inl held ↦ let e₂ = rw held at e₁ in cc
        | inr free ↦
            let e₂ = rw free at e₁ in
            go_to-Turn m v l m m' (acquiring n returns) refl refl refl refl (λ q. cc) e₂
      ]
  enter-Turn (call_try_acquire n) m' at e = try-Turn m v l n m' e
  enter-Turn (call_release n) m' at e =
      let e₁ = rw (held_lem m v n, ◌>>=◌) at e in
      elim (Bool-cases (points_to (m.holder n) c)) [
        | inl held ↦
            let e₂ = rw held at e₁ in
            leave-Turn m v l n (record m { holder = assign m.holder n none }) m'
              (released n returns) (points_to-eq (m.holder n) c held) (here m v l) refl refl refl
              refl e₂
        | inr free ↦ let e₂ = rw free at e₁ in cc
      ]
  enter-Turn (call_wait a n) m' at e =
      let e₁ = rw (held_lem m v n, ◌>>=◌) at e in
      elim (Bool-cases (points_to (m.holder n) c)) [
        | inl held ↦
            let e₂ = rw held at e₁ in
            leave-Turn m v l n _ m' (leaving m.next_waiter n) (points_to-eq (m.holder n) c held)
              (here m v l) refl refl refl refl e₂
        | inr free ↦ let e₂ = rw free at e₁ in cc
      ]
  enter-Turn (call_signal a n) m' at e =
      let e₁ = rw (held_lem m v n, ◌>>=◌) at e in
      elim (Bool-cases (points_to (m.holder n) c)) [
        | inl held ↦
            let e₂ = rw (held, ◌>>=◌) at e₁ in
            signal-Turn (m.cond_waiters a)
              (record m {
                cond_waiters = assign m.cond_waiters a (all_but_first (m.cond_waiters a));
              })
              m' refl refl refl refl e₂
        | inr free ↦ let e₂ = rw free at e₁ in cc
      ]
  enter-Turn (call_broadcast a n) m' at e =
      go_to-Turn m v l m m' (broadcasting a n) refl refl refl refl (λ q. cc) e

Step-Turn : (l : ℕ) {m m' : Machine} {b : Bool} → IsSane m → Step m b m' → Turn l m m'
Step-Turn l {m} {m'} {b} v (resumes e) = resume-Turn m v l (m.pc m.kernel.current) b m' refl e
Step-Turn l {m} {m'} v (calls call out e) = enter-Turn m v l call m' out e
Step-Turn l {m} v (preempted {k} e) = still-Turn m v l (record m { kernel = k }) refl refl refl
Step-Turn l {m} v (exits {k} out e) = still-Turn m v l (record m { kernel = k }) refl refl refl
Step-Turn l {m} {m'} v (creates page name priority out free e) =
    rw (thread_create_lem m m' v page name priority out free e) (
      neutral refl refl (λ t i. elim (apart m.kernel.current t) [
        | inl e ↦ absurd (ground (arith, e, i))
        | inr ne ↦ elim (apart page t) [
          | inl e ↦ absurd (ground (arith, e, ne, i))
          | inr ne' ↦ ground (arith, ne, ne', i)
        ]
      ]))

-- The thread that has the lock is its holder, or is about to be or was a moment ago.
abbrev pub Owns : ℕ → Machine → ℕ → Type 0
Owns l m t = (m.holder l ≡ some t) ⊎ Inside l m t

zero_of : (n : ℕ) → ¬ (n ≢ 0) → n ≡ 0
zero_of n h = elim (Bool-cases (n == 0)) [
  | inl e ↦ ground arith
  | inr e ↦ absurd (h (λ z. ground (arith, e, z)))
]

record Guarded (l : ℕ) (m : Machine) : Type 0 where
  bound : m.value (of_lock l) ≤ 1
  free : m.value (of_lock l) ≢ 0 → (m.holder l ≡ none) × ((t : ℕ) → ¬ Inside l m t)
  alone : (t u : ℕ) → Inside l m t → Inside l m u → t ≡ u
  unheld : (t : ℕ) → Inside l m t → m.holder l ≡ none

Turn-Guarded : (l : ℕ) {m m' : Machine} → Guarded l m → Turn l m m' → Guarded l m'
Turn-Guarded l {m} {m'} g (neutral e h i) = record {
  bound = rw e g.bound;
  free = λ n. let (f, o) = g.free (λ z. n (e ∙ z)) in (h ∙ f, λ t j. o t (i t j));
  alone = λ t u j j'. g.alone t u (i t j) (i u j');
  unheld = λ t j. h ∙ g.unheld t (i t j);
}
Turn-Guarded l {m} {m'} g (takes n e h i) =
    let (f, o) = g.free n in
    let only : (t : ℕ) → Inside l m' t → t ≡ m.kernel.current =
      λ t j. elim (i t j) [ inl e ↦ e | inr j' ↦ absurd (o t j') ] in
    record {
      bound = omega (arith, g.bound, e);
      free = λ n'. absurd (n' (omega (arith, g.bound, e)));
      alone = λ t u j j'. only t j ∙ sym (only u j');
      unheld = λ t j. h ∙ f;
    }
Turn-Guarded l {m} {m'} g (becomes i e h o) =
    let none_in : (t : ℕ) → ¬ Inside l m' t =
      λ t j. let (ne, j') = o t j in ne (g.alone t m.kernel.current j' i) in
    let taken : ¬ (m.value (of_lock l) ≢ 0) = λ n. let (_, p) = g.free n in p m.kernel.current i in
    record {
      bound = rw e g.bound;
      free = λ n. absurd (taken (λ z. n (e ∙ z)));
      alone = λ t u j j'. absurd (none_in t j);
      unheld = λ t j. absurd (none_in t j);
    }
Turn-Guarded l {m} {m'} g (ceases held e h i) =
    let only : (t : ℕ) → Inside l m' t → t ≡ m.kernel.current =
      λ t j. elim (i t j) [ inl e ↦ e | inr j' ↦ absurd (cc (held, g.unheld t j')) ] in
    let taken : ¬ (m.value (of_lock l) ≢ 0) = λ n. let (f, _) = g.free n in absurd (cc (held, f)) in
    record {
      bound = rw e g.bound;
      free = λ n. absurd (taken (λ z. n (e ∙ z)));
      alone = λ t u j j'. only t j ∙ sym (only u j');
      unheld = λ t j. h;
    }
Turn-Guarded l {m} {m'} g (gives i e h o) =
    let none_in : (t : ℕ) → ¬ Inside l m' t =
      λ t j. let (ne, j') = o t j in ne (g.alone t m.kernel.current j' i) in
    let taken : ¬ (m.value (of_lock l) ≢ 0) = λ n. let (_, p) = g.free n in p m.kernel.current i in
    record {
      bound = omega (arith, e, zero_of (m.value (of_lock l)) taken);
      free = λ n. (h ∙ g.unheld m.kernel.current i, none_in);
      alone = λ t u j j'. absurd (none_in t j);
      unheld = λ t j. absurd (none_in t j);
    }

boot-outside : (value : Sema → ℕ) (l t : ℕ) → ¬ Inside l (boot value) t
boot-outside value l t i = elim (apart 1 t) [
  | inl e ↦ ground (arith, e, i)
  | inr ne ↦ ground (arith, ne, i)
]

Reach-Guarded :
    (value : Sema → ℕ) (l : ℕ) {m : Machine} → value (of_lock l) ≡ 1 → Reach value m → Guarded l m
Reach-Guarded value l one start = record {
  bound = rw one (omega arith);
  free = λ n. (refl, boot-outside value l);
  alone = λ t u i j. absurd (boot-outside value l t i);
  unheld = λ t i. refl;
}
Reach-Guarded value l one (later r s) =
    Turn-Guarded l (Reach-Guarded value l one r) (Step-Turn l (Reach-IsSane value r) s)

Guarded-alone : (l : ℕ) {m : Machine} → Guarded l m → (t u : ℕ) → Owns l m t → Owns l m u → t ≡ u
Guarded-alone l g t u (inl h) (inl h') = ground (arith, h, h')
Guarded-alone l g t u (inl h) (inr j) = let n = g.unheld u j in cc
Guarded-alone l g t u (inr i) (inl h) = let n = g.unheld t i in cc
Guarded-alone l g t u (inr i) (inr j) = g.alone t u i j

Guarded-taken : (l : ℕ) {m : Machine} → Guarded l m → (t : ℕ) → Owns l m t → m.value (of_lock l) ≡ 0
Guarded-taken l {m} g t o =
    zero_of (m.value (of_lock l))
      (λ n. let (f, out) = g.free n in elim o [ inl h ↦ absurd (cc (h, f)) | inr i ↦ out t i ])

-- In every state of a run that starts with a lock's semaphore at 1, if two threads have the lock they are
-- the same thread, and its semaphore is then 0.
pub lock-Owns :
    (value : Sema → ℕ) (l : ℕ) {m : Machine}
    → value (of_lock l) ≡ 1
    → Reach value m
    → (t u : ℕ) → Owns l m t
    → Owns l m u
    → (t ≡ u) × (m.value (of_lock l) ≡ 0)
lock-Owns value l one r t u o o' =
    let g = Reach-Guarded value l one r in (Guarded-alone l g t u o o', Guarded-taken l g t o)
