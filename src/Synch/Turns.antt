-- ===== src/Synch/Turns.antt =====
-- What a step does to one lock.
use cs162_group.Prelude.{
  ℕ, ◌+◌, ◌-◌, ◌≡◌, ◌≢◌, refl, sym, ap, ◌∙◌, Bool, false, Option, none, some, ◌⊎◌, inl, inr, [],
  ◌∷◌, ◌++◌, ◌>>=◌, ◌==◌, arith, Bool-cases, Option-cases,
}
use cs162_group.Threads.{assign, thread_current, thread_block}
use cs162_group.Synch.{
  numbering, readying, Sema, of_lock, assign_sema, Machine, Pc, outside, downing, acquiring,
  acquired, released, leaving, waiting, signalling, broadcasting, rousing, idling, down_round,
  sema_up,
}
use cs162_group.Synch.Invariant.{IsSane}
use cs162_group.Synch.Keeps.{apart, current_lem}
use cs162_group.Synch.Ups.{upped, sema_up_lem}

-- The lock whose semaphore a thread has taken without being its holder, or not any more.
abbrev pub in_section : Pc → Option ℕ
in_section outside = none
in_section (downing s) = none
in_section (acquiring l a) = none
in_section (acquired l a) = some l
in_section (released l a) = some l
in_section (leaving w l) = some l
in_section (waiting w l) = none
in_section (signalling w) = none
in_section (broadcasting c l) = none
in_section (rousing w c l) = none
in_section (numbering page) = none
in_section (readying page tid) = none
in_section idling = none

abbrev pub Inside : ℕ → Machine → ℕ → Type 0
Inside l m t = in_section (m.pc t) ≡ some l

-- The thread that runs before the step takes the semaphore, becomes the holder, ceases to be the
-- holder, or gives the semaphore back.
pub data Turn (l : ℕ) (m m' : Machine) : Type 0 where
  neutral :
      m'.value (of_lock l) ≡ m.value (of_lock l)
      → m'.holder l ≡ m.holder l
      → ((t : ℕ) → Inside l m' t → Inside l m t)
      → Turn l m m'
  takes :
      m.value (of_lock l) ≢ 0
      → m'.value (of_lock l) ≡ m.value (of_lock l) - 1
      → m'.holder l ≡ m.holder l
      → ((t : ℕ) → Inside l m' t → (t ≡ m.kernel.current) ⊎ Inside l m t)
      → Turn l m m'
  becomes :
      Inside l m m.kernel.current
      → m'.value (of_lock l) ≡ m.value (of_lock l)
      → m'.holder l ≡ some m.kernel.current
      → ((t : ℕ) → Inside l m' t → (t ≢ m.kernel.current) × Inside l m t)
      → Turn l m m'
  ceases :
      m.holder l ≡ some m.kernel.current
      → m'.value (of_lock l) ≡ m.value (of_lock l)
      → m'.holder l ≡ none
      → ((t : ℕ) → Inside l m' t → (t ≡ m.kernel.current) ⊎ Inside l m t)
      → Turn l m m'
  gives :
      Inside l m m.kernel.current
      → m'.value (of_lock l) ≡ m.value (of_lock l) + 1
      → m'.holder l ≡ m.holder l
      → ((t : ℕ) → Inside l m' t → (t ≢ m.kernel.current) × Inside l m t)
      → Turn l m m'

module _ (m : Machine) (v : IsSane m) (l : ℕ) where
  abbrev c : ℕ
  c = m.kernel.current

  pub here : thread_current m.kernel ≡ some c
  here = current_lem m.kernel m.waiters m.next_waiter m.pc v

  pub joined : (q : Pc) (t : ℕ) → in_section (assign m.pc c q t) ≡ some l → (t ≡ c) ⊎ Inside l m t
  joined q t i = elim (apart c t) [ inl e ↦ inl e | inr ne ↦ inr (ground (arith, ne, i)) ]

  pub apart_from :
      (q : Pc)
      → in_section q ≢ some l
      → (t : ℕ) → in_section (assign m.pc c q t) ≡ some l
      → (t ≢ c) × Inside l m t
  apart_from q out t i = elim (apart c t) [
    | inl e ↦ absurd (out (ground (arith, e, i)))
    | inr ne ↦ (ne, ground (arith, ne, i))
  ]

  -- The thread that runs goes on at a place in no section, and the semaphore of the lock is as before.
  pub place-Turn :
      (m' : Machine) (q : Pc)
      → m'.value (of_lock l) ≡ m.value (of_lock l)
      → m'.holder l ≡ m.holder l
      → m'.pc ≡ assign m.pc c q
      → in_section q ≢ some l
      → Turn l m m'
  place-Turn m' q e e' p out = neutral e e' (λ t i. (apart_from q out t (rw p at i)).1)

  -- The same, with the places as before.
  pub still-Turn :
      (m' : Machine)
      → m'.value (of_lock l) ≡ m.value (of_lock l)
      → m'.holder l ≡ m.holder l
      → m'.pc ≡ m.pc
      → Turn l m m'
  still-Turn m' e e' p = neutral e e' (λ t i. ap (λ f. in_section (f t)) (sym p) ∙ i)

  -- The round of `sema_down` takes the lock's semaphore, or has to do with another one.
  pub down_round-Turn :
      (s : Sema) (after : Pc) (b : Bool) (m' : Machine)
      → (s ≡ of_lock l)
        ⊎ ((assign_sema m.value s (m.value s - 1) (of_lock l) ≡ m.value (of_lock l))
            × (in_section after ≢ some l))
      → down_round s after m ≡ some (b, m')
      → Turn l m m'
  unfolding down_round
  down_round-Turn s after b m' which e = elim (Bool-cases (m.value s == 0)) [
    | inl zero' ↦
        let e' = rw (here, ◌>>=◌, zero') at e in
        elim (Option-cases (thread_block m.kernel)) [
          | inl none' ↦ let e'' = rw none' at e' in cc
          | inr (k, ok) ↦
              let e'' = rw (ok, ◌>>=◌) at e' in
              let r : m' ≡ record m {
                kernel = k;
                waiters = assign_sema m.waiters s (m.waiters s ++ c ∷ []);
              } =
                cc in
              rw r (still-Turn _ refl refl refl)
        ]
    | inr more ↦
        let e' = rw (here, ◌>>=◌, more) at e in
        let m₁ : Machine = record m {
          value = assign_sema m.value s (m.value s - 1);
          pc = assign m.pc c after;
        } in
        let r : m' ≡ m₁ = cc in
        elim which [
          | inl this ↦
              let n : m.value (of_lock l) ≢ 0 = λ z. ground (arith, more, this, z) in
              rw r (takes n (ground (arith, this)) refl (joined after))
          | inr (other, out) ↦ rw r (place-Turn m₁ after other refl refl out)
        ]
  ]

  -- `sema_up` gives the lock's semaphore back, or has to do with another one.
  pub up_then-Turn :
      (s : Sema) (q : Pc) (b : Bool) (m' : Machine)
      → in_section q ≢ some l
      → ((s ≡ of_lock l) × Inside l m c)
        ⊎ (assign_sema m.value s (m.value s + 1) (of_lock l) ≡ m.value (of_lock l))
      → ◌>>=◌ {B = Bool × Machine}
          (sema_up s m)
          (λ m₁. some (false, record m₁ { pc = assign m₁.pc c q }))
        ≡ some (b, m')
      → Turn l m m'
  up_then-Turn s q b m' out which e =
      let e' = rw (sema_up_lem m v s, ◌>>=◌) at e in
      let u = upped s m in
      let m₁ : Machine = record u { pc = assign u.pc c q } in
      let r : m' ≡ m₁ = cc in
      elim which [
        | inl (this, i) ↦ rw r (gives i (ground (arith, this)) refl (apart_from q out))
        | inr other ↦ rw r (place-Turn m₁ q other refl refl out)
      ]
