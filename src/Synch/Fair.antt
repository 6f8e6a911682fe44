-- ===== src/Synch/Fair.antt =====
-- Every thread in the run list gets its turn.
use cs162_group.Prelude.{
  ℕ, suc, ◌+◌, ◌≤◌, ◌<◌, ◌≡◌, refl, sym, ap, ◌∙◌, true, false, ◌⊎◌, inl, inr, List, [], ◌∷◌, ◌++◌,
  arith, length,
}
use mathlib.Core.List.{append_assoc, tail-eq_of_cons-eq}
use cs162_group.Threads.{Kernel}
use cs162_group.Synch.{Sema, Machine}
use cs162_group.Synch.System.{Step, Reach}
use cs162_group.Synch.Invariant.{IsSane}
use cs162_group.Synch.Steps.{Step-IsSane, Reach-IsSane}
use cs162_group.Synch.Shifts.{Shifted}
use cs162_group.Synch.Calls.{Step-Shifted}

-- Steps in which the processor was given up a number of times.
pub data Run : Machine → ℕ → Machine → Type 0 where
  stop : {m : Machine} → Run m 0 m
  stays : {m m' m'' : Machine} {n : ℕ} → Step m false m' → Run m' n m'' → Run m n m''
  switches : {m m' m'' : Machine} {n : ℕ} → Step m true m' → Run m' n m'' → Run m (suc n) m''

-- On the way from one state to another, after at most a number of switches, the thread runs.
abbrev pub Runs : ℕ → ℕ → Machine → ℕ → Machine → Type 0
Runs t most m n m'' =
    (j : ℕ) × (i : ℕ) × (m' : Machine) × Run m j m'
    × Run m' i m''
    × (j + i ≡ n)
    × (j ≤ most)
    × (m'.kernel.current ≡ t)

-- A thread that waits behind others, after a switch.
next_lem :
    (k k' : Kernel) (before after : List ℕ) (t : ℕ)
    → k.ready_list ≡ before ++ t ∷ after
    → Shifted true k k'
    → ((before ≡ []) × (k'.current ≡ t))
      ⊎ ((x : ℕ) × (before' : List ℕ) × (after' : List ℕ) × (before ≡ x ∷ before')
          × (k'.ready_list ≡ before' ++ t ∷ after'))
next_lem k k' [] after t e (zs, inl h) = inl (refl, ground (arith, h, e))
next_lem k k' [] after t e (zs, inr (h, _, _)) = absurd (ground (arith, h, e))
next_lem k k' (x ∷ before) after t e (zs, inl h) =
    let h' : x ∷ ((before ++ t ∷ after) ++ zs) ≡ k'.current ∷ k'.ready_list = rw e at h in
    inr (
      x,
      before,
      after ++ zs,
      refl,
      sym (tail-eq_of_cons-eq h') ∙ append_assoc before (t ∷ after) zs,
    )
next_lem k k' (x ∷ before) after t e (zs, inr (h, _, _)) = absurd (ground (arith, h, e))

turn :
    {m m'' : Machine} {n : ℕ}
    → Run m n m''
    → IsSane m
    → (t : ℕ) (before after : List ℕ) → m.kernel.ready_list ≡ before ++ t ∷ after
    → length before < n
    → Runs t (length before + 1) m n m''
turn stop v t before after e lt = absurd (omega (arith, lt))
turn {m} (stays {m'} s r) v t before after e lt =
    let (zs, grown) = Step-Shifted v s in
    let e' : m'.kernel.ready_list ≡ before ++ t ∷ (after ++ zs) =
      grown ∙ ap (λ xs. xs ++ zs) e ∙ append_assoc before (t ∷ after) zs in
    let (j, i, m₁, r₁, r₂, sum, most, now) =
      turn r (Step-IsSane v s) t before (after ++ zs) e' lt in
    (j, i, m₁, stays s r₁, r₂, sum, most, now)
turn {m} {m''} (switches {m'} {n} s r) v t before after e lt =
    elim (next_lem m.kernel m'.kernel before after t e (Step-Shifted v s)) [
      | inl (_, now) ↦ (1, n, m', switches s stop, r, omega arith, omega arith, now)
      | inr (x, before', after', e₁, e₂) ↦
          let len : length before ≡ length before' + 1 = ap length e₁ ∙ omega arith in
          let (j, i, m₁, r₁, r₂, sum, most, now) =
            turn r (Step-IsSane v s) t before' after' e₂ (omega (arith, lt, len)) in
          (suc j, i, m₁, switches s r₁, r₂, omega (arith, sum), omega (arith, most, len), now)
    ]

-- In a run from a reachable state that has more switches than there are threads before a thread in the
-- run list, the thread runs on the way, after at most one switch more than there are threads before it.
pub ready-Runs :
    (value : Sema → ℕ) {m m'' : Machine} {n : ℕ}
    → Reach value m
    → (t : ℕ) (before after : List ℕ) → m.kernel.ready_list ≡ before ++ t ∷ after
    → Run m n m''
    → length before < n
    → Runs t (length before + 1) m n m''
ready-Runs value reach t before after e run lt =
    turn run (Reach-IsSane value reach) t before after e lt
