-- ===== src/Synch/Switches.antt =====
-- The functions that give up the processor keep the lists in order.
use cs162_group.Prelude.{ℕ, ◌≡◌, some, List, [], ◌∷◌, ◌++◌, ◌>>=◌}
use cs162_group.Threads.{Kernel, ready, blocked, dying, thread_yield, thread_block, thread_exit}
use cs162_group.Threads.Queue.{schedule-Switched}
use cs162_group.Synch.{Sema, assign_sema, Pc, outside, idling}
use cs162_group.Synch.Invariant.{sleeps, Sane}
use cs162_group.Synch.Moves.{switch-Sane}
use cs162_group.Synch.Keeps.{current_lem, none_left, yield-Lists}
use cs162_group.Synch.Sleeps.{exit-Lists, idle-Lists, sleep-Lists}

module _ (k k' : Kernel) (waiters : Sema → List ℕ) (next : ℕ) (pc : ℕ → Pc)
    (v : Sane k waiters next pc) where
  pub yield-Sane : thread_yield k ≡ some k' → Sane k' waiters next pc
  unfolding thread_yield
  yield-Sane e =
      let e' = rw (current_lem k waiters next pc v, ◌>>=◌) at e in
      switch-Sane waiters next pc _ k' (schedule-Switched _ k' e') (yield-Lists k waiters next pc v)
        (none_left k waiters next pc v ready (λ e. cc))

  pub exit-Sane : pc k.current ≡ outside → thread_exit k ≡ some k' → Sane k' waiters next pc
  unfolding thread_exit
  exit-Sane out e =
      let e' = rw (current_lem k waiters next pc v, ◌>>=◌) at e in
      switch-Sane waiters next pc _ k' (schedule-Switched _ k' e')
        (exit-Lists k waiters next pc v out) (none_left k waiters next pc v dying (λ e. cc))

  pub idle-Sane : pc k.current ≡ idling → thread_block k ≡ some k' → Sane k' waiters next pc
  unfolding thread_block
  idle-Sane rest e =
      let e' = rw (current_lem k waiters next pc v, ◌>>=◌) at e in
      switch-Sane waiters next pc _ k' (schedule-Switched _ k' e')
        (idle-Lists k waiters next pc v rest) (none_left k waiters next pc v blocked (λ e. cc))

  pub sleep-Sane :
      (s : Sema)
      → sleeps (pc k.current) ≡ some s
      → thread_block k ≡ some k'
      → Sane k' (assign_sema waiters s (waiters s ++ k.current ∷ [])) next pc
  unfolding thread_block
  sleep-Sane s asks e =
      let e' = rw (current_lem k waiters next pc v, ◌>>=◌) at e in
      switch-Sane (assign_sema waiters s (waiters s ++ k.current ∷ [])) next pc _ k'
        (schedule-Switched _ k' e') (sleep-Lists k waiters next pc v s asks)
        (none_left k waiters next pc v blocked (λ e. cc))
