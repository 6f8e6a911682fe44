-- ===== src/Synch/System.antt =====
-- Threads that call into synch.c, and a timer that may preempt the one that runs between any two steps.
use cs162_group.Prelude.{
  ℕ, ◌+◌, ◌==◌, ◌≡◌, Bool, true, false, Option, none, some, List, [], ◌∷◌, if◌then◌else◌,
}
use cs162_group.Threads.{Kernel, running, blocked, dying, thread_exit, thread_yield}
use cs162_group.Synch.{
  returns, thread_create, Sema, plain, Machine, outside, downing, broadcasting, sema_try_down,
  sema_up, lock_acquire, lock_try_acquire, lock_release, cond_wait, cond_signal, go_to, resume,
  idling,
}

pub data Call : Type 0 where
  call_down : ℕ → Call
  call_try_down : ℕ → Call
  call_up : ℕ → Call
  call_acquire : ℕ → Call
  call_try_acquire : ℕ → Call
  call_release : ℕ → Call
  call_wait : ℕ → ℕ → Call
  call_signal : ℕ → ℕ → Call
  call_broadcast : ℕ → ℕ → Call

abbrev pub second {ℓ} : {A : Type ℓ} → Option (Bool × A) → Option A
second none = none
second (some (b, a)) = some a

-- The first step of a call, by the thread that runs.
abbrev pub enter : Call → Machine → Option Machine
enter (call_down s) m = go_to (downing (plain s)) m
enter (call_try_down s) m = some (sema_try_down (plain s) m).1
enter (call_up s) m = sema_up (plain s) m
enter (call_acquire l) m = lock_acquire returns l m
enter (call_try_acquire l) m = second (lock_try_acquire l m)
enter (call_release l) m = lock_release returns l m
enter (call_wait c l) m = cond_wait c l m
enter (call_signal c l) m = cond_signal c l m
enter (call_broadcast c l) m = go_to (broadcasting c l) m

-- A step, and whether the thread that runs gave up the processor in it.
pub data Step (m : Machine) : Bool → Machine → Type 0 where
  resumes :
      {b : Bool} {m' : Machine}
      → resume m.kernel.current (m.pc m.kernel.current) m ≡ some (b, m')
      → Step m b m'
  calls :
      {m' : Machine} (c : Call)
      → m.pc m.kernel.current ≡ outside
      → enter c m ≡ some m'
      → Step m false m'
  preempted : {k : Kernel} → thread_yield m.kernel ≡ some k → Step m true (record m { kernel = k })
  exits :
      {k : Kernel}
      → m.pc m.kernel.current ≡ outside
      → thread_exit m.kernel ≡ some k
      → Step m true (record m { kernel = k })
  -- `palloc_get_page` gives a page that holds no thread.
  creates :
      {m' : Machine} (page : ℕ) (name : List ℕ) (priority : ℕ)
      → m.pc m.kernel.current ≡ outside
      → m.kernel.magic page ≡ false
      → thread_create (some page) name priority m ≡ some m'
      → Step m false m'

-- The main thread and the idle thread, which sleeps; no thread waits.
abbrev pub boot : (Sema → ℕ) → Machine
boot value = record {
  kernel = record {
    current = 0;
    magic = λ t. if t == 0 then true else t == 1;
    tid = λ t. t + 1;
    status = λ t. if t == 0 then running else if t == 1 then blocked else dying;
    name = λ t. [];
    priority = λ t. 31;
    has_pagedir = λ t. false;
    ready_list = [];
    all_list = 0 ∷ 1 ∷ [];
    idle_thread = some 1;
    initial_thread = 0;
    next_tid = 3;
    idle_ticks = 0;
    kernel_ticks = 0;
    user_ticks = 0;
    thread_ticks = 0;
  };
  value = value;
  waiters = λ s. [];
  holder = λ l. none;
  cond_waiters = λ c. [];
  next_waiter = 0;
  pc = λ t. if t == 1 then idling else outside;
}

-- The states of a run from the start, for any first values of the semaphores.
pub data Reach (value : Sema → ℕ) : Machine → Type 0 where
  start : Reach value (boot value)
  later : {m m' : Machine} {b : Bool} → Reach value m → Step m b m' → Reach value m'
