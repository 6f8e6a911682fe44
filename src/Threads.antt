-- ===== src/Threads.antt =====
-- pintos/src/threads/thread.c: the threads, the ready list and the switch of threads. A thread is named by
-- the page that holds its `struct thread`, and the running thread is the one whose page the stack is in.
-- A failed assertion is `none`. Each function here runs with interrupts off; `thread_create`, which does
-- not, is in Synch. Stack frames, the page tables and the user program of a thread are not modelled.
pub mod Queue
use cs162_group.Prelude.{
  ℕ, zero, suc, ◌+◌, ◌≤◌, Bool, true, false, not, Option, none, some, List, [], ◌∷◌, ◌++◌, ◌>>=◌,
  leb, ◌==◌, ◌&&◌, ◌||◌, if◌then◌else◌, take,
}
use cs162_group.Bitmap.{assert}

-- `enum thread_status`.
pub data Status : Type 0 where
  running : Status
  ready : Status
  blocked : Status
  dying : Status

abbrev pub is_running : Status → Bool
is_running running = true
is_running ready = false
is_running blocked = false
is_running dying = false

abbrev pub is_blocked : Status → Bool
is_blocked running = false
is_blocked ready = false
is_blocked blocked = true
is_blocked dying = false

abbrev pub is_dying : Status → Bool
is_dying running = false
is_dying ready = false
is_dying blocked = false
is_dying dying = true

-- A field of all threads, set for one.
abbrev pub assign {ℓ} : {A : Type ℓ} → (ℕ → A) → ℕ → A → ℕ → A
assign f p a q = if q == p then a else f q

-- The variables of thread.c, and the fields of `struct thread` by page. `magic` tells whether a page holds
-- a thread.
pub record Kernel : Type 0 where
  pub current : ℕ
  pub magic : ℕ → Bool
  pub tid : ℕ → ℕ
  pub status : ℕ → Status
  pub name : ℕ → List ℕ
  pub priority : ℕ → ℕ
  pub has_pagedir : ℕ → Bool
  pub ready_list : List ℕ
  pub all_list : List ℕ
  pub idle_thread : Option ℕ
  pub initial_thread : ℕ
  pub next_tid : ℕ
  pub idle_ticks : ℕ
  pub kernel_ticks : ℕ
  pub user_ticks : ℕ
  pub thread_ticks : ℕ

abbrev pub pri_max : ℕ
pri_max = 63

abbrev pub time_slice : ℕ
time_slice = 4

abbrev pub is_thread : Kernel → ℕ → Bool
is_thread k t = k.magic t

-- `thread_current`: the running thread, if it is a thread and running.
unfoldable pub thread_current : Kernel → Option ℕ
thread_current k = do
  _ ← assert (is_thread k k.current)
  _ ← assert (is_running (k.status k.current))
  some k.current

-- Whether a pointer that may be null is this thread.
abbrev pub points_to : Option ℕ → ℕ → Bool
points_to none t = false
points_to (some p) t = p == t

-- Whether the tick is to end the time slice, and the counts after it.
unfoldable pub thread_tick : Kernel → Option (Bool × Kernel)
unfolding thread_current
thread_tick k = do
  t ← thread_current k
  let ticks = k.thread_ticks + 1
  let k' =
      (if points_to k.idle_thread t
        then record k { idle_ticks = k.idle_ticks + 1; thread_ticks = ticks }
        else if k.has_pagedir t
        then record k { user_ticks = k.user_ticks + 1; thread_ticks = ticks }
        else record k { kernel_ticks = k.kernel_ticks + 1; thread_ticks = ticks })
  some (leb time_slice ticks, k')

unfoldable pub thread_unblock : ℕ → Kernel → Option Kernel
thread_unblock t k = do
  _ ← assert (is_thread k t)
  _ ← assert (is_blocked (k.status t))
  some (record k { ready_list = k.ready_list ++ t ∷ []; status = assign k.status t ready })

abbrev pub if_empty : List ℕ → Option ℕ → Option ℕ
if_empty [] idle = idle
if_empty (t ∷ xs) idle = some t

abbrev pub rest : List ℕ → List ℕ
rest [] = []
rest (t ∷ xs) = xs

-- The pointer, which is null if there is no idle thread yet, and the list after it.
unfoldable pub next_thread_to_run : Kernel → Option ℕ × Kernel
next_thread_to_run k =
    (if_empty k.ready_list k.idle_thread, record k { ready_list = rest k.ready_list })

-- In the context of the thread that was switched to. A page that is freed holds no thread any more.
unfoldable pub thread_schedule_tail : Option ℕ → Kernel → Option Kernel
thread_schedule_tail prev k = do
  let k' = record k { status = assign k.status k.current running; thread_ticks = 0 }
  elim prev [
    | none ↦ some k'
    | some p ↦
        if is_dying (k'.status p) && not (p == k.initial_thread)
        then (do
          _ ← assert (not (p == k.current))
          some (record k' { magic = assign k.magic p false }))
        else some k'
  ]

unfoldable pub schedule : Kernel → Option Kernel
unfolding next_thread_to_run thread_schedule_tail
schedule k = do
  let cur = k.current
  let (next, k₁) = next_thread_to_run k
  _ ← assert (not (is_running (k.status cur)))
  n ← next
  _ ← assert (is_thread k n)
  thread_schedule_tail (if cur == n then none else some cur) (record k₁ { current = n })

unfoldable pub thread_block : Kernel → Option Kernel
unfolding thread_current schedule
thread_block k = do t ← thread_current k; schedule (record k { status = assign k.status t blocked })

unfoldable pub thread_yield : Kernel → Option Kernel
unfolding thread_current schedule
thread_yield k = do
  t ← thread_current k
  let list = (if points_to k.idle_thread t then k.ready_list else k.ready_list ++ t ∷ [])
  schedule (record k { ready_list = list; status = assign k.status t ready })

abbrev pub remove_from : ℕ → List ℕ → List ℕ
remove_from t [] = []
remove_from t (x ∷ xs) = if x == t then xs else x ∷ remove_from t xs

-- After `process_exit`.
unfoldable pub thread_exit : Kernel → Option Kernel
unfolding thread_current schedule
thread_exit k = do
  t ← thread_current k
  schedule (record k { all_list = remove_from t k.all_list; status = assign k.status t dying })

-- A blocked thread in a page. The name is cut to 15 characters.
unfoldable pub init_thread : ℕ → List ℕ → ℕ → Kernel → Option Kernel
init_thread t name priority k = do
  _ ← assert (leb priority pri_max)
  some (record k {
    magic = assign k.magic t true;
    tid = assign k.tid t 0;
    status = assign k.status t blocked;
    name = assign k.name t (take 15 name);
    priority = assign k.priority t priority;
    has_pagedir = assign k.has_pagedir t false;
    all_list = k.all_list ++ t ∷ [];
  })

unfoldable pub thread_set_priority : ℕ → Kernel → Option Kernel
unfolding thread_current
thread_set_priority new_priority k = do
  t ← thread_current k
  some (record k { priority = assign k.priority t new_priority })

unfoldable pub thread_get_priority : Kernel → Option ℕ
unfolding thread_current
thread_get_priority k = do t ← thread_current k; some (k.priority t)
