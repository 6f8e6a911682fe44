-- ===== src/Synch.antt =====
-- pintos/src/threads/synch.c: semaphores, locks and condition variables. What a function does with
-- interrupts off is one step; between two steps the timer may switch to another thread, which the
-- relation `Step` of the child System leaves open. A thread that sleeps in `sema_down` goes on with the
-- loop's test when it runs again. A failed assertion is `none`; pointers are not null.
pub mod System
pub mod Invariant
pub mod Moves
pub mod Keeps
pub mod Sleeps
pub mod Switches
pub mod Wakes
pub mod Ups
pub mod Boot
pub mod Resumes
pub mod Steps
pub mod Turns
pub mod Locks
pub mod Runs
pub mod Creates
pub mod Joins
pub mod Safety
pub mod Shifts
pub mod Calls
pub mod Fair
pub mod Progress
mod Tests
use cs162_group.Prelude.{
  ℕ, zero, suc, ◌+◌, ◌-◌, Bool, true, false, not, Option, none, some, List, [], ◌∷◌, ◌++◌, ◌>>=◌,
  ltb, ◌==◌, ◌&&◌, ◌||◌, if◌then◌else◌,
}
use cs162_group.Bitmap.{assert}
use cs162_group.Threads.{
  Kernel, assign, points_to, thread_current, thread_block, thread_unblock, init_thread,
}

-- A semaphore: one by itself, the one in a lock, or the one of a waiter in `cond_wait`.
pub data Sema : Type 0 where
  plain : ℕ → Sema
  of_lock : ℕ → Sema
  of_waiter : ℕ → Sema

abbrev pub same : Sema → Sema → Bool
same (plain a) (plain b) = a == b
same (of_lock a) (of_lock b) = a == b
same (of_waiter a) (of_waiter b) = a == b
same _ _ = false

-- A field of all semaphores, set for one.
abbrev pub assign_sema {ℓ} : {A : Type ℓ} → (Sema → A) → Sema → A → Sema → A
assign_sema f s a r = if same r s then a else f r

-- Where a thread goes on when it has taken a lock or given it back: in its own code, or in
-- `allocate_tid` of `thread_create` for the thread in a page, with the identifier in the end.
pub data After : Type 0 where
  returns : After
  numbers : ℕ → After
  readies : ℕ → ℕ → After

-- Where a thread stands between two steps.
pub data Pc : Type 0 where
  outside : Pc  -- in no function of synch.c
  downing : Sema → Pc  -- in the loop of `sema_down`
  acquiring : ℕ → After → Pc  -- in the loop of `sema_down`, from `lock_acquire`
  acquired : ℕ → After → Pc  -- before `lock->holder = thread_current ()`
  released : ℕ → After → Pc  -- `lock_release`, before `sema_up`
  leaving : ℕ → ℕ → Pc  -- the same, from `cond_wait` with its waiter and lock
  waiting : ℕ → ℕ → Pc  -- in the loop of `sema_down` of `cond_wait`
  signalling : ℕ → Pc  -- `cond_signal`, before `sema_up` of the waiter taken off
  broadcasting : ℕ → ℕ → Pc  -- at the test of the loop of `cond_broadcast`
  rousing : ℕ → ℕ → ℕ → Pc  -- the same, before `sema_up` of the waiter taken off
  numbering : ℕ → Pc  -- `allocate_tid`, with `tid_lock`, for the thread in a page
  readying : ℕ → ℕ → Pc  -- `thread_create`, with the page and the identifier
  idling : Pc  -- in the loop of `idle`

pub record Machine : Type 0 where
  pub kernel : Kernel
  pub value : Sema → ℕ
  pub waiters : Sema → List ℕ
  pub holder : ℕ → Option ℕ
  -- The waiters of each condition variable, and a number for the next `struct semaphore_elem`.
  pub cond_waiters : ℕ → List ℕ
  pub next_waiter : ℕ
  pub pc : ℕ → Pc

-- One round of the loop of `sema_down`: whether the thread went to sleep. If not, the semaphore is
-- taken and the thread goes on at `after`.
unfoldable pub down_round : Sema → Pc → Machine → Option (Bool × Machine)
down_round s after m = do
  t ← thread_current m.kernel
  if m.value s == 0
      then (do
        k ← thread_block m.kernel
        some (
          true,
          record m { kernel = k; waiters = assign_sema m.waiters s (m.waiters s ++ t ∷ []) },
        ))
      else some (
        false,
        record m { value = assign_sema m.value s (m.value s - 1); pc = assign m.pc t after },
      )

unfoldable pub sema_try_down : Sema → Machine → Bool × Machine
sema_try_down s m =
    if ltb 0 (m.value s)
    then (true, record m { value = assign_sema m.value s (m.value s - 1) })
    else (false, m)

-- The first waiter, if there is one, becomes ready.
abbrev pub wake_first : List ℕ → Kernel → Option Kernel
wake_first [] k = some k
wake_first (t ∷ ts) k = thread_unblock t k

abbrev pub all_but_first : List ℕ → List ℕ
all_but_first [] = []
all_but_first (t ∷ ts) = ts

unfoldable pub sema_up : Sema → Machine → Option Machine
sema_up s m = do
  k ← wake_first (m.waiters s) m.kernel
  some (record m {
    kernel = k;
    waiters = assign_sema m.waiters s (all_but_first (m.waiters s));
    value = assign_sema m.value s (m.value s + 1);
  })

abbrev pub sema_init : Sema → ℕ → Machine → Machine
sema_init s value m = record m {
  value = assign_sema m.value s value;
  waiters = assign_sema m.waiters s [];
}

unfoldable pub lock_held_by_current_thread : ℕ → Machine → Option Bool
lock_held_by_current_thread l m = do t ← thread_current m.kernel; some (points_to (m.holder l) t)

-- The current thread goes on at `pc`.
unfoldable pub go_to : Pc → Machine → Option Machine
go_to p m = do t ← thread_current m.kernel; some (record m { pc = assign m.pc t p })

-- The calls: what each does before its first `sema_down` or `sema_up`.
unfoldable pub lock_acquire : After → ℕ → Machine → Option Machine
unfolding lock_held_by_current_thread go_to
lock_acquire a l m = do
  held ← lock_held_by_current_thread l m
  _ ← assert (not held)
  go_to (acquiring l a) m

unfoldable pub lock_try_acquire : ℕ → Machine → Option (Bool × Machine)
unfolding lock_held_by_current_thread sema_try_down go_to
lock_try_acquire l m = do
  held ← lock_held_by_current_thread l m
  _ ← assert (not held)
  let (success, m') = sema_try_down (of_lock l) m
  m'' ← go_to (acquired l returns) m'
  if success then some (true, m'') else some (false, m')

unfoldable pub lock_release : After → ℕ → Machine → Option Machine
unfolding lock_held_by_current_thread go_to
lock_release a l m = do
  held ← lock_held_by_current_thread l m
  _ ← assert held
  go_to (released l a) (record m { holder = assign m.holder l none })

-- The waiter `w` is a new `struct semaphore_elem`.
unfoldable pub cond_wait : ℕ → ℕ → Machine → Option Machine
unfolding lock_held_by_current_thread go_to
cond_wait c l m = do
  held ← lock_held_by_current_thread l m
  _ ← assert held
  let w = m.next_waiter
  let m₁ = sema_init (of_waiter w) 0 m
  go_to (leaving w l) (record m₁ {
    next_waiter = w + 1;
    cond_waiters = assign m.cond_waiters c (m.cond_waiters c ++ w ∷ []);
    holder = assign m.holder l none;
  })

abbrev pub signal_first : List ℕ → Machine → Option Machine
signal_first [] m = some m
signal_first (w ∷ ws) m = go_to (signalling w) m

unfoldable pub cond_signal : ℕ → ℕ → Machine → Option Machine
unfolding lock_held_by_current_thread go_to
cond_signal c l m = do
  held ← lock_held_by_current_thread l m
  _ ← assert held
  signal_first (m.cond_waiters c)
      (record m { cond_waiters = assign m.cond_waiters c (all_but_first (m.cond_waiters c)) })

abbrev pub is_empty : List ℕ → Bool
is_empty [] = true
is_empty (w ∷ ws) = false

abbrev pub rouse_first : List ℕ → ℕ → ℕ → ℕ → Machine → Machine
rouse_first [] c l t m = record m { pc = assign m.pc t outside }
rouse_first (w ∷ ws) c l t m = record m {
  cond_waiters = assign m.cond_waiters c ws;
  pc = assign m.pc t (rousing w c l);
}

-- The test of the loop of `cond_broadcast`, with the start of `cond_signal` if there is a waiter.
unfoldable pub broadcast_round : ℕ → ℕ → ℕ → Machine → Option Machine
unfolding lock_held_by_current_thread
broadcast_round c l t m = do
  held ← lock_held_by_current_thread l m
  _ ← assert (is_empty (m.cond_waiters c) || held)
  some (rouse_first (m.cond_waiters c) c l t m)

abbrev pub tid_lock : ℕ
tid_lock = 0

-- `page` is what `palloc_get_page` gives, or a null pointer. The new thread is in no list until
-- `thread_unblock`, and the one that runs goes on in `allocate_tid`.
unfoldable pub thread_create : Option ℕ → List ℕ → ℕ → Machine → Option Machine
thread_create none name priority m = some m
thread_create (some page) name priority m = do
  k ← init_thread page name priority m.kernel
  lock_acquire (numbers page) tid_lock (record m { kernel = k; pc = assign m.pc page outside })

-- `allocate_tid` with the lock: the identifier, and the lock given back.
unfoldable pub allocate_tid : ℕ → Machine → Option Machine
allocate_tid page m = do
  let tid = m.kernel.next_tid
  lock_release (readies page tid) tid_lock
      (record m { kernel = record m.kernel { next_tid = tid + 1 } })

-- The end of `thread_create`, for the thread `t`.
unfoldable pub add_to_queue : ℕ → ℕ → ℕ → Machine → Option Machine
add_to_queue t page tid m = do
  k ← thread_unblock page (record m.kernel { tid = assign m.kernel.tid page tid })
  some (record m { kernel = k; pc = assign m.pc t outside })

abbrev pub going_on : After → Pc
going_on returns = outside
going_on (numbers page) = numbering page
going_on (readies page tid) = readying page tid

-- The next step of the thread that runs, from where it stands; whether it gave up the processor.
unfoldable pub resume : ℕ → Pc → Machine → Option (Bool × Machine)
unfolding down_round sema_up broadcast_round allocate_tid add_to_queue
resume t outside m = none
resume t (downing s) m = down_round s outside m
resume t (acquiring l a) m = down_round (of_lock l) (acquired l a) m
resume t (acquired l a) m =
    some (false, record m { holder = assign m.holder l (some t); pc = assign m.pc t (going_on a) })
resume t (released l a) m = do
  m' ← sema_up (of_lock l) m
  some (false, record m' { pc = assign m'.pc t (going_on a) })
resume t (leaving w l) m = do
  m' ← sema_up (of_lock l) m
  some (false, record m' { pc = assign m'.pc t (waiting w l) })
resume t (waiting w l) m = down_round (of_waiter w) (acquiring l returns) m
resume t (signalling w) m = do
  m' ← sema_up (of_waiter w) m
  some (false, record m' { pc = assign m'.pc t outside })
resume t (broadcasting c l) m = do m' ← broadcast_round c l t m; some (false, m')
resume t (rousing w c l) m = do
  m' ← sema_up (of_waiter w) m
  some (false, record m' { pc = assign m'.pc t (broadcasting c l) })
resume t (numbering page) m = do m' ← allocate_tid page m; some (false, m')
resume t (readying page tid) m = do m' ← add_to_queue t page tid m; some (false, m')
resume t idling m = do k ← thread_block m.kernel; some (true, record m { kernel = k })
