-- ===== src/Synch/Invariant.antt =====
-- Where each thread stands: the run list holds the ready threads and the lists of the semaphores the
-- blocked ones, each thread once in all, as the one `elem` of `struct thread` demands.
use cs162_group.Prelude.{ℕ, ◌≤◌, ◌<◌, ◌≡◌, ◌≢◌, true, Option, none, some, ◌⊎◌, List, [], count}
use cs162_group.Threads.{Kernel, running, ready, blocked, dying}
use cs162_group.Synch.{
  After, returns, numbers, readies, numbering, readying, Sema, plain, of_lock, of_waiter, Machine,
  Pc, outside, downing, acquiring, acquired, released, leaving, waiting, signalling, broadcasting,
  rousing, idling,
}

-- The semaphore whose loop a thread is in.
abbrev pub sleeps : Pc → Option Sema
sleeps outside = none
sleeps (downing s) = some s
sleeps (acquiring l a) = some (of_lock l)
sleeps (acquired l a) = none
sleeps (released l a) = none
sleeps (leaving w l) = none
sleeps (waiting w l) = some (of_waiter w)
sleeps (signalling w) = none
sleeps (broadcasting c l) = none
sleeps (rousing w c l) = none
sleeps (numbering page) = none
sleeps (readying page tid) = none
sleeps idling = none

-- A waiter that a thread is about to sleep on is in use.
abbrev pub Known : ℕ → Pc → Type 0
Known next outside = Unit
Known next (downing (plain s)) = Unit
Known next (downing (of_lock s)) = Unit
Known next (downing (of_waiter w)) = w < next
Known next (acquiring l a) = Unit
Known next (acquired l a) = Unit
Known next (released l a) = Unit
Known next (leaving w l) = w < next
Known next (waiting w l) = w < next
Known next (signalling w) = Unit
Known next (broadcasting c l) = Unit
Known next (rousing w c l) = Unit
Known next (numbering page) = Unit
Known next (readying page tid) = Unit
Known next idling = Unit

abbrev pub page_of : After → Option ℕ
page_of returns = none
page_of (numbers page) = some page
page_of (readies page tid) = some page

-- The page of a thread that is being created from here.
abbrev pub makes : Pc → Option ℕ
makes outside = none
makes (downing s) = none
makes (acquiring l a) = page_of a
makes (acquired l a) = page_of a
makes (released l a) = page_of a
makes (leaving w l) = none
makes (waiting w l) = none
makes (signalling w) = none
makes (broadcasting c l) = none
makes (rousing w c l) = none
makes (numbering page) = some page
makes (readying page tid) = some page
makes idling = none

pub record Lists (k : Kernel) (waiters : Sema → List ℕ) (next : ℕ) (pc : ℕ → Pc) : Type 0 where
  pub queued : (t : ℕ) → 0 < count t k.ready_list → (k.status t ≡ ready) × (k.magic t ≡ true)
  pub once : (t : ℕ) → count t k.ready_list ≤ 1
  pub asleep :
      (s : Sema) (t : ℕ)
      → 0 < count t (waiters s)
      → (k.status t ≡ blocked) × (k.magic t ≡ true) × (sleeps (pc t) ≡ some s)
  pub wait_once : (s : Sema) (t : ℕ) → count t (waiters s) ≤ 1
  pub idle_thread :
      (i : ℕ)
      → k.idle_thread ≡ some i
      → (pc i ≡ idling) × (k.magic i ≡ true) × (count i k.ready_list ≡ 0) × (k.status i ≢ dying)
  pub idle_only : (t : ℕ) → pc t ≡ idling → k.idle_thread ≡ some t
  -- No thread that can run or sleeps is lost, but for the idle thread and threads that are being created.
  pub in_ready :
      (t : ℕ)
      → k.magic t ≡ true
      → k.status t ≡ ready
      → (count t k.ready_list ≡ 1) ⊎ (k.idle_thread ≡ some t)
  pub in_wait :
      (t : ℕ)
      → k.magic t ≡ true
      → k.status t ≡ blocked
      → ((s : Sema) × (sleeps (pc t) ≡ some s) × (count t (waiters s) ≡ 1))
        ⊎ ((k.idle_thread ≡ some t) ⊎ ((u : ℕ) × (makes (pc u) ≡ some t)))
  -- A thread that is being created is blocked and has not run, and the one that creates it lives.
  pub born :
      (u t : ℕ)
      → makes (pc u) ≡ some t
      → (k.magic u ≡ true)
        × (k.status u ≢ dying)
        × (k.magic t ≡ true)
        × (k.status t ≡ blocked)
        × (pc t ≡ outside)
  pub by_one : (u v t : ℕ) → makes (pc u) ≡ some t → makes (pc v) ≡ some t → u ≡ v
  pub unused : (w : ℕ) → next ≤ w → waiters (of_waiter w) ≡ []
  pub known : (t : ℕ) → Known next (pc t)

-- The thread that runs is the only one that does.
pub record Sane (k : Kernel) (waiters : Sema → List ℕ) (next : ℕ) (pc : ℕ → Pc) : Type 0 where
  pub alive : k.magic k.current ≡ true
  pub runs : k.status k.current ≡ running
  pub only : (t : ℕ) → k.status t ≡ running → t ≡ k.current
  pub lists : Lists k waiters next pc

abbrev pub IsSane : Machine → Type 0
IsSane m = Sane m.kernel m.waiters m.next_waiter m.pc
