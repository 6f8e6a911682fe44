-- ===== src/Synch/Tests.antt =====
-- A run in which a thread creates another and is preempted.
use cs162_group.Prelude.{ℕ, ◌≡◌, refl, true, false, none, some, inl, [], ◌∷◌, arith}
use cs162_group.Threads.{
  Kernel, ready, blocked, running, assign, init_thread, thread_unblock, thread_yield,
  thread_current, schedule, next_thread_to_run, thread_schedule_tail,
}
use cs162_group.Synch.{
  Sema, of_lock, assign_sema, Machine, numbers, readies, outside, acquiring, acquired, released,
  numbering, readying, lock_acquire, lock_release, lock_held_by_current_thread, go_to, resume,
  down_round, sema_up, thread_create, allocate_tid, add_to_queue,
}
use cs162_group.Synch.System.{Step, resumes, preempted, creates, Reach, start, later, boot}
use cs162_group.Synch.Invariant.{IsSane}
use cs162_group.Synch.Creates
use cs162_group.Synch.Joins.{queued_up}
use cs162_group.Synch.Steps.{Reach-IsSane}
use cs162_group.Synch.Safety.{Owns, lock-Owns}
use cs162_group.Synch.Fair.{stop, switches, Runs, ready-Runs}
use cs162_group.Synch.Progress.{Reach-thread_yield}

abbrev one : Sema → ℕ
one s = 1

-- A second thread starts in page 2, with the lock for the identifiers taken and given back.
abbrev begun : Machine
begun = record (boot one) {
  kernel = Creates.begun 2 [] 31 (boot one).kernel;
  pc = assign (assign (boot one).pc 2 outside) 0 (acquiring 0 (numbers 2));
}

abbrev locked : Machine
locked = record begun {
  value = assign_sema one (of_lock 0) 0;
  pc = assign begun.pc 0 (acquired 0 (numbers 2));
}

abbrev held : Machine
held = record locked {
  holder = assign locked.holder 0 (some 0);
  pc = assign locked.pc 0 (numbering 2);
}

abbrev numbered : Machine
numbered = record held {
  kernel = record held.kernel { next_tid = 4 };
  holder = assign held.holder 0 none;
  pc = assign held.pc 0 (released 0 (readies 2 3));
}

abbrev unlocked : Machine
unlocked = record numbered {
  value = assign_sema numbered.value (of_lock 0) 1;
  waiters = assign_sema numbered.waiters (of_lock 0) [];
  pc = assign numbered.pc 0 (readying 2 3);
}

abbrev created : Machine
created = record unlocked {
  kernel = queued_up 2 3 unlocked.kernel;
  pc = assign unlocked.pc 0 outside;
}

-- The first thread is preempted.
abbrev turned_kernel : Kernel
turned_kernel = record created.kernel {
  current = 2;
  status = assign (assign created.kernel.status 0 ready) 2 running;
  ready_list = 0 ∷ [];
  thread_ticks = 0;
}

begun-Step : Step (boot one) false begun
unfolding thread_create init_thread lock_acquire lock_held_by_current_thread go_to thread_current
begun-Step = creates 2 [] 31 refl refl refl

locked-Step : Step begun false locked
unfolding resume down_round thread_current
locked-Step = resumes refl

held-Step : Step locked false held
unfolding resume
held-Step = resumes refl

numbered-Step : Step held false numbered
unfolding resume allocate_tid lock_release lock_held_by_current_thread go_to thread_current
numbered-Step = resumes refl

unlocked-Step : Step numbered false unlocked
unfolding resume sema_up
unlocked-Step = resumes refl

created-Step : Step unlocked false created
unfolding resume add_to_queue thread_unblock
created-Step = resumes refl

turned-Step : Step created true (record created { kernel = turned_kernel })
unfolding thread_yield schedule next_thread_to_run thread_schedule_tail thread_current
turned-Step = preempted refl

held-Reach : Reach one held
held-Reach = later (later (later start begun-Step) locked-Step) held-Step

unlocked-Reach : Reach one unlocked
unlocked-Reach = later (later held-Reach numbered-Step) unlocked-Step

created-Reach : Reach one created
created-Reach = later unlocked-Reach created-Step

-- Before `thread_unblock` the new thread is blocked and in no list. After it, it is in the run list, with
-- its identifier, and the lock is free again.
created_test :
    (unlocked.kernel.status 2 ≡ blocked)
    × (unlocked.kernel.ready_list ≡ [])
    × (created.kernel.ready_list ≡ 2 ∷ [])
    × (created.kernel.tid 2 ≡ 3)
    × (created.value (of_lock 0) ≡ 1)
created_test = (refl, refl, refl, refl, refl)

Reach-IsSane_example : IsSane unlocked
Reach-IsSane_example = Reach-IsSane one unlocked-Reach

held-Owns : Owns 0 held 0
held-Owns = inl refl

lock-Owns_example : (◌≡◌ {A = ℕ} 0 0) × (held.value (of_lock 0) ≡ 0)
lock-Owns_example = lock-Owns one 0 refl held-Reach 0 0 held-Owns held-Owns

ready-Runs_example : Runs 2 1 created 1 (record created { kernel = turned_kernel })
ready-Runs_example =
    ready-Runs one created-Reach 2 [] [] refl (switches turned-Step stop) (omega arith)

Reach-thread_yield_example : (k : Kernel) × (thread_yield created.kernel ≡ some k)
Reach-thread_yield_example = Reach-thread_yield one created-Reach
