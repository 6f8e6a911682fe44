-- ===== src/Intq.antt =====
-- pintos/src/devices/intq.c: the queue of bytes between an interrupt handler and threads, a ring with
-- a thread that waits for each condition. `put_byte` and `get_byte` are what `intq_putc` and `intq_getc` do
-- after their loops, `wait` what the loops do under the queue's lock, which is not modelled here.
pub mod Ring
mod Tests
use cs162_group.Prelude.{
  ℕ, zero, suc, ◌+◌, ◌%◌, Bool, true, false, not, Option, none, some, List, ◌>>=◌, ◌==◌,
  if◌then◌else◌, get_or, set, replicate,
}
use cs162_group.Bitmap.{assert}
use cs162_group.Threads.{Kernel, thread_current, thread_block, thread_unblock}

abbrev pub intq_bufsize : ℕ
intq_bufsize = 64

-- `struct intq`.
pub record Intq : Type 0 where
  pub not_full : Option ℕ
  pub not_empty : Option ℕ
  pub buf : List ℕ
  pub head : ℕ
  pub tail : ℕ

-- Which of the two conditions a thread waits for.
pub data Condition : Type 0 where
  not_full_cond : Condition
  not_empty_cond : Condition

-- What the buffer holds at first is not said.
unfoldable pub intq_init : List ℕ → Intq
intq_init buf = record { not_full = none; not_empty = none; buf = buf; head = 0; tail = 0 }

unfoldable pub next : ℕ → ℕ
next pos = (pos + 1) % intq_bufsize

unfoldable pub intq_empty : Intq → Bool
intq_empty q = q.head == q.tail

unfoldable pub intq_full : Intq → Bool
unfolding next
intq_full q = next q.head == q.tail

abbrev pub waiter : Condition → Intq → Option ℕ
waiter not_full_cond q = q.not_full
waiter not_empty_cond q = q.not_empty

abbrev pub set_waiter : Condition → Option ℕ → Intq → Intq
set_waiter not_full_cond w q = record q { not_full = w }
set_waiter not_empty_cond w q = record q { not_empty = w }

-- Whether the queue is what the condition denies.
abbrev pub blocks : Condition → Intq → Bool
blocks not_full_cond q = intq_full q
blocks not_empty_cond q = intq_empty q

unfoldable pub wait : Condition → Intq → Kernel → Option (Intq × Kernel)
wait c q k = do
  _ ← assert (blocks c q)
  t ← thread_current k
  k' ← thread_block k
  some (set_waiter c (some t) q, k')

unfoldable pub signal : Condition → Intq → Kernel → Option (Intq × Kernel)
signal c q k = do
  _ ← assert (not (blocks c q))
  elim (waiter c q) [
    | none ↦ some (q, k)
    | some t ↦ (do k' ← thread_unblock t k; some (set_waiter c none q, k'))
  ]

unfoldable pub get_byte : Intq → Kernel → Option (ℕ × Intq × Kernel)
get_byte q k = do
  let byte = get_or q.buf q.tail 0
  (q', k') ← signal not_full_cond (record q { tail = next q.tail }) k
  some (byte, q', k')

unfoldable pub put_byte : ℕ → Intq → Kernel → Option (Intq × Kernel)
put_byte byte q k =
    signal not_empty_cond (record q { buf = set q.buf q.head byte; head = next q.head }) k
