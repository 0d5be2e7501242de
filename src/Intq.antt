-- ===== src/Intq.antt =====
-- devices/intq.c: the circular queue of bytes between interrupt handlers and threads. Interrupts are
-- off in every call, so that each function below is one step; a thread that has to wait leaves the
-- step, acquires the lock of the queue, which may take other threads' steps, and then waits. Threads
-- are numbers. `none` is a failed ASSERT.
pub mod Queue
mod Tests
use projectmod.Base.{
  ℕ, ◌+◌, ◌%◌, Bool, true, false, not, Option, none, some, ◌==◌, if◌then◌else◌, ◌>>=◌, ◌>>◌, assert,
}

abbrev pub intq_bufsize : ℕ
intq_bufsize = 64

-- `struct intq` without its lock; a null pointer to a waiting thread is `none`.
pub record Intq : Type 0 where
  pub not_full : Option ℕ
  pub not_empty : Option ℕ
  pub buf : ℕ → ℕ
  pub head : ℕ
  pub tail : ℕ

-- `intq_init`, which leaves the buffer as it is.
unfoldable pub init : (ℕ → ℕ) → Intq
init buf = record { not_full = none; not_empty = none; buf = buf; head = 0; tail = 0 }

abbrev pub next : ℕ → ℕ
next pos = (pos + 1) % intq_bufsize

unfoldable pub empty : Intq → Bool
empty q = q.head == q.tail

unfoldable pub full : Intq → Bool
full q = next q.head == q.tail

-- `wait` by thread `t` on either condition.
unfoldable pub wait_not_empty : ℕ → Intq → Option Intq
wait_not_empty t q = do assert (empty q); some (record q { not_empty = some t })

unfoldable pub wait_not_full : ℕ → Intq → Option Intq
wait_not_full t q = do assert (full q); some (record q { not_full = some t })

-- `signal` of either condition, with the thread that it unblocks.
unfoldable pub signal_not_empty : Intq → Option (Option ℕ × Intq)
signal_not_empty q = do assert (not (empty q)); some (q.not_empty, record q { not_empty = none })

unfoldable pub signal_not_full : Intq → Option (Option ℕ × Intq)
signal_not_full q = do assert (not (full q)); some (q.not_full, record q { not_full = none })

-- A round of `intq_getc`: the inner option is `none` if the queue is empty and the thread goes to
-- wait, and else the byte, the thread that is unblocked and the queue.
unfoldable pub getc_round : Intq → Option (Option (ℕ × Option ℕ × Intq))
getc_round q =
    if empty q
    then some none
    else (signal_not_full (record q { tail = next q.tail }) >>= λ (woken, q').
        some (some (q.buf q.tail, woken, q')))

-- A round of `intq_putc`: likewise, without a byte.
unfoldable pub putc_round : ℕ → Intq → Option (Option (Option ℕ × Intq))
putc_round byte q =
    if full q
    then some none
    else (signal_not_empty
          (record q { buf = λ i. if i == q.head then byte else q.buf i; head = next q.head })
        >>= λ (woken, q'). some (some (woken, q')))
