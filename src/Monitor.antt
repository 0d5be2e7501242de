-- ===== src/Monitor.antt =====
-- threads/synch.c: condition variables. Each waiter has a semaphore of its own on its stack, so that
-- it goes by the number of its thread. The functions run with the lock held, each as one step up to
-- the call that may block. `none` is a failed ASSERT.
pub mod Broadcast
mod Tests
use projectmod.Base.{
  ℕ, zero, suc, Bool, true, false, Option, none, some, List, [], ◌∷◌, ◌++◌, ◌==◌, if◌then◌else◌,
  ◌>>=◌, ◌>>◌, assert, length,
}
use projectmod.Sync.{Semaphore, sema_init, sema_up, Lock, lock_held_by, lock_release_clear}

-- `struct condition`, the semaphores of its `struct semaphore_elem`, and the lock.
pub record Monitor : Type 0 where
  pub waiters : List ℕ
  pub semaphore : ℕ → Semaphore
  pub lock : Lock

abbrev pub replace : (ℕ → Semaphore) → ℕ → Semaphore → ℕ → Semaphore
replace f t sema u = if u == t then sema else f u

-- `cond_init`; the semaphores are not in use.
unfoldable pub cond_init : (ℕ → Semaphore) → Lock → Monitor
cond_init semaphore lock = record { waiters = []; semaphore = semaphore; lock = lock }

-- `lock_release`, with the thread that it unblocks.
unfoldable pub lock_release : ℕ → Lock → Option (Option ℕ × Lock)
lock_release t lock = do
  lock' ← lock_release_clear t lock
  let (woken, sema) = sema_up lock'.semaphore
  some (woken, record lock' { semaphore = sema })

-- `cond_wait` by thread `t` up to its `sema_down`, with the thread that is unblocked.
unfoldable pub cond_wait : ℕ → Monitor → Option (Option ℕ × Monitor)
cond_wait t m = do
  assert (lock_held_by t m.lock)
  (woken, lock) ← lock_release t m.lock
  some (
    woken,
    record {
      waiters = m.waiters ++ t ∷ [];
      semaphore = replace m.semaphore t (sema_init 0);
      lock = lock;
    },
  )

-- `sema_up` on the semaphore of the first waiter.
unfoldable pub signal_first : List ℕ → Monitor → Option ℕ × Monitor
signal_first [] m = (none, m)
signal_first (w ∷ rest) m =
    let (woken, sema) = sema_up (m.semaphore w) in
    (woken, record m { waiters = rest; semaphore = replace m.semaphore w sema })

unfoldable pub cond_signal : ℕ → Monitor → Option (Option ℕ × Monitor)
cond_signal t m = assert (lock_held_by t m.lock) >> some (signal_first m.waiters m)

-- `list_empty`
abbrev pub list_empty : List ℕ → Bool
list_empty [] = true
list_empty (w ∷ rest) = false

-- The loop of `cond_broadcast`, with `n` rounds at most.
unfoldable pub broadcast_loop : ℕ → ℕ → Monitor → Option Monitor
broadcast_loop zero t m = some m
broadcast_loop (suc n) t m = elim (list_empty m.waiters) [
  | true ↦ some m
  | false ↦ cond_signal t m >>= λ (woken, m'). broadcast_loop n t m'
]

unfoldable pub cond_broadcast : ℕ → Monitor → Option Monitor
cond_broadcast t m = broadcast_loop (length m.waiters) t m
