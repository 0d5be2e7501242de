-- ===== src/Sync.antt =====
-- threads/synch.c: semaphores and locks. Interrupts are off inside each function below, so that it is
-- one step; between them other threads may run. A function that waits is one round of its loop.
-- Threads are numbers. `none` is a failed ASSERT.
pub mod System
pub mod Turn
pub mod Exclusion
pub mod Progress
mod Tests
use projectmod.Base.{
  ℕ, zero, suc, ◌+◌, ◌-◌, ◌%◌, ◌^◌, Bool, true, false, not, Option, none, some, List, [], ◌∷◌, ◌++◌,
  ◌==◌, if◌then◌else◌, ltb, ◌>>=◌, ◌>>◌, assert,
}

-- `struct semaphore`
pub record Semaphore : Type 0 where
  pub value : ℕ
  pub waiters : List ℕ

unfoldable pub sema_init : ℕ → Semaphore
sema_init value = record { value = value; waiters = [] }

-- One round of `while (sema->value == 0)` in `sema_down`, by thread `t`: `false` if it blocks and
-- goes round again once it is unblocked, `true` if it passes and takes one from the value.
unfoldable pub sema_down_round : ℕ → Semaphore → Bool × Semaphore
sema_down_round t sema =
    if sema.value == 0
    then (false, record sema { waiters = sema.waiters ++ t ∷ [] })
    else (true, record sema { value = sema.value - 1 })

unfoldable pub sema_try_down : Semaphore → Bool × Semaphore
sema_try_down sema =
    if ltb 0 sema.value then (true, record sema { value = sema.value - 1 }) else (false, sema)

-- The front of the waiters, which `sema_up` unblocks, and the others.
unfoldable pub pop_waiter : List ℕ → Option ℕ × List ℕ
pop_waiter [] = (none, [])
pop_waiter (t ∷ rest) = (some t, rest)

-- `sema_up`, with the thread that it unblocks.
unfoldable pub sema_up : Semaphore → Option ℕ × Semaphore
unfolding pop_waiter
sema_up sema =
    let (woken, rest) = pop_waiter sema.waiters in
    (woken, record { value = (sema.value + 1) % 2 ^ 32; waiters = rest })

-- `struct lock`; a null holder is `none`.
pub record Lock : Type 0 where
  pub holder : Option ℕ
  pub semaphore : Semaphore

unfoldable pub lock_init : Lock
unfolding sema_init
lock_init = record { holder = none; semaphore = sema_init 1 }

-- `lock->holder == t`
unfoldable pub held_by : ℕ → Option ℕ → Bool
held_by t none = false
held_by t (some u) = u == t

unfoldable pub lock_held_by : ℕ → Lock → Bool
unfolding held_by
lock_held_by t lock = held_by t lock.holder

-- The ASSERT at the start of `lock_acquire`.
unfoldable pub lock_acquire_check : ℕ → Lock → Option (Unit {0})
lock_acquire_check t lock = assert (not (lock_held_by t lock))

-- Its last statement, after `sema_down`.
unfoldable pub lock_acquire_own : ℕ → Lock → Lock
lock_acquire_own t lock = record lock { holder = some t }

unfoldable pub lock_try_acquire : ℕ → Lock → Option (Bool × Lock)
lock_try_acquire t lock = do
  assert (not (lock_held_by t lock))
  let (success, sema) = sema_try_down lock.semaphore
  some (success, record { holder = if success then some t else lock.holder; semaphore = sema })

-- `lock_release` up to its call of `sema_up`.
unfoldable pub lock_release_clear : ℕ → Lock → Option Lock
lock_release_clear t lock = do assert (lock_held_by t lock); some (record lock { holder = none })
