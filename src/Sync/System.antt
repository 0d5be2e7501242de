-- ===== src/Sync/System.antt =====
-- Threads that acquire and release one lock, in any interleaving of the steps of synch.c.
use projectmod.Base.{ℕ, ◌≡◌, true, false, Option, none, some, ◌==◌, if◌then◌else◌}
use projectmod.Sync.{
  Semaphore, sema_down_round, sema_up, Lock, lock_init, lock_acquire_check, lock_acquire_own,
  lock_release_clear,
}

-- Where a thread stands: outside the lock, about to test the value in `sema_down`, blocked in it,
-- past it but not yet the holder, the holder, or past the reset of the holder but not yet past
-- `sema_up`.
pub data Phase : Type 0 where
  outside trying asleep passed inside leaving : Phase

pub record System : Type 0 where
  pub lock : Lock
  pub phase : ℕ → Phase

abbrev pub move : ℕ → Phase → (ℕ → Phase) → ℕ → Phase
move t p phase u = if u == t then p else phase u

-- A thread that was unblocked goes round the loop of `sema_down` again.
abbrev pub wake : Option ℕ → (ℕ → Phase) → ℕ → Phase
wake none phase = phase
wake (some t) phase = move t trying phase

abbrev pub with_sema : Semaphore → Lock → Lock
with_sema sema lock = record lock { semaphore = sema }

unfoldable pub start : System
start = record { lock = lock_init; phase = λ t. outside }

-- One step of thread `t`.
pub data Step : System → System → Type 0 where
  enter :
      (s : System) (t : ℕ)
      → s.phase t ≡ outside
      → lock_acquire_check t s.lock ≡ some tt
      → Step s (record s { phase = move t trying s.phase })
  wait :
      (s : System) (t : ℕ) (sema : Semaphore)
      → s.phase t ≡ trying
      → sema_down_round t s.lock.semaphore ≡ (false, sema)
      → Step s (record { lock = with_sema sema s.lock; phase = move t asleep s.phase })
  pass :
      (s : System) (t : ℕ) (sema : Semaphore)
      → s.phase t ≡ trying
      → sema_down_round t s.lock.semaphore ≡ (true, sema)
      → Step s (record { lock = with_sema sema s.lock; phase = move t passed s.phase })
  own :
      (s : System) (t : ℕ)
      → s.phase t ≡ passed
      → Step s (record { lock = lock_acquire_own t s.lock; phase = move t inside s.phase })
  clear :
      (s : System) (t : ℕ) (lock : Lock)
      → s.phase t ≡ inside
      → lock_release_clear t s.lock ≡ some lock
      → Step s (record { lock = lock; phase = move t leaving s.phase })
  up :
      (s : System) (t : ℕ) (woken : Option ℕ) (sema : Semaphore)
      → s.phase t ≡ leaving
      → sema_up s.lock.semaphore ≡ (woken, sema)
      → Step s
          (record { lock = with_sema sema s.lock; phase = wake woken (move t outside s.phase) })

-- The thread whose step it is.
unfoldable pub actor : {s s' : System} → Step s s' → ℕ
actor (enter s t outs check) = t
actor (wait s t sema tries round) = t
actor (pass s t sema tries round) = t
actor (own s t past) = t
actor (clear s t lock holds check) = t
actor (up s t woken sema leaves round) = t

-- What the threads can reach from the state after `lock_init`.
pub data Reach : System → Type 0 where
  here : Reach start
  next : {s s' : System} → Reach s → Step s s' → Reach s'
