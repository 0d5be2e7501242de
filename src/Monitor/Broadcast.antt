-- ===== src/Monitor/Broadcast.antt =====
-- A broadcast leaves no waiter behind, and no wake-up is lost.
use projectmod.Base.{
  ℕ, ◌+◌, ◌%◌, ◌^◌, ◌≡◌, refl, inl, inr, true, Option, some, List, [], ◌∷◌, ◌++◌, arith,
  Option-cases, length, Bool-cases,
}
use projectmod.Scheduler.Invariant.{occurs, occurs-append}
use projectmod.Sync.{Semaphore, sema_init, sema_up, sema_down_round, Lock, lock_held_by}
use projectmod.Monitor.{
  Monitor, replace, cond_wait, lock_release, signal_first, cond_signal, broadcast_loop,
  cond_broadcast,
}

-- What a broadcast does: no one waits any more, the semaphore of each waiter went up by one for
-- each time that it waited (modulo the 32 bits of a semaphore), and the lock is as it was.
pub record Woken (m m' : Monitor) : Type 0 where
  pub none_left : m'.waiters ≡ []
  pub ups :
      (u : ℕ)
      → (m'.semaphore u).value % 2 ^ 32 ≡ ((m.semaphore u).value + occurs u m.waiters) % 2 ^ 32
  pub lock : m'.lock ≡ m.lock

broadcast_loop_lem :
    (waiters : List ℕ) (t : ℕ) (semaphore : ℕ → Semaphore) (lock : Lock)
    → lock_held_by t lock ≡ true
    → let m : Monitor = record { waiters = waiters; semaphore = semaphore; lock = lock } in
      (m' : Monitor) × (broadcast_loop (length waiters) t m ≡ some m') × Woken m m'
unfolding broadcast_loop cond_signal signal_first sema_up
broadcast_loop_lem [] t semaphore lock held =
    (_, refl, record { none_left = refl; ups = λ u. omega arith; lock = refl })
broadcast_loop_lem (w ∷ rest) t semaphore lock held =
    let up = (sema_up (semaphore w)).1 in
    let (m', ok, woken) = broadcast_loop_lem rest t (replace semaphore w up) lock held in
    rw held (
      m',
      ok,
      record {
        none_left = woken.none_left;
        ups = λ u. ground (arith, woken.ups u);
        lock = woken.lock;
      },
    )

-- `cond_broadcast` by the holder of the lock returns and wakes all waiters, each once.
pub cond_broadcast_lem :
    (t : ℕ) (m : Monitor)
    → lock_held_by t m.lock ≡ true
    → (m' : Monitor) × (cond_broadcast t m ≡ some m') × Woken m m'
unfolding cond_broadcast
cond_broadcast_lem t m held = broadcast_loop_lem m.waiters t m.semaphore m.lock held

cond_wait-waiting :
    (t : ℕ) (m m1 : Monitor) (woken : Option ℕ)
    → cond_wait t m ≡ some (woken, m1)
    → (m1.waiters ≡ m.waiters ++ t ∷ []) × ((m1.semaphore t).value ≡ 0)
unfolding cond_wait sema_init
cond_wait-waiting t m m1 woken e = elim (Bool-cases (lock_held_by t m.lock)) [
  | inr other ↦ absurd (ground (arith, other, e))
  | inl held ↦ elim (Option-cases (lock_release t m.lock)) [
    | inl failed ↦ absurd (ground (arith, held, failed, e))
    | inr ((w, lock), ok) ↦
        let done = rw (held, ok) at e in (ground (arith, done), ground (arith, done))
  ]
]

-- No wake-up is lost: thread `t`, which did not wait before, waits, and gives up the lock; once
-- another thread has taken the lock and made a broadcast, `t` passes its `sema_down`, also if it did
-- not get there before the broadcast.
pub broadcast-cond_wait :
    (t u : ℕ) (m m1 : Monitor) (woken : Option ℕ) (lock : Lock)
    → occurs t m.waiters ≡ 0
    → cond_wait t m ≡ some (woken, m1)
    → lock_held_by u lock ≡ true
    → (m2 : Monitor) × (cond_broadcast u (record m1 { lock = lock }) ≡ some m2)
      × (m2.waiters ≡ [])
      × ((sema_down_round t (m2.semaphore t)).0 ≡ true)
unfolding sema_down_round
broadcast-cond_wait t u m m1 woken lock fresh e held =
    let (m2, ok, did) = cond_broadcast_lem u (record m1 { lock = lock }) held in
    let ups = did.ups t in
    let once = occurs-append t m.waiters (t ∷ []) in
    let (queued, zero_value) = cond_wait-waiting t m m1 woken e in
    (m2, ok, did.none_left, ground (arith, ups, once, fresh, zero_value, rw queued at ups))
