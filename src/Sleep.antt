-- ===== src/Sleep.antt =====
-- threads/thread.c: the threads that sleep, in `sleeping_list`, and the timer tick that wakes them. A
-- sleeping thread waits on a semaphore of its own, so that `sema_up` on it wakes that thread. Times
-- are numbers of ticks, which are not negative.
pub mod Order
mod Tests
use projectmod.Base.{
  ℕ, zero, suc, ◌+◌, ◌-◌, ◌%◌, ◌^◌, Bool, true, false, List, [], ◌∷◌, ltb, leb, if◌then◌else◌,
  get_or, length,
}

-- `struct thread_sleep_schedule`, with the thread that waits on its semaphore.
pub record Sleeper : Type 0 where
  pub wakeup_time : ℕ
  pub thread : ℕ

-- The wake-up time of the element at an index.
abbrev pub time_at : List Sleeper → ℕ → ℕ
time_at list i =
    let found : Sleeper = get_or list i (record { wakeup_time = 0; thread = 0 }) in
    found.wakeup_time

-- The loop of `thread_sleep`: from the element before index `k` back to the head of the list; the
-- index at which the new element goes.
unfoldable pub position : List Sleeper → ℕ → ℕ → ℕ
position list until zero = 0
position list until (suc k) =
    let further = position list until k in if leb (time_at list k) until then suc k else further

-- `list_insert` before the element at an index.
unfoldable pub list_insert : ℕ → Sleeper → List Sleeper → List Sleeper
list_insert zero s list = s ∷ list
list_insert (suc k) s [] = s ∷ []
list_insert (suc k) s (x ∷ list) = x ∷ list_insert k s list

-- `thread_sleep` by thread `t`, up to its `sema_down`, which blocks.
unfoldable pub thread_sleep : ℕ → ℕ → List Sleeper → List Sleeper
thread_sleep t until list =
    list_insert (position list until (length list)) (record { wakeup_time = until; thread = t })
      list

-- The loop of `thread_tick`: those that are woken, in order, and the list that is left.
unfoldable pub wake_loop : ℕ → List Sleeper → List Sleeper × List Sleeper
wake_loop now [] = ([], [])
wake_loop now (s ∷ rest) =
    let (woken, left) = wake_loop now rest in
    if ltb s.wakeup_time now then (s ∷ woken, left) else ([], s ∷ rest)
