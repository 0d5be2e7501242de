-- ===== src/Scheduler.antt =====
-- threads/thread.c: the ready queue and the switch from one thread to the next. Threads are numbers.
-- A switch is one step, since interrupts are off around it; what a thread does between its calls is
-- not modelled. `none` is a failed ASSERT.
pub mod Invariant
pub mod Switch
pub mod Rounds
mod Tests
use projectmod.Base.{
  ℕ, zero, suc, ◌+◌, ◌%◌, ◌^◌, Bool, true, false, not, ◌&&◌, Option, none, some, List, [], ◌∷◌,
  ◌++◌, ◌==◌, leb, if◌then◌else◌, ◌>>=◌, ◌>>◌, assert,
}

-- `enum thread_status`
pub data Status : Type 0 where
  running ready blocked dying : Status

abbrev pub is_running : Status → Bool
is_running running = true
is_running _ = false

abbrev pub is_ready : Status → Bool
is_ready ready = true
is_ready _ = false

abbrev pub is_blocked : Status → Bool
is_blocked blocked = true
is_blocked _ = false

abbrev pub is_dying : Status → Bool
is_dying dying = true
is_dying _ = false

-- The static data of thread.c, with the status of each thread. `is_thread` is the test of the magic
-- number, which fails once the page of a thread is freed.
pub record Sched : Type 0 where
  pub current : ℕ
  pub idle_thread : ℕ
  pub initial_thread : ℕ
  pub ready_list : List ℕ
  pub status : ℕ → Status
  pub is_thread : ℕ → Bool
  pub thread_ticks : ℕ

-- One entry of a table replaced.
abbrev pub update : {A : Type 0} → (ℕ → A) → ℕ → A → ℕ → A
update f t v u = if u == t then v else f u

abbrev pub time_slice : ℕ
time_slice = 4

abbrev pub set_status : ℕ → Status → Sched → Sched
set_status t v s = record s { status = update s.status t v }

-- The choice of the next thread, by the ready queue.
unfoldable pub next_thread : List ℕ → ℕ → ℕ × List ℕ
next_thread [] idle = (idle, [])
next_thread (t ∷ rest) idle = (t, rest)

-- `thread_schedule_tail`, run by `cur` after the switch from `prev`; `prev` is null if the thread
-- goes on.
unfoldable pub schedule_tail : Option ℕ → ℕ → Sched → Option Sched
schedule_tail prev cur s =
    let s' : Sched = record s { status = update s.status cur running; thread_ticks = 0 } in
    elim prev [
      | none ↦ some s'
      | some p ↦
          if is_dying (s'.status p) && not (p == s.initial_thread)
          then (assert (not (p == cur))
              >> some (record s' { is_thread = update s.is_thread p false }))
          else some s'
    ]

unfoldable pub schedule : Sched → Option Sched
unfolding next_thread schedule_tail
schedule s =
    let cur = s.current in
    let (next, rest) = next_thread s.ready_list s.idle_thread in
    assert (not (is_running (s.status cur)))
    >> assert (s.is_thread next)
    >> schedule_tail (if cur == next then none else some cur) next
        (record s { current = next; ready_list = rest })

-- `thread_current` and its sanity checks
abbrev pub check_current : Sched → Option (Unit {0})
check_current s = assert (s.is_thread s.current && is_running (s.status s.current))

unfoldable pub block : Sched → Option Sched
block s = check_current s >> schedule (set_status s.current blocked s)

unfoldable pub unblock : ℕ → Sched → Option Sched
unblock t s =
    assert (s.is_thread t && is_blocked (s.status t))
    >> some (set_status t ready (record s { ready_list = s.ready_list ++ t ∷ [] }))

-- `if (cur != idle_thread) list_push_back (&ready_list, &cur->elem)`
abbrev pub queue_current : Sched → List ℕ
queue_current s =
    if s.current == s.idle_thread then s.ready_list else s.ready_list ++ s.current ∷ []

unfoldable pub yield : Sched → Option Sched
yield s =
    check_current s
    >> schedule (set_status s.current ready (record s { ready_list = queue_current s }))

-- The end of `thread_exit`, after the files and the process are gone.
unfoldable pub exit : Sched → Option Sched
exit s = check_current s >> schedule (set_status s.current dying s)

-- The time slice part of `thread_tick`, with the call of `intr_yield_on_return` as a flag.
unfoldable pub tick : Sched → Bool × Sched
tick s = (
  leb time_slice ((s.thread_ticks + 1) % 2 ^ 32),
  record s { thread_ticks = (s.thread_ticks + 1) % 2 ^ 32 },
)
