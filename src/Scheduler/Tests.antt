-- ===== src/Scheduler/Tests.antt =====
-- threads/thread.c: a scheduler with two ready threads and a blocked one.
use projectmod.Base.{◌≡◌, refl, true, some, [], ◌∷◌, ◌==◌, if◌then◌else◌, arith}
use projectmod.Scheduler.{running, ready, blocked, Sched}
use projectmod.Scheduler.Invariant.{IsValid}
use projectmod.Scheduler.Rounds.{yields, yields_reach}

-- Thread 0 runs, threads 2 and 3 are ready, and the idle thread 1 and all others are blocked.
abbrev busy : Sched
busy = record {
  current = 0;
  idle_thread = 1;
  initial_thread = 0;
  ready_list = 2 ∷ 3 ∷ [];
  status =
      λ t. if t == 0 then running else if t == 2 then ready else if t == 3 then ready else blocked;
  is_thread = λ t. true;
  thread_ticks = 0;
}

busy-IsValid : IsValid busy
busy-IsValid = record {
  queued = record {
    queue = λ t. ground arith;
    alive = λ t r. refl;
    idle_alive = refl;
    idle_stays = refl;
  };
  run = refl;
  only = λ t r. ground (arith, r);
  current_alive = refl;
}

yields_reach_example : (s' : Sched) × (yields 2 busy ≡ some s') × (s'.current ≡ 3) × IsValid s'
yields_reach_example = yields_reach 1 3 busy-IsValid refl
