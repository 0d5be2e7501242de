-- ===== src/Scheduler/Switch.antt =====
-- The calls that give up or hand on the processor keep the invariant, and what each does.
use projectmod.Base.{
  ℕ, ◌≡◌, refl, ◌≢◌, true, false, some, [], ◌∷◌, ◌++◌, arith, if◌then◌else◌, ◌==◌,
}
use projectmod.Scheduler.{
  Status, ready, blocked, dying, is_running, is_ready, is_dying, Sched, set_status, queue_current,
  block, unblock, yield, exit,
}
use projectmod.Scheduler.Invariant.{
  occurs-append, IsValid, IsSwitching, Switched, Switched-IsValid, schedule_lem,
}

-- The state in which the current thread has given up the processor, its new status being `v`.
abbrev pub stopped_as : Status → Sched → Sched
stopped_as v s = set_status s.current v s

-- The state in which `yield` switches.
abbrev pub queued_up : Sched → Sched
queued_up s = set_status s.current ready (record s { ready_list = queue_current s })

module _ {s : Sched} (valid : IsValid s) where
  stopped_IsSwitching :
      (v : Status)
      → is_running v ≡ false
      → is_ready v ≡ false
      → ((s.current ≡ s.idle_thread) → is_dying v ≡ false)
      → IsSwitching (stopped_as v s)
  stopped_IsSwitching v not_run not_ready stays = record {
    queued = record {
      queue = λ t. ground (arith, valid.queued.queue t, valid.run, not_ready);
      alive = λ t r. valid.queued.alive t (ground (arith, not_ready, r));
      idle_alive = valid.queued.idle_alive;
      idle_stays = ground (arith, valid.queued.idle_stays, stays);
    };
    stopped = λ t. ground (arith, valid.only t, not_run);
  }

  queued_up-IsSwitching : IsSwitching (queued_up s)
  queued_up-IsSwitching = record {
    queued = record {
      queue = λ t. ground (
        arith,
        valid.queued.queue t,
        valid.run,
        valid.only t,
        occurs-append t s.ready_list (s.current ∷ []),
      );
      alive = λ t r. ground (arith, valid.queued.alive t, valid.current_alive, r);
      idle_alive = valid.queued.idle_alive;
      idle_stays = ground (arith, valid.queued.idle_stays);
    };
    stopped = λ t. ground (arith, valid.only t);
  }

  -- From a state that meets the invariant, `thread_block` switches and does not fail, to the first
  -- ready thread or the idle one, with the current thread blocked and its page kept; the invariant
  -- holds again.
  pub block_lem :
      (s' : Sched) × (block s ≡ some s') × Switched (stopped_as blocked s) s' × IsValid s'
  unfolding block
  block_lem =
      let sw = stopped_IsSwitching blocked refl refl (λ e. refl) in
      let (s', ok, did) = schedule_lem sw in
      (s', rw (valid.current_alive, valid.run) ok, did, Switched-IsValid sw did)

  -- The end of `thread_exit`, by a thread other than the idle one in a state that meets the
  -- invariant, switches to the first ready thread or the idle one and frees the dying thread, unless
  -- it is the initial one; the invariant holds again.
  pub exit_lem :
      s.current ≢ s.idle_thread
      → (s' : Sched) × (exit s ≡ some s') × Switched (stopped_as dying s) s' × IsValid s'
  unfolding exit
  exit_lem ne =
      let sw = stopped_IsSwitching dying refl refl (λ e. absurd (ne e)) in
      let (s', ok, did) = schedule_lem sw in
      (s', rw (valid.current_alive, valid.run) ok, did, Switched-IsValid sw did)

  -- From a state that meets the invariant, `thread_yield` puts the current thread, if it is not the
  -- idle one, at the end of the ready queue, and switches to the first thread of that queue, or to
  -- the idle one if it is empty; the invariant holds again.
  pub yield_lem : (s' : Sched) × (yield s ≡ some s') × Switched (queued_up s) s' × IsValid s'
  unfolding yield
  yield_lem =
      let sw = queued_up-IsSwitching in
      let (s', ok, did) = schedule_lem sw in
      (s', rw (valid.current_alive, valid.run) ok, did, Switched-IsValid sw did)

  -- In a state that meets the invariant, unblocking a blocked thread that is not freed, other than
  -- the idle one, returns, makes it ready at the end of the
  -- queue, and keeps the invariant.
  pub unblock_lem :
      (t : ℕ)
      → s.is_thread t ≡ true
      → s.status t ≡ blocked
      → t ≢ s.idle_thread
      → (s' : Sched) × (unblock t s ≡ some s')
        × (s'.ready_list ≡ s.ready_list ++ t ∷ [])
        × (s'.current ≡ s.current)
        × ((u : ℕ) → s'.status u ≡ (if u == t then ready else s.status u))
        × IsValid s'
  unfolding unblock
  unblock_lem t live b ne = (
    set_status t ready (record s { ready_list = s.ready_list ++ t ∷ [] }),
    rw (live, b),
    refl,
    refl,
    λ u. refl,
    record {
      queued = record {
        queue = λ u. ground (arith, valid.queued.queue u, occurs-append u s.ready_list (t ∷ []), b);
        alive = λ u r. ground (arith, valid.queued.alive u, live, r);
        idle_alive = valid.queued.idle_alive;
        idle_stays = ground (arith, valid.queued.idle_stays);
      };
      run = ground (arith, valid.run, b);
      only = λ u r. ground (arith, valid.only u, r);
      current_alive = valid.current_alive;
    },
  )
