-- ===== src/Scheduler/Invariant.antt =====
-- What holds of the scheduler whenever a thread runs with interrupts on.
use projectmod.Base.{
  ℕ, ◌+◌, ◌≡◌, refl, ◌⊎◌, inl, inr, true, false, not, ◌&&◌, some, List, [], ◌∷◌, ◌++◌, arith,
  Bool-cases, if◌then◌else◌, ◌==◌, ◌∙◌,
}
use projectmod.Scheduler.{
  Status, running, is_running, is_ready, is_dying, Sched, update, next_thread, schedule,
}

-- How often `t` stands in a list.
abbrev pub occurs : ℕ → List ℕ → ℕ
occurs t [] = 0
occurs t (u ∷ us) = (if u == t then 1 else 0) + occurs t us

pub occurs-append : (t : ℕ) (us vs : List ℕ) → occurs t (us ++ vs) ≡ occurs t us + occurs t vs
occurs-append t [] vs = omega arith
occurs-append t (u ∷ us) vs = omega (arith, occurs-append t us vs)

-- The ready queue holds each ready thread once, but for the idle thread, and no other thread; the
-- ready threads and the idle thread have not been freed, and the idle thread does not exit.
pub record IsQueued (s : Sched) : Type 0 where
  pub queue :
      (t : ℕ)
      → occurs t s.ready_list ≡ (if is_ready (s.status t) && not (t == s.idle_thread) then 1 else 0)
  pub alive : (t : ℕ) → is_ready (s.status t) ≡ true → s.is_thread t ≡ true
  pub idle_alive : s.is_thread s.idle_thread ≡ true
  pub idle_stays : is_dying (s.status s.idle_thread) ≡ false

-- Besides, exactly one thread is running, and it is the current one.
pub record IsValid (s : Sched) : Type 0 where
  pub queued : IsQueued s
  pub run : is_running (s.status s.current) ≡ true
  pub only : (t : ℕ) → is_running (s.status t) ≡ true → t ≡ s.current
  pub current_alive : s.is_thread s.current ≡ true

-- What a switch needs: no thread is running.
pub record IsSwitching (s : Sched) : Type 0 where
  pub queued : IsQueued s
  pub stopped : (t : ℕ) → is_running (s.status t) ≡ false

-- The thread that a switch turns to.
abbrev pub next_of : Sched → ℕ
next_of s = (next_thread s.ready_list s.idle_thread).0

abbrev pub rest_of : Sched → List ℕ
rest_of s = (next_thread s.ready_list s.idle_thread).1

-- What a switch does: the head of the ready queue, or the idle thread if it is empty, becomes the
-- one running thread and leaves the queue; a dying thread is freed, unless it is the initial one.
pub record Switched (s s' : Sched) : Type 0 where
  pub current : s'.current ≡ next_of s
  pub ready_list : s'.ready_list ≡ rest_of s
  pub status : (t : ℕ) → s'.status t ≡ (if t == next_of s then running else s.status t)
  pub idle : s'.idle_thread ≡ s.idle_thread
  pub initial : s'.initial_thread ≡ s.initial_thread
  pub freed :
      (t : ℕ)
      → s'.is_thread t ≡ (
          if (t == s.current) && is_dying (s.status t) && not (t == s.initial_thread)
          then false
          else s.is_thread t)

-- The queue of the ready threads.
abbrev pub IsReadyQueue : List ℕ → ℕ → (ℕ → Status) → Type 0
IsReadyQueue queue idle status =
    (t : ℕ) → occurs t queue ≡ (if is_ready (status t) && not (t == idle) then 1 else 0)

-- The thread chosen from it is ready or the idle thread.
chosen_ready :
    (queue : List ℕ) (idle : ℕ) (status : ℕ → Status)
    → IsReadyQueue queue idle status
    → ((next_thread queue idle).0 ≡ idle) ⊎ (is_ready (status (next_thread queue idle).0) ≡ true)
unfolding next_thread
chosen_ready [] idle status h = inl refl
chosen_ready (x ∷ r) idle status h = inr (ground (arith, h x))

-- The rest holds every other ready thread.
rest_queue :
    (queue : List ℕ) (idle : ℕ) (status : ℕ → Status)
    → IsReadyQueue queue idle status
    → (t : ℕ)
    → occurs t (next_thread queue idle).1 ≡ (
        if is_ready (status t) && not (t == idle) && not (t == (next_thread queue idle).0)
        then 1
        else 0)
unfolding next_thread
rest_queue [] idle status h t = ground (arith, h t)
rest_queue (x ∷ r) idle status h t = ground (arith, h t, h x)

module _ {s : Sched} (sw : IsSwitching s) where
  next_fine : (s.is_thread (next_of s) ≡ true) × (is_dying (s.status (next_of s)) ≡ false)
  next_fine = elim (chosen_ready s.ready_list s.idle_thread s.status sw.queued.queue) [
    | inl idle ↦ rw idle (sw.queued.idle_alive, sw.queued.idle_stays)
    | inr r ↦ (sw.queued.alive (next_of s) r, ground arith)
  ]

  -- Only a thread that is dying when the switch is made is freed.
  still_alive :
      {s' : Sched} (t : ℕ)
      → Switched s s'
      → is_dying (s.status t) ≡ false
      → s.is_thread t ≡ true
      → s'.is_thread t ≡ true
  still_alive t did d a = rw (did.freed t) (ground (arith, d, a))

  was_ready :
      {s' : Sched} (t : ℕ)
      → Switched s s'
      → is_ready (s'.status t) ≡ true
      → is_ready (s.status t) ≡ true
  was_ready t did r = ground (arith, did.status t, r)

  Switched-IsQueued : {s' : Sched} → Switched s s' → IsQueued s'
  Switched-IsQueued {s'} did = record {
    queue = λ t.
        rw (did.ready_list, did.status t, did.idle)
          (rest_queue s.ready_list s.idle_thread s.status sw.queued.queue t ∙ ground arith);
    alive = λ t r.
        let r' = was_ready {s' = s'} t did r in
        still_alive {s' = s'} t did (ground (arith, r')) (sw.queued.alive t r');
    idle_alive =
        rw did.idle
          (still_alive {s' = s'} s.idle_thread did sw.queued.idle_stays sw.queued.idle_alive);
    idle_stays =
        let e = did.status s.idle_thread in rw did.idle (ground (arith, e, sw.queued.idle_stays));
  }

  -- The invariant holds after a switch.
  pub Switched-IsValid : {s' : Sched} → Switched s s' → IsValid s'
  Switched-IsValid {s'} did = record {
    queued = Switched-IsQueued did;
    run = rw (did.current, did.status (next_of s)) (ground arith);
    only = λ t r. ground (arith, did.status t, did.current, sw.stopped t, r);
    current_alive = rw did.current (still_alive {s' = s'} (next_of s) did next_fine.1 next_fine.0);
  }

  abbrev after_switch : Sched
  after_switch = record s {
    current = next_of s;
    ready_list = rest_of s;
    status = update s.status (next_of s) running;
    thread_ticks = 0;
  }

  abbrev after_free : Sched
  after_free = record after_switch { is_thread = update s.is_thread s.current false }

  -- A switch that frees no thread, and one that frees the thread that it leaves.
  kept-Switched :
      (if s.current == next_of s
          then false
          else is_dying (s.status s.current) && not (s.current == s.initial_thread))
        ≡ false
      → Switched s after_switch
  kept-Switched kept = record {
    current = refl;
    ready_list = refl;
    status = λ t. refl;
    idle = refl;
    initial = refl;
    freed = λ t. ground (arith, next_fine, kept);
  }

  freed-Switched :
      (is_dying (s.status s.current) && not (s.current == s.initial_thread)) ≡ true
      → Switched s after_free
  freed-Switched dead = record {
    current = refl;
    ready_list = refl;
    status = λ t. refl;
    idle = refl;
    initial = refl;
    freed = λ t. ground (arith, dead);
  }

  -- A switch from such a state returns.
  pub schedule_lem : (s' : Sched) × (schedule s ≡ some s') × Switched s s'
  unfolding schedule
  schedule_lem =
      let stop = sw.stopped s.current in
      elim (Bool-cases (s.current == next_of s)) [
        | inl stays ↦
            rw (stop, next_fine.0, stays) (after_switch, refl, kept-Switched (rw stays refl))
        | inr leaves ↦
            elim (Bool-cases
              (is_dying (s.status s.current) && not (s.current == s.initial_thread))) [
                | inl dead ↦
                    rw (stop, next_fine.0, leaves)
                      (after_free, ground (arith, leaves, dead), freed-Switched dead)
                | inr lives ↦
                    rw (stop, next_fine.0, leaves)
                      (
                        after_switch,
                        ground (arith, leaves, lives),
                        kept-Switched (rw (leaves, lives) refl),
                      )
              ]
      ]
