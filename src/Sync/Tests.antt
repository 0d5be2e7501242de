-- ===== src/Sync/Tests.antt =====
-- threads/synch.c: two threads at one lock.
use projectmod.Base.{◌≡◌, refl, ◌⊎◌, true, none, some, [], ◌∷◌, ℕ}
use projectmod.Sync.{
  sema_down_round, lock_init, lock_acquire_check, lock_acquire_own, lock_release_clear,
  lock_held_by,
}
use projectmod.Sync.System.{
  outside, trying, asleep, passed, inside, System, move, start, enter, wait, pass, own, Reach, here,
  next,
}
use projectmod.Sync.Turn.{is_busy, is_trying}
use projectmod.Sync.Progress.{mutual_exclusion, asserts_hold, CanStep, no_deadlock}

-- Thread 1 has acquired the lock.
abbrev held : System
held = record {
  lock = record { holder = some 1; semaphore = record { value = 0; waiters = [] } };
  phase = move 1 inside (move 1 passed (move 1 trying (λ t. outside)));
}

held-Reach : Reach held
unfolding start lock_init lock_acquire_check lock_held_by sema_down_round lock_acquire_own
held-Reach =
    let s1 : System = record { lock = lock_init; phase = move 1 trying (λ t. outside) } in
    let s2 : System = record {
      lock = record { holder = none; semaphore = record { value = 0; waiters = [] } };
      phase = move 1 passed (move 1 trying (λ t. outside));
    } in
    next (next (next here (enter start 1 refl refl)) (pass s1 1 _ refl refl)) (own s2 1 refl)

-- Besides, thread 2 waits for it.
abbrev contended : System
contended = record {
  lock = record { holder = some 1; semaphore = record { value = 0; waiters = 2 ∷ [] } };
  phase = move 2 asleep (move 2 trying held.phase);
}

contended-Reach : Reach contended
unfolding lock_acquire_check lock_held_by sema_down_round
contended-Reach =
    let s : System = record { lock = held.lock; phase = move 2 trying held.phase } in
    next (next held-Reach (enter held 2 refl refl)) (wait s 2 _ refl refl)

mutual_exclusion_example : ◌≡◌ {A = ℕ} 1 1
mutual_exclusion_example = mutual_exclusion {s = contended} 1 1 contended-Reach refl refl

asserts_hold_example :
    (contended.phase 1 ≡ outside → lock_acquire_check 1 contended.lock ≡ some tt)
    × (contended.phase 1 ≡ inside
        → lock_release_clear 1 contended.lock ≡ some (record contended.lock { holder = none }))
asserts_hold_example = asserts_hold {s = contended} 1 contended-Reach

no_deadlock_example :
    (u : ℕ) × ((is_trying (contended.phase u) ≡ true) ⊎ (is_busy (contended.phase u) ≡ true))
    × CanStep u contended
no_deadlock_example = no_deadlock {s = contended} 2 contended-Reach refl
