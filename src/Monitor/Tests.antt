-- ===== src/Monitor/Tests.antt =====
-- threads/synch.c: a condition variable on which thread 5 waits and thread 1 is about to.
use projectmod.Base.{◌≡◌, refl, true, none, some, [], ◌∷◌}
use projectmod.Sync.{sema_init, sema_up, Lock, lock_held_by, lock_release_clear}
use projectmod.Monitor.{Monitor, replace, cond_wait, lock_release}

abbrev held_by_one : Lock
held_by_one = record { holder = some 1; semaphore = record { value = 0; waiters = [] } }

abbrev held_by_two : Lock
held_by_two = record { holder = some 2; semaphore = record { value = 0; waiters = [] } }

abbrev one_waiter : Monitor
one_waiter = record {
  waiters = 5 ∷ [];
  semaphore = λ u. record { value = 0; waiters = u ∷ [] };
  lock = held_by_one;
}

abbrev two_waiters : Monitor
two_waiters = record {
  waiters = 5 ∷ 1 ∷ [];
  semaphore = replace one_waiter.semaphore 1 (record { value = 0; waiters = [] });
  lock = record { holder = none; semaphore = record { value = 1; waiters = [] } };
}

held_one : lock_held_by 1 held_by_one ≡ true
unfolding lock_held_by
held_one = refl

held_two : lock_held_by 2 held_by_two ≡ true
unfolding lock_held_by
held_two = refl

one_waits : cond_wait 1 one_waiter ≡ some (none, two_waiters)
unfolding cond_wait lock_held_by lock_release lock_release_clear sema_up sema_init
one_waits = refl
