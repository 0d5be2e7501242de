-- ===== src/Sleep/Tests.antt =====
-- threads/thread.c: two sleeping threads.
use projectmod.Base.{zero, suc, List, [], ◌∷◌, arith}
use projectmod.Sleep.{Sleeper}
use projectmod.Sleep.Order.{IsSorted}

abbrev two : List Sleeper
two = record { wakeup_time = 10; thread = 1 } ∷ record { wakeup_time = 20; thread = 2 } ∷ []

two-IsSorted : IsSorted two
two-IsSorted zero zero h p = omega arith
two-IsSorted zero (suc zero) h p = omega arith
two-IsSorted (suc zero) (suc zero) h p = omega arith
two-IsSorted i (suc (suc j)) h p = absurd (omega arith)
two-IsSorted (suc i) zero h p = absurd (omega arith)
two-IsSorted (suc (suc i)) (suc zero) h p = absurd (omega arith)
