-- ===== src/Intq/Tests.antt =====
-- devices/intq.c: a queue whose two bytes stand round the end of the buffer.
use projectmod.Base.{ℕ, refl, Option, ◌≡◌, none, some, ◌==◌, if◌then◌else◌, arith}
use projectmod.Intq.{Intq, full, getc_round, putc_round, wait_not_full}
use projectmod.Intq.Queue.{IsValid, Put, Got, putc_lem, getc_lem, late_putc}

abbrev wrapped : Intq
wrapped = record {
  not_full = none;
  not_empty = some 7;
  buf = λ i. if i == 63 then 10 else 20;
  head = 1;
  tail = 63;
}

wrapped-IsValid : IsValid wrapped
wrapped-IsValid = record { head = omega arith; tail = omega arith }

putc_lem_example : Put 30 wrapped (putc_round 30 wrapped)
putc_lem_example = putc_lem wrapped-IsValid 30

getc_lem_example : Got wrapped (getc_round wrapped)
getc_lem_example = getc_lem wrapped-IsValid

-- No byte is there, and 63.
abbrev no_bytes : Intq
no_bytes = record { not_full = none; not_empty = none; buf = λ i. 0; head = 5; tail = 5 }

abbrev all_bytes : Intq
all_bytes = record { not_full = none; not_empty = none; buf = λ i. i; head = 4; tail = 5 }

late_putc_example :
    (b : ℕ) × (woken : Option ℕ) × (q' : Intq) × (getc_round all_bytes ≡ some (some (b, woken, q')))
    × (wait_not_full 3 q' ≡ none)
unfolding putc_round full
late_putc_example =
    late_putc {q = all_bytes} (record { head = omega arith; tail = omega arith }) 3 30 refl
