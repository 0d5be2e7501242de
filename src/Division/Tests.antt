-- ===== src/Division/Tests.antt =====
-- lib/arithmetic.c: 64-bit divisions on concrete numbers.
use projectmod.Base.{ℕ, ◌+◌, ◌/◌, ◌%◌, ◌^◌, ◌<◌, ◌≡◌, ◌↔◌, some, arith}
use projectmod.Division.{udiv64, umoddi3}
use projectmod.Division.Unsigned.{udiv64_lem, umoddi3_lem}
use projectmod.Division.Signed.{pos, negsuc, abs, InRange}

abbrev big : ℕ
big = 2 ^ 63 + 12345

abbrev wide : ℕ
wide = 2 ^ 33 + 7

udiv64_lem_example : udiv64 big wide ≡ some (big / wide)
udiv64_lem_example = udiv64_lem big wide (omega arith) (omega arith) (omega arith)

umoddi3_lem_example : (umoddi3 big wide ≡ some (big % wide)) ↔ (big % wide < 2 ^ 32)
umoddi3_lem_example = umoddi3_lem big wide (omega arith) (omega arith) (omega arith)

seven_fits : InRange (negsuc 6)
unfolding InRange
seven_fits = omega arith

two_fits : InRange (pos 2)
unfolding InRange
two_fits = omega arith

two_positive : 0 < abs (pos 2)
unfolding abs
two_positive = omega arith
