-- ===== src/Division/Signed.antt =====
-- `sdiv64` and the routines that GCC calls, against division of integers that rounds to zero.
use projectmod.Base.{
  ℕ, zero, suc, ◌+◌, ◌-◌, ◌/◌, ◌^◌, ◌≤◌, ◌<◌, ◌≡◌, refl, Bool, true, false, some, arith,
  if◌then◌else◌, same, not,
}
use native.Mathlib.Nat.{div-le_self}
use projectmod.Division.{is_neg64, neg64, abs64, sdiv64, divdi3}
use projectmod.Division.Unsigned.{udiv64_lem}

-- The integers; `negsuc n` is -(n + 1).
pub data ℤ : Type 0 where
  pos : ℕ → ℤ
  negsuc : ℕ → ℤ

-- An integer from its sign and its magnitude.
unfoldable pub signed : Bool → ℕ → ℤ
signed true (suc m) = negsuc m
signed true zero = pos zero
signed false m = pos m

unfoldable pub abs : ℤ → ℕ
abs (pos n) = n
abs (negsuc n) = n + 1

unfoldable pub is_neg : ℤ → Bool
is_neg (pos n) = false
is_neg (negsuc n) = true

-- Division that rounds to zero.
unfoldable pub tdiv : ℤ → ℤ → ℤ
tdiv a b = signed (not (same (is_neg a) (is_neg b))) (abs a / abs b)

-- The two's complement pattern of an integer that 64 bits hold.
unfoldable pub encode : ℤ → ℕ
encode (pos n) = n
encode (negsuc n) = 2 ^ 64 - 1 - n

-- The range of `int64_t`.
unfoldable pub InRange : ℤ → Type 0
InRange (pos n) = n < 2 ^ 63
InRange (negsuc n) = n < 2 ^ 63

sign-encode : (a : ℤ) → InRange a → is_neg64 (encode a) ≡ is_neg a
unfolding encode InRange is_neg
sign-encode (pos n) h = ground arith
sign-encode (negsuc n) h = ground arith

abs-encode : (a : ℤ) → InRange a → abs64 (encode a) ≡ abs a
unfolding encode InRange abs
abs-encode (pos n) h = ground arith
abs-encode (negsuc n) h = ground arith

abs-lt : (a : ℤ) → InRange a → abs a ≤ 2 ^ 63
unfolding InRange abs
abs-lt (pos n) h = omega arith
abs-lt (negsuc n) h = omega arith

encode-signed : (s : Bool) (m : ℕ) → m ≤ 2 ^ 63 → encode (signed s m) ≡ (if s then neg64 m else m)
unfolding encode signed
encode-signed true zero h = refl
encode-signed true (suc m) h = omega arith
encode-signed false m h = refl

-- `__divdi3` on the patterns of two 64-bit integers, the divisor not zero, returns the pattern of
-- their quotient rounded to zero. (The quotient of -2^63 by -1, which 64 bits cannot hold, is the
-- pattern of 2^63 as an unsigned number.)
pub divdi3_lem :
    (a b : ℤ)
    → InRange a
    → InRange b
    → 0 < abs b
    → divdi3 (encode a) (encode b) ≡ some (encode (tdiv a b))
unfolding divdi3 sdiv64 tdiv
divdi3_lem a b ha hb p =
    let small : abs a / abs b ≤ abs a = div-le_self (abs a) (abs b) in
    let bound = abs-lt a ha in
    rw
      (
        abs-encode a ha,
        abs-encode b hb,
        sign-encode a ha,
        sign-encode b hb,
        udiv64_lem (abs a) (abs b) (omega (arith, bound)) (omega (arith, abs-lt b hb)) p,
        encode-signed (not (same (is_neg a) (is_neg b))) (abs a / abs b)
            (omega (arith, bound, small)),
      )
      (ground arith)
