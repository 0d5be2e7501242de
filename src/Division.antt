-- ===== src/Division.antt =====
-- lib/arithmetic.c: 64-bit division by the 32-bit DIVL instruction. A 64-bit value is a number
-- below 2^64, a signed one its two's complement pattern. `none` is the divide error (#DE) that DIVL
-- raises.
pub mod Leading
pub mod Estimate
pub mod Unsigned
pub mod Signed
mod Tests
use projectmod.Base.{
  ℕ, ◌+◌, ◌-◌, ◌*◌, ◌/◌, ◌%◌, ◌^◌, Bool, true, false, not, ◌||◌, Option, none, some, ltb, leb, ◌==◌,
  same, if◌then◌else◌, ◌>>=◌,
}

-- The low 64 and 32 bits of a value.
abbrev pub u64 : ℕ → ℕ
u64 n = n % 2 ^ 64

abbrev pub u32 : ℕ → ℕ
u32 n = n % 2 ^ 32

-- DIVL: EDX:EAX, here `n`, by `d`. It traps at a zero divisor and if the quotient needs more than
-- 32 bits.
unfoldable pub divl : ℕ → ℕ → Option ℕ
divl n d = if (d == 0) || leb (2 ^ 32) (n / d) then none else some (n / d)

-- `if (x <= limit) { n += k; x <<= k; }` on the pair of `n` and the 32-bit `x`.
unfoldable pub shift_up : ℕ → ℕ → ℕ × ℕ → ℕ × ℕ
shift_up limit k (n, x) = if leb x limit then (n + k, u32 (x * 2 ^ k)) else (n, x)

-- The last test only counts, `if (x <= 0x7FFFFFFF) n++`.
unfoldable pub nlz : ℕ → ℕ
nlz x =
    let (n, x') =
      shift_up 0x3FFFFFFF 2
        (shift_up 0x0FFFFFFF 4 (shift_up 0x00FFFFFF 8 (shift_up 0x0000FFFF 16 (0, x)))) in
    if leb x' 0x7FFFFFFF then n + 1 else n

unfoldable pub udiv64_narrow : ℕ → ℕ → Option ℕ
udiv64_narrow n d =
    let b : ℕ = 2 ^ 32 in
    let n1 = u32 (n / 2 ^ 32) in
    let n0 = u32 n in
    let d0 = u32 d in
    divl (u64 (b * (n1 % d0) + n0)) d0 >>= λ q. some (u64 (q + u64 (b * (n1 / d0))))

unfoldable pub udiv64_wide : ℕ → ℕ → Option ℕ
udiv64_wide n d =
    let d1 = u32 (d / 2 ^ 32) in
    let s = nlz d1 in
    divl (n / 2) (u32 (u64 (d * 2 ^ s) / 2 ^ 32)) >>= λ q0.
    let q = q0 / 2 ^ (31 - s) in
    let q1 = u64 (q + 2 ^ 64 - 1) in
    some (if ltb (u64 (n + 2 ^ 64 - u64 (q1 * d))) d then q1 else q)

unfoldable pub udiv64 : ℕ → ℕ → Option ℕ
udiv64 n d =
    if d / 2 ^ 32 == 0 then udiv64_narrow n d else if ltb n d then some 0 else udiv64_wide n d

-- The return type `uint32_t` keeps the low 32 bits.
unfoldable pub umod64 : ℕ → ℕ → Option ℕ
umod64 n d = udiv64 n d >>= λ q. some (u32 (u64 (n + 2 ^ 64 - u64 (d * q))))

-- `x < 0` and `-x` of a 64-bit pattern
abbrev pub is_neg64 : ℕ → Bool
is_neg64 x = leb (2 ^ 63) x

abbrev pub neg64 : ℕ → ℕ
neg64 x = (2 ^ 64 - x) % 2 ^ 64

abbrev pub abs64 : ℕ → ℕ
abs64 x = if is_neg64 x then neg64 x else x

unfoldable pub sdiv64 : ℕ → ℕ → Option ℕ
sdiv64 n d = udiv64 (abs64 n) (abs64 d) >>= λ q_abs.
    some (if same (is_neg64 n) (is_neg64 d) then q_abs else neg64 q_abs)

-- The conversion of an `int32_t` pattern to 64 bits.
abbrev pub sign_extend32 : ℕ → ℕ
sign_extend32 x = if leb (2 ^ 31) x then x + (2 ^ 64 - 2 ^ 32) else x

-- The return type `int32_t` keeps the low 32 bits.
unfoldable pub smod64 : ℕ → ℕ → Option ℕ
smod64 n d = sdiv64 n d >>= λ q. some (u32 (u64 (n + 2 ^ 64 - u64 (d * q))))

unfoldable pub divdi3 : ℕ → ℕ → Option ℕ
divdi3 n d = sdiv64 n d

unfoldable pub moddi3 : ℕ → ℕ → Option ℕ
moddi3 n d = smod64 n d >>= λ r. some (sign_extend32 r)

unfoldable pub udivdi3 : ℕ → ℕ → Option ℕ
udivdi3 n d = udiv64 n d

unfoldable pub umoddi3 : ℕ → ℕ → Option ℕ
umoddi3 n d = umod64 n d
