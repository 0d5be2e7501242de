-- ===== src/Division/Unsigned.antt =====
-- `udiv64` computes the quotient: DIVL never traps, and the estimate from the top bits of the
-- divisor is off by at most one.
use projectmod.Base.{
  ℕ, ◌+◌, ◌-◌, ◌*◌, ◌/◌, ◌%◌, ◌^◌, ◌≤◌, ◌<◌, ◌≡◌, ◌↔◌, refl, inl, inr, none, some, arith, ltb, ◌==◌,
  if◌then◌else◌, Bool-cases, sym, ap, ◌>>=◌, ◌∙◌, ltb→lt,
}
use native.Mathlib.Nat.{
  mul-le-mul_right, mod-eq_of_lt, div-eq_of_lt-le, mod-lt, div-add-mod', div-le_self, div-eq_of_lt,
  lt_of_mul-lt-mul_right, div-lt_iff_lt-mul, one-le-pow,
}
use projectmod.Division.{u32, u64, divl, nlz, udiv64_narrow, udiv64_wide, udiv64, umod64, umoddi3}
use projectmod.Division.Estimate.{corrected}
use projectmod.Division.Leading.{nlz_lem, pow-add}

-- DIVL does not trap if the divisor is not zero and the high half is below it.
divl-ok : (n d : ℕ) → 0 < d → n < d * 2 ^ 32 → divl n d ≡ some (n / d)
unfolding divl
divl-ok n d p h = let small : n / d < 2 ^ 32 = (div-lt_iff_lt-mul p).1 (omega arith) in ground arith

-- The quotient of the low part by `d` and that of the high part make up the quotient.
narrow_sum :
    (n d : ℕ)
    → 0 < d
    → n < 2 ^ 64
    → ((2 ^ 32 * (n / 2 ^ 32 % d) + n % 2 ^ 32) / d + 2 ^ 32 * (n / 2 ^ 32 / d) % 2 ^ 64) % 2 ^ 64
      ≡ n / d
narrow_sum n d p h =
    let t : ℕ = n / 2 ^ 32 / d in
    let m : ℕ = 2 ^ 32 * (n / 2 ^ 32 % d) + n % 2 ^ 32 in
    let whole : n / d ≡ m / d + 2 ^ 32 * t =
      div-eq_of_lt-le d (omega (arith, div-add-mod' m d, div-add-mod' (n / 2 ^ 32) d))
        (omega (arith, div-add-mod' m d, div-add-mod' (n / 2 ^ 32) d, mod-lt m p)) in
    let small : n / d ≤ n = div-le_self n d in omega (arith, whole, small)

narrow_lem : (n d : ℕ) → n < 2 ^ 64 → 0 < d → d < 2 ^ 32 → udiv64_narrow n d ≡ some (n / d)
unfolding udiv64_narrow
narrow_lem n d h p q =
    let r : ℕ = n / 2 ^ 32 % d in
    let t : ℕ = n / 2 ^ 32 / d in
    let m : ℕ = 2 ^ 32 * r + n % 2 ^ 32 in
    let e1 : n / 2 ^ 32 % 2 ^ 32 ≡ n / 2 ^ 32 = omega arith in
    let e2 : d % 2 ^ 32 ≡ d = omega arith in
    let r_lt : r < d = mod-lt (n / 2 ^ 32) p in
    let e3 : m % 2 ^ 64 ≡ m = omega arith in
    rw (e1, e2, e3, divl-ok m d p (omega arith)) (ap some (narrow_sum n d p h))

power_split : (s : ℕ) → s < 32 → 2 * 2 ^ (31 - s) * 2 ^ s ≡ 2 ^ 32
power_split s h =
    let e : 31 - s + s ≡ 31 = omega arith in
    let split : 2 ^ 31 ≡ 2 ^ (31 - s) * 2 ^ s =
      ap (λ (t : ℕ). 2 ^ t) (sym e) ∙ pow-add s (31 - s) in
    omega (arith, split)

-- The division by a divisor with its top bit shifted to bit 63, for any such shift.
module _ (n d s : ℕ) (n_fits : n < 2 ^ 64) (le : d ≤ n) (s_lt : s < 32)
    (high : 2 ^ 31 ≤ d / 2 ^ 32 * 2 ^ s) (small : d / 2 ^ 32 * 2 ^ s < 2 ^ 32) where
  scale : 2 * 2 ^ (31 - s) * 2 ^ s ≡ 2 ^ 32
  scale = power_split s s_lt

  no_overflow : d * 2 ^ s < 2 ^ 64
  no_overflow =
      let lt : d / 2 ^ 32 < 2 * 2 ^ (31 - s) =
        lt_of_mul-lt-mul_right (2 ^ s) (omega (arith, scale, small)) in
      omega (
        arith,
        one-le-pow s 2,
        scale,
        mul-le-mul_right {m = d / 2 ^ 32 + 1} {n = 2 * 2 ^ (31 - s)} (2 ^ s) (omega (arith, lt)),
        mul-le-mul_right {m = d + 1} {n = (d / 2 ^ 32 + 1) * 2 ^ 32} (2 ^ s) (omega arith),
      )

  top_high : 2 ^ 31 ≤ d * 2 ^ s / 2 ^ 32
  top_high =
      omega (arith, high, mul-le-mul_right {m = d / 2 ^ 32 * 2 ^ 32} {n = d} (2 ^ s) (omega arith))

  shifted_lem :
      (divl (n / 2) (u32 (u64 (d * 2 ^ s) / 2 ^ 32)) >>= λ q0.
      let q = q0 / 2 ^ (31 - s) in
      let q1 = u64 (q + 2 ^ 64 - 1) in
      some (if ltb (u64 (n + 2 ^ 64 - u64 (q1 * d))) d then q1 else q))
      ≡ some (n / d)
  shifted_lem =
      let v : ℕ = d * 2 ^ s / 2 ^ 32 in
      let e1 : u64 (d * 2 ^ s) ≡ d * 2 ^ s = omega (arith, no_overflow) in
      let e2 : u32 v ≡ v = omega (arith, no_overflow) in
      rw (e1, e2, divl-ok (n / 2) v (omega (arith, top_high)) (omega (arith, top_high)))
        (ap some (corrected n d (2 ^ s) (2 ^ (31 - s)) v scale refl top_high n_fits le))

wide_lem : (n d : ℕ) → n < 2 ^ 64 → 2 ^ 32 ≤ d → d ≤ n → udiv64_wide n d ≡ some (n / d)
unfolding udiv64_wide
wide_lem n d h p le =
    let e1 : u32 (d / 2 ^ 32) ≡ d / 2 ^ 32 = omega arith in
    let (high, small, s_lt) = nlz_lem (d / 2 ^ 32) (omega arith) (omega arith) in
    rw e1 (shifted_lem n d (nlz (d / 2 ^ 32)) h le s_lt high small)

-- `udiv64` returns the quotient of any two 64-bit numbers, the divisor not zero, so that DIVL does
-- not trap on the way.
pub udiv64_lem : (n d : ℕ) → n < 2 ^ 64 → d < 2 ^ 64 → 0 < d → udiv64 n d ≡ some (n / d)
unfolding udiv64
udiv64_lem n d h k p = elim (Bool-cases (d / 2 ^ 32 == 0)) [
  | inl narrow ↦ rw narrow (narrow_lem n d h p (ground arith))
  | inr wide ↦ rw wide (elim (Bool-cases (ltb n d)) [
    | inl lt ↦ rw lt (ap some (sym (div-eq_of_lt (ltb→lt n d lt))))
    | inr ge ↦ rw ge (wide_lem n d h (ground arith) (ground arith))
  ])
]

-- A division by zero traps.
pub udiv64-zero : (n : ℕ) → udiv64 n 0 ≡ none
unfolding udiv64 udiv64_narrow divl
udiv64-zero n = refl

-- `umod64` returns the low 32 bits of the remainder of two 64-bit numbers, the divisor not zero.
pub umod64_lem : (n d : ℕ) → n < 2 ^ 64 → d < 2 ^ 64 → 0 < d → umod64 n d ≡ some (n % d % 2 ^ 32)
unfolding umod64
umod64_lem n d h k p =
    let part : n / d * d + n % d ≡ n = div-add-mod' n d in
    let e1 : u64 (d * (n / d)) ≡ d * (n / d) = omega (arith, part) in
    let e2 : u64 (n + 2 ^ 64 - d * (n / d)) ≡ n % d = omega (arith, part) in
    rw (udiv64_lem n d h k p, e1, e2)

-- `__umoddi3`, which GCC calls for the operator `%` on 64-bit numbers, returns the remainder of two
-- of them, the divisor not zero, exactly if the remainder fits 32 bits.
pub umoddi3_lem :
    (n d : ℕ) → n < 2 ^ 64 → d < 2 ^ 64 → 0 < d → (umoddi3 n d ≡ some (n % d)) ↔ (n % d < 2 ^ 32)
unfolding umoddi3
umoddi3_lem n d h k p =
    rw (umod64_lem n d h k p) (λ e. ground (arith, e), λ small. ap some (mod-eq_of_lt small))
