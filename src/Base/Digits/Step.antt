-- ===== src/Base/Digits/Step.antt =====
-- The native bit operations stand for `bitwise`, a recursion on binary digits with fuel. Here the
-- fuel is dropped: each operation in terms of the lowest digits and of itself on the halves.
use Prim.Native.Nat.{
  ℕ, zero, suc, ◌+◌, ◌*◌, ◌/◌, ◌%◌, ◌≤◌, ◌<◌, min, max, differ, digits, bitwise, bit_and, bit_or,
  bit_xor, bit_and-bitwise, bit_or-bitwise, bit_xor-bitwise,
}
use mathlib.Core.Path.{◌≡◌, refl, ap, sym, ◌∙◌}
use native.Mathlib.Omega.{arith}

-- An operation `op` that works digit by digit with `f`, and is `z` once the first number is zero.
module _ (z : ℕ → ℕ) (f : ℕ → ℕ → ℕ) (op : ℕ → ℕ → ℕ)
    (meaning : (a b : ℕ) → op a b ≡ bitwise z f a b)
    (tail : (b : ℕ) → z b ≡ z (b / 2) * 2 + f 0 (b % 2)) where
  no_digits : (fuel b : ℕ) → digits z f fuel zero b ≡ z b
  no_digits zero b = refl
  no_digits (suc fuel) b = refl

  -- Fuel beyond the first number changes nothing.
  more_fuel : (a b low high : ℕ) → a ≤ low → low ≤ high → digits z f low a b ≡ digits z f high a b
  more_fuel zero b low high h k = no_digits low b ∙ sym (no_digits high b)
  more_fuel (suc a) b zero high h k = absurd (omega arith)
  more_fuel (suc a) b (suc low) zero h k = absurd (omega arith)
  more_fuel (suc a) b (suc low) (suc high) h k =
      ap (λ rest. rest * 2 + f (suc a % 2) (b % 2))
        (more_fuel (suc a / 2) (b / 2) low high (omega arith) (omega arith))

  halves : (a b : ℕ) → op a b ≡ f (a % 2) (b % 2) + 2 * op (a / 2) (b / 2)
  halves zero b = omega (arith, meaning 0 b, meaning 0 (b / 2), tail b)
  halves (suc a) b = omega (
    arith,
    meaning (suc a) b,
    meaning (suc a / 2) (b / 2),
    more_fuel (suc a / 2) (b / 2) (suc a / 2) a (omega arith) (omega arith),
  )

differ-parity : (x y : ℕ) → x < 2 → y < 2 → differ x y ≡ (x + y) % 2
differ-parity zero y p q = omega arith
differ-parity (suc zero) zero p q = refl
differ-parity (suc zero) (suc y) p q = omega arith
differ-parity (suc (suc x)) y p q = absurd (omega arith)

pub bit_or-halves : (a b : ℕ) → bit_or a b ≡ max (a % 2) (b % 2) + 2 * bit_or (a / 2) (b / 2)
bit_or-halves = halves (λ y. y) max bit_or bit_or-bitwise (λ b. omega arith)

pub bit_and-halves : (a b : ℕ) → bit_and a b ≡ min (a % 2) (b % 2) + 2 * bit_and (a / 2) (b / 2)
bit_and-halves = halves (λ y. 0) min bit_and bit_and-bitwise (λ b. omega arith)

pub bit_xor-halves : (a b : ℕ) → bit_xor a b ≡ (a % 2 + b % 2) % 2 + 2 * bit_xor (a / 2) (b / 2)
bit_xor-halves a b = rw (← differ-parity (a % 2) (b % 2) (omega arith) (omega arith)) (
    halves (λ y. y) differ bit_xor bit_xor-bitwise
      (λ y. omega (arith, differ-parity 0 (y % 2) (omega arith) (omega arith))) a b)

pub zero-bit_and : (b : ℕ) → bit_and 0 b ≡ 0
zero-bit_and b = bit_and-bitwise 0 b

-- Clearing against zero, with a bound on the first number.
zero_below : (bound a : ℕ) → a ≤ bound → bit_and a 0 ≡ 0
zero_below bound zero h = zero-bit_and 0
zero_below zero (suc a) h = absurd (omega arith)
zero_below (suc bound) (suc a) h =
    let rest = zero_below bound (suc a / 2) (omega arith) in
    omega (arith, rest, bit_and-halves (suc a) 0)

pub bit_and_zero : (a : ℕ) → bit_and a 0 ≡ 0
bit_and_zero a = zero_below a a (omega arith)
