-- ===== src/Division/Estimate.antt =====
-- The estimate of a quotient from the top 32 bits of a shifted divisor, and its correction by one,
-- as the second half of `udiv64` makes them.
use projectmod.Base.{
  ℕ, zero, suc, ◌+◌, ◌-◌, ◌*◌, ◌/◌, ◌^◌, ◌≤◌, ◌<◌, ◌≡◌, inl, inr, arith, ltb, if◌then◌else◌,
  Bool-cases, sym, ap, subst, ltb→lt,
}
use native.Mathlib.Nat.{
  mul-le-mul_left, mul-le-mul_right, mul-le-mul, div-eq_of_lt-le, div-div-eq-div-mul, div-le_self,
  le-div_iff_mul-le, lt-mul-div-succ, div-mul-le_self, le_of_mul-le-mul_right,
  lt_of_mul-lt-mul_right,
}
use projectmod.Division.{u64}

-- The estimate `p + 1` of the quotient `n / d`, taken with a divisor `w` that is too small by less
-- than `e`, is right or one too large.
module _ (n d w e p : ℕ) (below : w ≤ d) (close : d < w + e) (lower : (p + 1) * w ≤ n)
    (upper : n < (p + 2) * w) (slack : p * (e - 1) ≤ w) where
  estimate_low : p * d ≤ n
  estimate_low = omega (arith, mul-le-mul_left {m = d} {n = w + (e - 1)} p (omega arith))

  estimate_high : n < (p + 2) * d
  estimate_high = omega (arith, mul-le-mul_left {m = w} {n = d} (p + 2) below)

  estimate_lem : (if ltb (n - p * d) d then p else p + 1) ≡ n / d
  estimate_lem = elim (Bool-cases (ltb (n - p * d) d)) [
    | inl small ↦
        rw small
          (sym (div-eq_of_lt-le d estimate_low (omega (arith, estimate_low, ltb→lt _ _ small))))
    | inr big ↦
        let far : d ≤ n - p * d = ground arith in
        rw big (
          sym (div-eq_of_lt-le d (omega (arith, estimate_low, far)) (omega (arith, estimate_high))))
  ]

pos_factor : (a b : ℕ) → b * a ≡ 2 ^ 32 → 0 < a
pos_factor zero b e = absurd (omega arith)
pos_factor (suc a) b e = omega arith

slack_bound_wide :
    (P H p v : ℕ)
    → 2 * H * P ≡ 2 ^ 32
    → 2 ^ 31 ≤ v
    → p + 2 ≤ 2 * P
    → 2 ≤ H
    → p * (2 * H - 1) ≤ v * (2 * H)
slack_bound_wide P H p v e g h two = omega (
  arith,
  mul-le-mul_left {m = 2 * H - 1} {n = 2 * H} p (omega arith),
  mul-le-mul_right {m = p} {n = 2 * P} (2 * H) (omega arith),
  mul-le-mul {n₁ = 2 ^ 31} {m₁ = 4} {n₂ = v} {m₂ = 2 * H} g (omega arith),
)

slack_bound :
    (P H p v : ℕ) → 2 * H * P ≡ 2 ^ 32 → 2 ^ 31 ≤ v → p + 2 ≤ 2 * P → p * (2 * H - 1) ≤ v * (2 * H)
slack_bound P zero p v e g h = absurd (omega arith)
slack_bound P (suc zero) p v e g h = omega arith
slack_bound P (suc (suc k)) p v e g h = slack_bound_wide P (suc (suc k)) p v e g h (omega arith)

-- The divisor `d` shifted by `s` bits, `P` being 2^s and `H` being 2^(31 - s), with its top 32 bits
-- `v`.
module _ (n d P H v : ℕ) (scale : 2 * H * P ≡ 2 ^ 32) (top : v ≡ d * P / 2 ^ 32) (high : 2 ^ 31 ≤ v)
    (n_fits : n < 2 ^ 64) (le : d ≤ n) where
  abbrev w : ℕ
  w = v * (2 * H)

  positive : (0 < P) × (0 < H)
  positive = (pos_factor P (2 * H) (omega arith), pos_factor H (2 * P) (omega arith))

  w-le : w ≤ d
  w-le =
      le_of_mul-le-mul_right {m = w} {n = d} {k = P} (omega (arith, ap (λ (t : ℕ). v * t) scale))
        positive.0

  lt-w : d < w + 2 * H
  lt-w =
      lt_of_mul-lt-mul_right P {m = d} {n = w + 2 * H} (omega (arith, ap (λ (t : ℕ). v * t) scale))

  abbrev q : ℕ
  q = n / 2 / v / H

  q_eq : q ≡ n / w
  q_eq = rw (div-div-eq-div-mul, div-div-eq-div-mul) (ap (λ t. n / t) (omega arith))

  q_lower : q * w ≤ n
  q_lower = rw q_eq (div-mul-le_self n w)

  w_pos : 0 < w
  w_pos = omega (arith, mul-le-mul_right {m = 2 ^ 31} {n = v} H high, positive.1)

  q_upper : n < (q + 1) * w
  q_upper = rw q_eq (omega (arith, lt-mul-div-succ n w_pos))

  q_pos : 0 < q
  q_pos = rw q_eq ((le-div_iff_mul-le w_pos).1 (omega (arith, w-le)))

  q-lt : q < 2 * P
  q-lt =
      let total : q * v < 2 ^ 32 * P =
        lt_of_mul-lt-mul_right (2 * H) {m = q * v} {n = 2 ^ 32 * P}
          (omega (arith, q_lower, ap (λ (t : ℕ). 2 ^ 32 * t) scale)) in
      omega (arith, total, mul-le-mul_left q high)

  predecessor : u64 (q + 2 ^ 64 - 1) ≡ q - 1
  predecessor = let small : q ≤ n = rw q_eq (div-le_self n w) in omega (arith, small, q_pos)

  -- The correction by one at the end of `udiv64`.
  pub corrected :
      (if ltb (u64 (n + 2 ^ 64 - u64 (u64 (q + 2 ^ 64 - 1) * d))) d
        then u64 (q + 2 ^ 64 - 1)
        else q)
      ≡ n / d
  corrected =
      let p : ℕ = q - 1 in
      let back : p + 1 ≡ q = omega (arith, q_pos) in
      let lower : (p + 1) * w ≤ n = rw back q_lower in
      let upper : n < (p + 2) * w = omega (arith, q_upper, ap (λ (t : ℕ). t * w) back) in
      let slack : p * (2 * H - 1) ≤ w =
        slack_bound P H p v scale high (omega (arith, q-lt, back)) in
      let le_n : p * d ≤ n = estimate_low n d w (2 * H) p w-le lt-w lower upper slack in
      let e1 : u64 (p * d) ≡ p * d = omega arith in
      let e2 : u64 (n + 2 ^ 64 - p * d) ≡ n - p * d = omega arith in
      rw (predecessor, e1, e2)
        (subst (λ t. (if ltb (n - p * d) d then p else t) ≡ n / d) back
          (estimate_lem n d w (2 * H) p w-le lt-w lower upper slack))
