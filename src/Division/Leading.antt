-- ===== src/Division/Leading.antt =====
-- `nlz`: the shift that brings the highest set bit of a 32-bit value to the top.
use projectmod.Base.{
  ℕ, zero, suc, ◌+◌, ◌*◌, ◌^◌, ◌≤◌, ◌<◌, ◌≡◌, refl, inl, inr, arith, leb, if◌then◌else◌, Bool-cases,
  sym,
}
use native.Mathlib.Nat.{
  pow-suc, mul_assoc, add-zero, one-le-pow, mul-le-mul_right, mod-eq_of_lt, pow-le-pow_right,
}
use native.Mathlib.Decide.{dec_lt}
use projectmod.Division.{shift_up, nlz}

pub pow-add : (k n : ℕ) → 2 ^ (n + k) ≡ 2 ^ n * 2 ^ k
pow-add zero n = rw add-zero (omega arith)
pow-add (suc k) n =
    let e : n + suc k ≡ suc (n + k) = omega arith in
    rw (e, pow-suc 2 (n + k), pow-suc 2 k, pow-add k n) (omega arith)

-- What the stages keep: `x` is the input shifted by `n`, it fits 32 bits, and it reaches `low`.
record Shifted (x0 low : ℕ) (st : ℕ × ℕ) : Type 0 where
  shifted : st.1 ≡ x0 * 2 ^ st.0
  large : low ≤ st.1
  small : st.1 < 2 ^ 32

shift_up-Shifted :
    (x0 low limit k : ℕ) (st : ℕ × ℕ)
    → (limit + 1) * 2 ^ k ≡ 2 ^ 32
    → limit + 1 ≤ low * 2 ^ k
    → Shifted x0 low st
    → Shifted x0 (limit + 1) (shift_up limit k st)
unfolding shift_up
shift_up-Shifted x0 low limit k (n, x) e f s = elim (Bool-cases (leb x limit)) [
  | inl small ↦
      let fits : x * 2 ^ k < 2 ^ 32 = omega (
        arith,
        mul-le-mul_right {m = x + 1} {n = limit + 1} (2 ^ k) (ground arith),
        one-le-pow k 2,
      ) in
      let reach : limit + 1 ≤ x * 2 ^ k =
        omega (arith, mul-le-mul_right {m = low} {n = x} (2 ^ k) s.large) in
      rw small (record {
        shifted = rw (pow-add k n, mod-eq_of_lt fits, s.shifted) (mul_assoc _ _ _);
        large = rw (mod-eq_of_lt fits) reach;
        small = omega arith;
      })
  | inr big ↦ rw big (record { shifted = s.shifted; large = ground arith; small = s.small })
]

-- The last test, which counts one more and shifts no more.
last_stage :
    (x0 : ℕ) (st : ℕ × ℕ)
    → Shifted x0 (2 ^ 30) st
    → let n = (if leb st.1 0x7FFFFFFF then st.0 + 1 else st.0) in
      (2 ^ 31 ≤ x0 * 2 ^ n) × (x0 * 2 ^ n < 2 ^ 32)
last_stage x0 (n, x) s = elim (Bool-cases (leb x 0x7FFFFFFF)) [
  | inl small ↦
      let e : x0 * 2 ^ (n + 1) ≡ x * 2 =
        rw (pow-add 1 n, s.shifted) (sym (mul_assoc x0 (2 ^ n) 2)) in
      rw (small, e) (omega (arith, s.large), ground arith)
  | inr big ↦ rw (big, ← s.shifted) (ground arith, s.small)
]

exponent-lt : (x n : ℕ) → 0 < x → x * 2 ^ n < 2 ^ 32 → n < 32
exponent-lt x n p h = elim (dec_lt n 32) [
  | yes lt ↦ lt
  | no ge ↦ absurd (
      omega (
        arith,
        pow-le-pow_right {n = 2} (omega arith) {i = 32} {j = n} (omega arith),
        mul-le-mul_right {m = 1} {n = x} (2 ^ n) p,
      ))
]

-- Shifting a nonzero 32-bit value by the count that `nlz` returns brings its highest set bit to
-- bit 31, and the count is below 32.
pub nlz_lem :
    (x : ℕ)
    → 0 < x
    → x < 2 ^ 32
    → (2 ^ 31 ≤ x * 2 ^ nlz x) × (x * 2 ^ nlz x < 2 ^ 32) × (nlz x < 32)
unfolding nlz
nlz_lem x p q =
    let start : Shifted x 1 (0, x) = record { shifted = omega arith; large = p; small = q } in
    let s1 = shift_up-Shifted x 1 0x0000FFFF 16 (0, x) refl (omega arith) start in
    let s2 = shift_up-Shifted x 0x10000 0x00FFFFFF 8 _ refl (omega arith) s1 in
    let s3 = shift_up-Shifted x 0x1000000 0x0FFFFFFF 4 _ refl (omega arith) s2 in
    let s4 = shift_up-Shifted x 0x10000000 0x3FFFFFFF 2 _ refl (omega arith) s3 in
    let top = last_stage x _ s4 in (top.0, top.1, exponent-lt x _ p top.1)
