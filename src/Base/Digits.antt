-- ===== src/Base/Digits.antt =====
-- The bits of a machine word: `test_bit` reads one, and the word operations act on each alone.
pub mod Step
pub mod Split
pub use Step.{bit_and_zero, bit_and-halves}
use Step.{zero-bit_and, bit_or-halves, bit_xor-halves}
use mathlib.Core.Bool.{xor}
use native.Mathlib.Nat.{pow-suc, one-le-pow}
use projectmod.Base.Tests.{◌==◌, if◌then◌else◌}
use Prim.Native.Nat.{
  ℕ, zero, suc, ◌+◌, ◌-◌, ◌*◌, ◌/◌, ◌%◌, ◌^◌, ◌<◌, ◌≤◌, bit_and, bit_or, bit_xor, min, max,
}
use mathlib.Core.Path.{◌≡◌, refl}
use mathlib.Core.Bool.{Bool, true, false, not, ◌&&◌, ◌||◌}
use native.Mathlib.Omega.{arith}

-- Bit `k` of `w`, the lowest being bit 0.
pub test_bit : ℕ → ℕ → Bool
test_bit w zero = w % 2 == 1
test_bit w (suc k) = test_bit (w / 2) k

pub test_bit-or : (a b k : ℕ) → test_bit (bit_or a b) k ≡ (test_bit a k || test_bit b k)
unfolding test_bit
test_bit-or a b zero = ground (arith, bit_or-halves a b)
test_bit-or a b (suc k) =
    let e : bit_or a b / 2 ≡ bit_or (a / 2) (b / 2) = omega (arith, bit_or-halves a b) in
    rw e (test_bit-or (a / 2) (b / 2) k)

pub test_bit-and : (a b k : ℕ) → test_bit (bit_and a b) k ≡ (test_bit a k && test_bit b k)
unfolding test_bit
test_bit-and a b zero = ground (arith, bit_and-halves a b)
test_bit-and a b (suc k) =
    let e : bit_and a b / 2 ≡ bit_and (a / 2) (b / 2) = omega (arith, bit_and-halves a b) in
    rw e (test_bit-and (a / 2) (b / 2) k)

pub test_bit-xor : (a b k : ℕ) → test_bit (bit_xor a b) k ≡ xor (test_bit a k) (test_bit b k)
unfolding test_bit xor
test_bit-xor a b zero = ground (arith, bit_xor-halves a b)
test_bit-xor a b (suc k) =
    let e : bit_xor a b / 2 ≡ bit_xor (a / 2) (b / 2) = omega (arith, bit_xor-halves a b) in
    rw e (test_bit-xor (a / 2) (b / 2) k)

test_bit-zero : (k : ℕ) → test_bit 0 k ≡ false
unfolding test_bit
test_bit-zero zero = refl
test_bit-zero (suc k) = test_bit-zero k

-- `1 << k` has bit `k` set and no other.
pub test_bit-pow : (k j : ℕ) → test_bit (2 ^ k) j ≡ (j == k)
unfolding test_bit
test_bit-pow zero zero = refl
test_bit-pow zero (suc j) = ground (arith, test_bit-zero j)
test_bit-pow (suc k) zero = ground (arith, pow-suc 2 k)
test_bit-pow (suc k) (suc j) =
    let e : 2 ^ suc k / 2 ≡ 2 ^ k = omega (arith, pow-suc 2 k) in
    rw e (ground (arith, test_bit-pow k j))

-- `~m` of a `w`-bit word flips each of its bits.
pub test_bit-complement :
    (w m k : ℕ) → m < 2 ^ w → k < w → test_bit (2 ^ w - 1 - m) k ≡ not (test_bit m k)
unfolding test_bit
test_bit-complement zero m k h p = absurd (omega arith)
test_bit-complement (suc w) m zero h p = ground (arith, pow-suc 2 w, one-le-pow w 2)
test_bit-complement (suc w) m (suc k) h p =
    let e : (2 ^ suc w - 1 - m) / 2 ≡ 2 ^ w - 1 - m / 2 = omega (arith, pow-suc 2 w) in
    rw e (test_bit-complement w (m / 2) k (omega (arith, pow-suc 2 w)) (omega arith))

-- The test `(w & (1 << k)) != 0`.
pub bit_and-pow-eq-zero : (k w : ℕ) → (bit_and w (2 ^ k) == 0) ≡ not (test_bit w k)
unfolding test_bit
bit_and-pow-eq-zero zero w = ground (arith, bit_and-halves w 1, bit_and_zero (w / 2))
bit_and-pow-eq-zero (suc k) w =
    ground (arith, pow-suc 2 k, bit_and-halves w (2 ^ suc k), bit_and-pow-eq-zero k (w / 2))

pub pow-lt : (k w : ℕ) → k < w → 2 ^ k < 2 ^ w
pow-lt k zero h = absurd (omega arith)
pow-lt zero (suc w) h = omega (arith, pow-suc 2 w, one-le-pow w 2)
pow-lt (suc k) (suc w) h = omega (arith, pow-suc 2 k, pow-suc 2 w, pow-lt k w)
