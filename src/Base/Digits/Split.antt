-- ===== src/Base/Digits/Split.antt =====
-- Words as a high and a low part: an entry of a page table is an address and flags below it.
use native.Mathlib.Decide.{ℕ_discrete}
use native.Mathlib.Nat.{pow-suc}
use projectmod.Base.Digits.Step.{bit_or-halves, bit_and-halves}
use Prim.Native.Nat.{ℕ, zero, suc, ◌+◌, ◌-◌, ◌*◌, ◌/◌, ◌^◌, ◌<◌, ◌≤◌, bit_and, bit_or}
use mathlib.Core.Path.{◌≡◌, refl}
use native.Mathlib.Omega.{arith}

double : (k q : ℕ) → 2 ^ suc k * q ≡ 2 * (2 ^ k * q)
double k q = grind (arith, pow-suc 2 k)

pub bit_or-split :
    (k q r x y : ℕ)
    → x < 2 ^ k
    → y < 2 ^ k
    → bit_or (2 ^ k * q + x) (2 ^ k * r + y) ≡ 2 ^ k * bit_or q r + bit_or x y
bit_or-split zero q r x y h p =
    let a : 2 ^ zero * q + x ≡ q = omega arith in
    let b : 2 ^ zero * r + y ≡ r = omega arith in
    let c : x ≡ 0 = omega arith in let d : y ≡ 0 = omega arith in rw (a, b, c, d) (omega arith)
bit_or-split (suc k) q r x y h p =
    let a : (2 ^ suc k * q + x) / 2 ≡ 2 ^ k * q + x / 2 = omega (arith, double k q) in
    let b : (2 ^ suc k * r + y) / 2 ≡ 2 ^ k * r + y / 2 = omega (arith, double k r) in
    let ih =
      bit_or-split k q r (x / 2) (y / 2) (omega (arith, pow-suc 2 k))
        (omega (arith, pow-suc 2 k)) in
    let here = rw (a, b, ih) at (bit_or-halves (2 ^ suc k * q + x) (2 ^ suc k * r + y)) in
    omega (arith, here, bit_or-halves x y, double k q, double k r, double k (bit_or q r))

pub bit_and-split :
    (k q r x y : ℕ)
    → x < 2 ^ k
    → y < 2 ^ k
    → bit_and (2 ^ k * q + x) (2 ^ k * r + y) ≡ 2 ^ k * bit_and q r + bit_and x y
bit_and-split zero q r x y h p =
    let a : 2 ^ zero * q + x ≡ q = omega arith in
    let b : 2 ^ zero * r + y ≡ r = omega arith in
    let c : x ≡ 0 = omega arith in let d : y ≡ 0 = omega arith in rw (a, b, c, d) (omega arith)
bit_and-split (suc k) q r x y h p =
    let a : (2 ^ suc k * q + x) / 2 ≡ 2 ^ k * q + x / 2 = omega (arith, double k q) in
    let b : (2 ^ suc k * r + y) / 2 ≡ 2 ^ k * r + y / 2 = omega (arith, double k r) in
    let ih =
      bit_and-split k q r (x / 2) (y / 2) (omega (arith, pow-suc 2 k))
        (omega (arith, pow-suc 2 k)) in
    let here = rw (a, b, ih) at (bit_and-halves (2 ^ suc k * q + x) (2 ^ suc k * r + y)) in
    omega (arith, here, bit_and-halves x y, double k q, double k r, double k (bit_and q r))

-- A mask of `k` bits keeps a number of `k` bits.
pub bit_and-mask : (k q : ℕ) → q < 2 ^ k → bit_and q (2 ^ k - 1) ≡ q
bit_and-mask zero q h = let z : q ≡ 0 = omega arith in rw z refl
bit_and-mask (suc k) q h =
    let half : (2 ^ suc k - 1) / 2 ≡ 2 ^ k - 1 = omega (arith, pow-suc 2 k) in
    let here = rw half at (bit_and-halves q (2 ^ suc k - 1)) in
    omega (arith, here, bit_and-mask k (q / 2) (omega (arith, pow-suc 2 k)), pow-suc 2 k)

bit_or_zero_below : (f a : ℕ) → a ≤ f → bit_or a 0 ≡ a
bit_or_zero_below zero a h = let z : a ≡ 0 = omega arith in rw z refl
bit_or_zero_below (suc f) a h = elim (ℕ_discrete a 0) [
  | yes z ↦ rw z refl
  | no nz ↦ omega (arith, bit_or-halves a 0, bit_or_zero_below f (a / 2) (omega (arith, nz)))
]

-- Flags of `k` bits into the low part of a word.
pub bit_or-flags :
    (k q x y : ℕ) → x < 2 ^ k → y < 2 ^ k → bit_or (2 ^ k * q + x) y ≡ 2 ^ k * q + bit_or x y
bit_or-flags k q x y h p =
    let low : 2 ^ k * 0 + y ≡ y = omega arith in
    rw (low, bit_or_zero_below q q (omega arith)) at (bit_or-split k q 0 x y h p)
