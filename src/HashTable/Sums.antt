-- ===== src/HashTable/Sums.antt =====
-- Sums over the buckets, and occurrences in a bucket.
use projectmod.Base.{
  ℕ, zero, suc, ◌+◌, ◌-◌, ◌/◌, ◌≤◌, ◌<◌, ◌≡◌, refl, ◌≢◌, List, [], ◌∷◌, arith, bit_and, length,
  ◌==◌, if◌then◌else◌,
}
use projectmod.Base.Digits.{bit_and-halves, bit_and_zero}
use native.Mathlib.Decide.{ℕ_discrete}
use projectmod.HashTable.{list_remove}

-- f 0 + … + f (n - 1)
unfoldable pub sum : ℕ → (ℕ → ℕ) → ℕ
sum zero f = 0
sum (suc n) f = f n + sum n f

pub sum-eq : (n : ℕ) (f g : ℕ → ℕ) → ((j : ℕ) → j < n → f j ≡ g j) → sum n f ≡ sum n g
unfolding sum
sum-eq zero f g h = refl
sum-eq (suc n) f g h = omega (arith, h n (omega arith), sum-eq n f g (λ j p. h j (omega arith)))

-- Functions that differ at `i` only.
pub sum-update :
    (n i : ℕ) (f g : ℕ → ℕ)
    → i < n
    → ((j : ℕ) → j < n → j ≢ i → g j ≡ f j)
    → sum n g + f i ≡ sum n f + g i
unfolding sum
sum-update zero i f g p h = absurd (omega arith)
sum-update (suc n) i f g p h = elim (ℕ_discrete i n) [
  | yes e ↦
      let rest = sum-eq n g f (λ j q. h j (omega arith) (λ d. omega (arith, d, e))) in
      rw e (omega (arith, rest))
  | no ne ↦ omega (
    arith,
    h n (omega arith) (λ d. omega (arith, d, ne)),
    sum-update n i f g (omega arith) (λ j q. h j (omega arith)),
  )
]

-- A function that is zero but at `i`.
pub sum_single : (n i : ℕ) (f : ℕ → ℕ) → i < n → ((j : ℕ) → j < n → j ≢ i → f j ≡ 0) → sum n f ≡ f i
unfolding sum
sum_single n i f p h = omega (arith, sum-update n i (λ j. 0) f p h, zeros n)
  where
    zeros : (n : ℕ) → sum n (λ j. 0) ≡ 0
    zeros zero = refl
    zeros (suc n) = omega (arith, zeros n)

-- How often an element stands in a list
unfoldable pub count : ℕ → List ℕ → ℕ
count e [] = 0
count e (x ∷ l) = (if x == e then 1 else 0) + count e l

pub count-list_remove :
    (e x : ℕ) (l : List ℕ) → count x (list_remove e l) ≡ count x l - (if x == e then 1 else 0)
unfolding count list_remove
count-list_remove e x [] = omega arith
count-list_remove e x (y ∷ l) = ground (arith, count-list_remove e x l)

pub length-list_remove :
    (e : ℕ) (l : List ℕ) → length (list_remove e l) + (if count e l == 0 then 0 else 1) ≡ length l
unfolding count list_remove
length-list_remove e [] = refl
length-list_remove e (y ∷ l) = ground (arith, length-list_remove e l)

bit_and_fuel : (n a b : ℕ) → b ≤ n → bit_and a b ≤ b
bit_and_fuel zero a b h = let e : b ≡ 0 = omega arith in rw e (omega (arith, bit_and_zero a))
bit_and_fuel (suc n) a b h =
    let rest = bit_and_fuel n (a / 2) (b / 2) (omega arith) in
    ground (arith, bit_and-halves a b, rest)

pub bit_and_le : (a b : ℕ) → bit_and a b ≤ b
bit_and_le a b = bit_and_fuel b a b (omega arith)
