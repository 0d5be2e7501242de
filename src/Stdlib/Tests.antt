-- ===== src/Stdlib/Tests.antt =====
-- The theorems on arrays of numbers, and on the text " -42;".
use projectmod.Base.{
  ℕ, ◌-◌, ◌*◌, ◌<◌, ◌≡◌, refl, ◌⊎◌, Bool, true, false, some, arith, ◌==◌, ltb, if◌then◌else◌,
}
use projectmod.Stdlib.{Sign, below, equal, above, is_above, sort, isspace, isdigit}
use projectmod.Stdlib.Order.{Orders}
use projectmod.Stdlib.Count.{count}
use projectmod.Stdlib.Sort.{IsSorted, sort_lem}
use projectmod.Stdlib.Search.{Sorted}

abbrev by_size : ℕ → ℕ → Sign
by_size a b = if ltb a b then below else (if a == b then equal else above)

by_size-Orders : Orders by_size
unfolding is_above
by_size-Orders = record {
  trans = λ x y z p q. ground (arith, p, q);
  total = λ x y p. ground (arith, p);
}

abbrev falling : ℕ → ℕ
falling k = 20 - 3 * k

sort_lem_example :
    (b : ℕ → ℕ) × (sort by_size falling 5 ≡ some b)
    × IsSorted by_size-Orders b 5
    × ((test : ℕ → Bool) → count test 5 b ≡ count test 5 falling)
    × ((k : ℕ) → (k ≡ 0) ⊎ (5 < k) → b k ≡ falling k)
sort_lem_example = sort_lem by_size-Orders falling 5 (omega arith)

abbrev rising : ℕ → ℕ
rising k = 2 * k

rising-Sorted : Sorted by_size 6 rising 10
rising-Sorted = record {
  smaller = λ i j p q e. ground (arith, p, q, e);
  larger = λ i j p q e. ground (arith, p, q, e);
}

is_digit : (isdigit b'4' ≡ true) × (isdigit b'2' ≡ true)
unfolding isdigit
is_digit = (refl, refl)

is_stop : isdigit b';' ≡ false
unfolding isdigit
is_stop = refl

is_space : isspace b' ' ≡ true
unfolding isspace
is_space = refl
