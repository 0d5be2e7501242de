-- ===== src/Stdlib.antt =====
-- lib/stdlib.c: the heap sort, the binary search and atoi. An array is a function from indices to its
-- elements, and an element is what the SIZE bytes at its index are: the loops over those bytes, and
-- the comparison's AUX, are left out.
pub mod Order
mod Heap
mod Count
mod Sort
mod Search
pub mod Number
mod Tests
use projectmod.Base.{
  ℕ, zero, suc, ◌+◌, ◌-◌, ◌*◌, ◌/◌, ◌%◌, ◌^◌, Bool, true, false, ◌&&◌, ◌||◌, Option, none, some,
  List, [], ◌∷◌, ◌==◌, ltb, leb, if◌then◌else◌, ◌>>=◌,
}

-- What a comparison returns: less than zero, zero, or more.
pub data Sign : Type 0 where
  below : Sign
  equal : Sign
  above : Sign

unfoldable pub is_above : Sign → Bool
is_above below = false
is_above equal = false
is_above above = true

-- Sums and products of `size_t`
abbrev pub size_t : ℕ → ℕ
size_t n = n % 2 ^ 32

module _ {A : Type 0} where
  -- `do_swap`, at 1-based indices
  abbrev pub do_swap : (ℕ → A) → ℕ → ℕ → ℕ → A
  do_swap array a b k = if k == a then array b else (if k == b then array a else array k)

-- `heapify` and `sort` on `compare`; arrays are 1-based here.
module _ {A : Type 0} (compare : A → A → Sign) where
  -- Whether `do_compare` is more than zero.
  unfoldable pub exceeds : (ℕ → A) → ℕ → ℕ → Bool
  unfolding is_above
  exceeds array a b = is_above (compare (array a) (array b))

  -- The index of the largest element among `i` and its children.
  unfoldable pub largest : (ℕ → A) → (i cnt : ℕ) → ℕ
  unfolding exceeds
  largest array i cnt =
      let left = size_t (2 * i) in
      let right = size_t (2 * i + 1) in
      let first = if leb left cnt && exceeds array left i then left else i in
      if leb right cnt && exceeds array right first then right else first

  -- `heapify`, with fuel for its rounds
  unfoldable pub heapify : ℕ → (ℕ → A) → (i cnt : ℕ) → Option (ℕ → A)
  unfolding largest
  heapify zero array i cnt = none
  heapify (suc n) array i cnt =
      let next = largest array i cnt in
      elim (next == i) [ true ↦ some array | false ↦ heapify n (do_swap array i next) next cnt ]

  -- The loops of `sort`: from `i` down to 1, and from `i` down to 2.
  unfoldable pub build : ℕ → (cnt : ℕ) → (ℕ → A) → Option (ℕ → A)
  unfolding heapify
  build zero cnt array = some array
  build (suc i) cnt array = heapify (suc cnt) array (suc i) cnt >>= build i cnt

  unfoldable pub sort_loop : ℕ → (ℕ → A) → Option (ℕ → A)
  unfolding heapify
  sort_loop zero array = some array
  sort_loop (suc zero) array = some array
  sort_loop (suc (suc i)) array =
      heapify (suc (suc i)) (do_swap array 1 (suc (suc i))) 1 (suc i) >>= sort_loop (suc i)

  unfoldable pub sort : (ℕ → A) → ℕ → Option (ℕ → A)
  unfolding build sort_loop
  sort array cnt = build (cnt / 2) cnt array >>= sort_loop cnt

-- `binary_search` between the indices `first` and `last`, with fuel for its rounds; `none` inside is
-- the null pointer. Arrays are 0-based here.
module _ {K A : Type 0} (compare : K → A → Sign) where
  unfoldable pub search_loop : ℕ → K → (ℕ → A) → (first last : ℕ) → Option (Option ℕ)
  search_loop zero key array first last = none
  search_loop (suc n) key array first last = elim (ltb first last) [
    | false ↦ some none
    | true ↦
        let range = last - first in
        let middle = first + range / 2 in
        elim (compare key (array middle)) [
          | below ↦ search_loop n key array first middle
          | above ↦ search_loop n key array (middle + 1) last
          | equal ↦ some (some middle)
        ]
  ]

  unfoldable pub binary_search : K → (ℕ → A) → ℕ → Option (Option ℕ)
  unfolding search_loop
  binary_search key array cnt = search_loop (suc cnt) key array 0 cnt

-- isspace and isdigit of lib/ctype.h, on characters
unfoldable pub isspace : ℕ → Bool
isspace c = (c == b' ') || ((c == 12) || ((c == 10) || ((c == 13) || ((c == 9) || (c == 11)))))

unfoldable pub isdigit : ℕ → Bool
isdigit c = leb b'0' c && leb c b'9'

-- The loops of `atoi`; a string is the list of its characters before the null.
unfoldable pub skip_space : List ℕ → List ℕ
unfolding isspace
skip_space [] = []
skip_space (c ∷ s) = let rest = skip_space s in if isspace c then rest else c ∷ s

-- An `int` is its two's complement in 32 bits; `value` is never positive.
unfoldable pub digits_loop : List ℕ → ℕ → ℕ
unfolding isdigit
digits_loop [] value = value
digits_loop (c ∷ s) value =
    let rest = digits_loop s ((value * 10 + 2 ^ 32 - (c - b'0')) % 2 ^ 32) in
    if isdigit c then rest else value

unfoldable pub parse_sign : List ℕ → Bool × List ℕ
parse_sign [] = (false, [])
parse_sign (c ∷ s) =
    if c == b'+' then (false, s) else (if c == b'-' then (true, s) else (false, c ∷ s))

unfoldable pub atoi : List ℕ → ℕ
unfolding skip_space parse_sign digits_loop
atoi s =
    let (negative, t) = parse_sign (skip_space s) in
    let value = digits_loop t 0 in if negative then value else (2 ^ 32 - value) % 2 ^ 32
