-- ===== src/Bitmap.antt =====
-- lib/kernel/bitmap.c: an array of bits, kept in an array of 32-bit words (`unsigned long` on the
-- i386). A function that updates `*b` returns the new bitmap; `none` is a failed ASSERT or an
-- access outside the array. `size_t` sums are taken modulo 2^32. The bit instructions `orl`,
-- `andl` and `xorl` are the native operations on words.
pub mod Bits
pub mod Range
pub mod Scan
pub mod Queries
mod Tests
use projectmod.Base.{
  ℕ, zero, suc, ◌+◌, ◌-◌, ◌/◌, ◌%◌, ◌*◌, ◌^◌, Bool, true, false, not, Option, none, some, List, [],
  bit_and, bit_or, bit_xor, ltb, leb, ◌==◌, same, if◌then◌else◌, ◌>>=◌, ◌>>◌, assert, get_elem?,
  set as set_elem,
}

-- `struct bitmap`
pub record Bitmap : Type 0 where
  pub bit_cnt : ℕ
  pub bits : List ℕ

abbrev pub elem_bits : ℕ
elem_bits = 32

-- BITMAP_ERROR, SIZE_MAX
abbrev pub bitmap_error : ℕ
bitmap_error = 2 ^ 32 - 1

-- `size_t` addition
abbrev pub add_size : ℕ → ℕ → ℕ
add_size a b = (a + b) % 2 ^ 32

abbrev pub elem_idx : ℕ → ℕ
elem_idx bit_idx = bit_idx / elem_bits

abbrev pub bit_mask : ℕ → ℕ
bit_mask bit_idx = 2 ^ (bit_idx % elem_bits)

-- DIV_ROUND_UP (bit_cnt, ELEM_BITS)
unfoldable pub elem_cnt : ℕ → ℕ
elem_cnt bit_cnt = add_size bit_cnt (elem_bits - 1) / elem_bits

unfoldable pub byte_cnt : ℕ → ℕ
byte_cnt bit_cnt = 4 * elem_cnt bit_cnt

unfoldable pub last_mask : Bitmap → ℕ
last_mask b =
    let last_bits = b.bit_cnt % elem_bits in
    if last_bits == 0 then 2 ^ 32 - 1 else 2 ^ last_bits - 1

-- `b->bits[idx] = f (b->bits[idx])`
unfoldable pub update : Bitmap → ℕ → (ℕ → ℕ) → Option Bitmap
update b idx f = do w ← get_elem? b.bits idx; some (record b { bits = set_elem b.bits idx (f w) })

unfoldable pub mark : Bitmap → ℕ → Option Bitmap
mark b bit_idx = update b (elem_idx bit_idx) (λ w. bit_or w (bit_mask bit_idx))

unfoldable pub reset : Bitmap → ℕ → Option Bitmap
reset b bit_idx = update b (elem_idx bit_idx) (λ w. bit_and w (2 ^ 32 - 1 - bit_mask bit_idx))

unfoldable pub flip : Bitmap → ℕ → Option Bitmap
flip b bit_idx = update b (elem_idx bit_idx) (λ w. bit_xor w (bit_mask bit_idx))

unfoldable pub set : Bitmap → ℕ → Bool → Option Bitmap
set b idx value = do assert (ltb idx b.bit_cnt); if value then mark b idx else reset b idx

unfoldable pub test : Bitmap → ℕ → Option Bool
test b idx = do
  assert (ltb idx b.bit_cnt)
  w ← get_elem? b.bits (elem_idx idx)
  some (not (bit_and w (bit_mask idx) == 0))

-- `for (i = 0; i < cnt; i++) bitmap_set (b, start + i, value)` with `n` rounds left
unfoldable pub set_loop : ℕ → Bitmap → (start i : ℕ) → Bool → Option Bitmap
set_loop zero b start i value = some b
set_loop (suc n) b start i value =
    set b (add_size start i) value >>= λ b'. set_loop n b' start (i + 1) value

-- The two ASSERTs that open every operation on a range.
abbrev pub assert_range : Bitmap → ℕ → ℕ → Option (Unit {0})
assert_range b start cnt =
    assert (leb start b.bit_cnt) >> assert (leb (add_size start cnt) b.bit_cnt)

unfoldable pub set_multiple : Bitmap → ℕ → ℕ → Bool → Option Bitmap
set_multiple b start cnt value = do assert_range b start cnt; set_loop cnt b start 0 value

unfoldable pub set_all : Bitmap → Bool → Option Bitmap
set_all b value = set_multiple b 0 b.bit_cnt value

unfoldable pub count_loop : ℕ → Bitmap → (start i : ℕ) → Bool → ℕ → Option ℕ
count_loop zero b start i value value_cnt = some value_cnt
count_loop (suc n) b start i value value_cnt = test b (add_size start i) >>= λ bit.
    count_loop n b start (i + 1) value (if same bit value then value_cnt + 1 else value_cnt)

unfoldable pub count : Bitmap → ℕ → ℕ → Bool → Option ℕ
count b start cnt value = do assert_range b start cnt; count_loop cnt b start 0 value 0

unfoldable pub contains_loop : ℕ → Bitmap → (start i : ℕ) → Bool → Option Bool
contains_loop zero b start i value = some false
contains_loop (suc n) b start i value = test b (add_size start i) >>= λ bit. elim (same bit value) [
  | true ↦ some true
  | false ↦ contains_loop n b start (i + 1) value
]

unfoldable pub contains : Bitmap → ℕ → ℕ → Bool → Option Bool
contains b start cnt value = do assert_range b start cnt; contains_loop cnt b start 0 value

unfoldable pub any : Bitmap → ℕ → ℕ → Option Bool
any b start cnt = contains b start cnt true

-- `bitmap_none`
unfoldable pub none_set : Bitmap → ℕ → ℕ → Option Bool
none_set b start cnt = contains b start cnt true >>= λ found. some (not found)

unfoldable pub all : Bitmap → ℕ → ℕ → Option Bool
all b start cnt = contains b start cnt false >>= λ found. some (not found)

-- `for (i = start; i <= last; i++)` with `n` values of `i` left
unfoldable pub scan_loop : ℕ → Bitmap → (i cnt : ℕ) → Bool → Option ℕ
scan_loop zero b i cnt value = some bitmap_error
scan_loop (suc n) b i cnt value = contains b i cnt (not value) >>= λ found. elim found [
  | true ↦ scan_loop n b (i + 1) cnt value
  | false ↦ some i
]

unfoldable pub scan : Bitmap → ℕ → ℕ → Bool → Option ℕ
scan b start cnt value = do
  assert (leb start b.bit_cnt)
  if leb cnt b.bit_cnt
      then scan_loop (b.bit_cnt - cnt + 1 - start) b start cnt value
      else some bitmap_error

-- The index found, or BITMAP_ERROR, and the bitmap after the bits are flipped.
unfoldable pub scan_and_flip : Bitmap → ℕ → ℕ → Bool → Option (ℕ × Bitmap)
scan_and_flip b start cnt value = do
  idx ← scan b start cnt value
  if idx == bitmap_error
      then some (idx, b)
      else (set_multiple b idx cnt (not value) >>= λ b'. some (idx, b'))

-- The success path of `bitmap_create`, with the storage of the bits in place.
create_clear : ℕ → List ℕ → Option (Option Bitmap)
create_clear bit_cnt bits =
    set_all (record { bit_cnt = bit_cnt; bits = bits }) false >>= λ b. some (some b)

create_in : ℕ → Option (List ℕ) → Option (Option Bitmap)
create_in bit_cnt (some bits) = create_clear bit_cnt bits
create_in bit_cnt none = if bit_cnt == 0 then create_clear bit_cnt [] else some none

-- `bitmap_create`: the first two arguments are what the calls of `malloc` return, the header (or
-- a null pointer) and the storage of the bits, with arbitrary contents (or a null pointer). The
-- inner option is the pointer that is returned.
unfoldable pub create : Bool → Option (List ℕ) → ℕ → Option (Option Bitmap)
unfolding create_in create_clear
create got_struct storage bit_cnt = if got_struct then create_in bit_cnt storage else some none
