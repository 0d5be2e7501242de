-- ===== src/Bitmap/Bits.antt =====
-- The abstract view of a bitmap: `bit b i` is bit number `i`.
use projectmod.Base.{
  ℕ, ◌+◌, ◌-◌, ◌/◌, ◌%◌, ◌^◌, ◌<◌, ◌≡◌, refl, Bool, true, false, not, some, arith, ◌==◌,
  if◌then◌else◌, length, get_or, lt→ltb, set as set_elem, length-set, get_elem?-eq-get_or,
  get_or-set,
}
use projectmod.Base.Digits.{
  test_bit, test_bit-or, test_bit-and, test_bit-xor, test_bit-pow, test_bit-complement,
  bit_and-pow-eq-zero, pow-lt,
}
use mathlib.Core.Bool.{xor}
use projectmod.Bitmap.{Bitmap, elem_bits, bit_mask, elem_cnt, update, mark, reset, flip, set, test}

abbrev pub word : Bitmap → ℕ → ℕ
word b k = get_or b.bits k 0

unfoldable pub bit : Bitmap → ℕ → Bool
bit b i = test_bit (word b (i / elem_bits)) (i % elem_bits)

-- The array has a word for every bit, and its size does not wrap.
pub record IsValid (b : Bitmap) : Type 0 where
  pub room : length b.bits ≡ elem_cnt b.bit_cnt
  pub fits : b.bit_cnt + 31 < 2 ^ 32

-- What an operation that changes one bit returns.
pub record SetsBit (b : Bitmap) (i : ℕ) (v : Bool) (b' : Bitmap) : Type 0 where
  pub size : b'.bit_cnt ≡ b.bit_cnt
  pub valid : IsValid b'
  pub bits : (j : ℕ) → bit b' j ≡ (if j == i then v else bit b j)

module _ {b : Bitmap} (valid : IsValid b) where
  in_array : (i : ℕ) → i < b.bit_cnt → i / elem_bits < length b.bits
  unfolding elem_cnt
  in_array i h = omega (arith, valid.room, valid.fits)

  -- An update of the word of bit `i` that changes that bit alone, to `v`.
  update-SetsBit :
      (i : ℕ) (v : Bool) (f : ℕ → ℕ)
      → i < b.bit_cnt
      → ((k : ℕ)
          → k < 32
          → test_bit (f (word b (i / 32))) k
            ≡ (if k == i % 32 then v else test_bit (word b (i / 32)) k))
      → (b' : Bitmap) × (update b (i / 32) f ≡ some b') × SetsBit b i v b'
  unfolding update bit
  update-SetsBit i v f h g = (
    record b { bits = set_elem b.bits (i / 32) (f (word b (i / 32))) },
    rw (get_elem?-eq-get_or b.bits (i / 32) 0 (in_array i h)),
    record {
      size = refl;
      valid = record {
        room = omega (arith, length-set b.bits (i / 32) (f (word b (i / 32))), valid.room);
        fits = valid.fits;
      };
      bits = λ j.
          rw (get_or-set b.bits (i / 32) (j / 32) (f (word b (i / 32))) 0 (in_array i h))
            (ground (arith, g (j % 32)));
    },
  )

  pub mark_lem :
      (i : ℕ) → i < b.bit_cnt → (b' : Bitmap) × (mark b i ≡ some b') × SetsBit b i true b'
  unfolding mark
  mark_lem i h =
      update-SetsBit i true _ h λ k kh.
        ground (arith, test_bit-or (word b (i / 32)) (bit_mask i) k, test_bit-pow (i % 32) k)

  pub reset_lem :
      (i : ℕ) → i < b.bit_cnt → (b' : Bitmap) × (reset b i ≡ some b') × SetsBit b i false b'
  unfolding reset
  reset_lem i h = update-SetsBit i false _ h λ k kh. ground (
    arith,
    test_bit-and (word b (i / 32)) (2 ^ 32 - 1 - bit_mask i) k,
    test_bit-complement 32 (bit_mask i) k (pow-lt (i % 32) 32 (omega arith)) kh,
    test_bit-pow (i % 32) k,
  )

  -- `bitmap_flip` toggles a bit of a valid bitmap and leaves the others, the size and the validity.
  pub flip_lem :
      (i : ℕ)
      → i < b.bit_cnt
      → (b' : Bitmap) × (flip b i ≡ some b') × SetsBit b i (not (bit b i)) b'
  unfolding flip bit xor
  flip_lem i h =
      update-SetsBit i (not (bit b i)) _ h λ k kh.
        ground (arith, test_bit-xor (word b (i / 32)) (bit_mask i) k, test_bit-pow (i % 32) k)

  -- `bitmap_set` writes a bit of a valid bitmap and leaves the others, the size and the validity.
  pub set_lem :
      (i : ℕ) (v : Bool) → i < b.bit_cnt → (b' : Bitmap) × (set b i v ≡ some b') × SetsBit b i v b'
  unfolding set
  set_lem i true h = rw (lt→ltb i b.bit_cnt h) (mark_lem i h)
  set_lem i false h = rw (lt→ltb i b.bit_cnt h) (reset_lem i h)

  -- `bitmap_test` reads a bit.
  pub test_lem : (i : ℕ) → i < b.bit_cnt → test b i ≡ some (bit b i)
  unfolding test bit
  test_lem i h =
      rw
        (
          lt→ltb i b.bit_cnt h,
          get_elem?-eq-get_or b.bits (i / 32) 0 (in_array i h),
          bit_and-pow-eq-zero (i % 32) (word b (i / 32)),
        )
        (ground arith)
