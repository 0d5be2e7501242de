-- ===== src/Bitmap/Range.antt =====
-- The operations on a range of bits, against the bits one by one.
use projectmod.Base.{
  ℕ, zero, suc, ◌+◌, ◌≤◌, ◌<◌, ◌≡◌, refl, ◌⊎◌, inl, inr, Bool, true, false, not, ◌&&◌, Option, some,
  arith, ltb, leb, same, if◌then◌else◌, Bool-cases, ◌∙◌, ap,
}
use projectmod.Bitmap.{
  Bitmap, add_size, set_loop, set_multiple, set_all, count_loop, count, contains_loop, contains,
  assert_range,
}
use projectmod.Bitmap.Bits.{bit, IsValid, set_lem, test_lem}

-- `j` is one of the `cnt` indices from `start` on.
abbrev pub in_range : ℕ → ℕ → ℕ → Bool
in_range start cnt j = leb start j && ltb j (start + cnt)

-- What an operation that writes `v` to the bits of a range returns.
pub record SetsRange (b : Bitmap) (start cnt : ℕ) (v : Bool) (b' : Bitmap) : Type 0 where
  pub size : b'.bit_cnt ≡ b.bit_cnt
  pub valid : IsValid b'
  pub bits : (j : ℕ) → bit b' j ≡ (if in_range start cnt j then v else bit b j)

set_loop_lem :
    (n : ℕ) {b : Bitmap} (start i : ℕ) (v : Bool)
    → IsValid b
    → start + i + n ≤ b.bit_cnt
    → (b' : Bitmap) × (set_loop n b start i v ≡ some b') × SetsRange b (start + i) n v b'
unfolding set_loop
set_loop_lem zero {b} start i v valid h =
    (b, refl, record { size = refl; valid = valid; bits = λ j. ground arith })
set_loop_lem (suc n) {b} start i v valid h =
    let e : add_size start i ≡ start + i = omega (arith, valid.fits) in
    rw e (
      let (b', ok, one) = set_lem valid (start + i) v (omega arith) in
      let (b'', ok', rest) = set_loop_lem n start (i + 1) v one.valid (omega (arith, one.size)) in
      (
        b'',
        rw ok ok',
        record {
          size = rest.size ∙ one.size;
          valid = rest.valid;
          bits = λ j. rw (rest.bits j, one.bits j) (ground arith);
        },
      ))

module _ {b : Bitmap} (valid : IsValid b) (start cnt : ℕ) (h : start + cnt ≤ b.bit_cnt) where
  range_ok : assert_range b start cnt ≡ some tt
  range_ok =
      let e : add_size start cnt ≡ start + cnt = omega (arith, valid.fits) in rw e (ground arith)

  -- Setting a range of bits that lies within a valid bitmap succeeds, writes the bits of the range and leaves
  -- every other bit, the size and the invariant alone.
  pub set_multiple_lem :
      (v : Bool)
      → (b' : Bitmap) × (set_multiple b start cnt v ≡ some b') × SetsRange b start cnt v b'
  unfolding set_multiple
  set_multiple_lem v =
      let e : start + 0 ≡ start = omega arith in
      rw range_ok (rw e at (set_loop_lem cnt start 0 v valid (omega arith)))

-- `bitmap_set_all` writes every bit.
pub set_all_lem :
    {b : Bitmap} (v : Bool)
    → IsValid b
    → (b' : Bitmap) × (set_all b v ≡ some b') × SetsRange b 0 b.bit_cnt v b'
unfolding set_all
set_all_lem {b} v valid = set_multiple_lem valid 0 b.bit_cnt (omega arith) v

-- The number of indices from `i` on, `n` of them, at which `p` is `v`.
unfoldable pub matches : (ℕ → Bool) → Bool → ℕ → ℕ → ℕ
matches p v i zero = 0
matches p v i (suc n) = (if same (p i) v then 1 else 0) + matches p v (i + 1) n

count_loop_lem :
    (n : ℕ) {b : Bitmap} (start i : ℕ) (v : Bool) (acc : ℕ)
    → IsValid b
    → start + i + n ≤ b.bit_cnt
    → count_loop n b start i v acc ≡ some (acc + matches (bit b) v (start + i) n)
unfolding count_loop matches
count_loop_lem zero start i v acc valid h = ap some (omega arith)
count_loop_lem (suc n) {b} start i v acc valid h =
    let e : add_size start i ≡ start + i = omega (arith, valid.fits) in
    let e' : start + (i + 1) ≡ start + i + 1 = omega arith in
    rw
      (
        e,
        test_lem valid (start + i) (omega arith),
        count_loop_lem n start (i + 1) v (if same (bit b (start + i)) v then acc + 1 else acc) valid
            (omega arith),
        e',
      )
      (ground arith)

-- Every bit of the range is `v`.
abbrev pub AllAre : Bitmap → ℕ → ℕ → Bool → Type 0
AllAre b start cnt v = (j : ℕ) → start ≤ j → j < start + cnt → bit b j ≡ v

-- The two outcomes of a search for a bit that is `v`.
abbrev pub Searched : Bitmap → ℕ → ℕ → Bool → Option Bool → Type 0
Searched b start cnt v r =
    ((r ≡ some true) × ((j : ℕ) × (start ≤ j) × (j < start + cnt) × (bit b j ≡ v)))
    ⊎ ((r ≡ some false) × AllAre b start cnt (not v))

contains_loop_lem :
    (n : ℕ) {b : Bitmap} (start i : ℕ) (v : Bool)
    → IsValid b
    → start + i + n ≤ b.bit_cnt
    → Searched b (start + i) n v (contains_loop n b start i v)
unfolding contains_loop
contains_loop_lem zero start i v valid h = inr (refl, λ j p q. absurd (omega arith))
contains_loop_lem (suc n) {b} start i v valid h =
    let e : add_size start i ≡ start + i = omega (arith, valid.fits) in
    let e' : start + (i + 1) ≡ start + i + 1 = omega arith in
    rw (e, test_lem valid (start + i) (omega arith))
      (elim (Bool-cases (same (bit b (start + i)) v)) [
        | inl hit ↦ inl (ground (arith, hit), (start + i, omega arith, omega arith, ground arith))
        | inr miss ↦ elim (rw e' at (contains_loop_lem n start (i + 1) v valid (omega arith))) [
          | inl (r, (j, p, q, hit)) ↦ inl (ground (arith, r), (j, omega arith, omega arith, hit))
          | inr (r, rest) ↦ inr (ground (arith, r), λ j p q. ground (arith, rest j))
        ]
      ])

module _ {b : Bitmap} (valid : IsValid b) (start cnt : ℕ) (h : start + cnt ≤ b.bit_cnt) where
  -- Counting the bits that are `v` in a range within a valid bitmap returns their number.
  pub count_lem : (v : Bool) → count b start cnt v ≡ some (matches (bit b) v start cnt)
  unfolding count
  count_lem v =
      let e : start + 0 ≡ start = omega arith in
      rw (range_ok valid start cnt h)
        (rw e at (count_loop_lem cnt start 0 v 0 valid (omega arith)) ∙ ap some (omega arith))

  -- Searching a range within a valid bitmap for a bit that is `v` returns, and says whether there is
  -- one.
  pub contains_lem : (v : Bool) → Searched b start cnt v (contains b start cnt v)
  unfolding contains
  contains_lem v =
      let e : start + 0 ≡ start = omega arith in
      rw (range_ok valid start cnt h)
        (rw e at (contains_loop_lem cnt start 0 v valid (omega arith)))
