-- ===== src/Bitmap/Queries.antt =====
-- The tests of a whole range, and a bitmap that is created.
use projectmod.Base.{
  ℕ, ◌+◌, ◌≤◌, ◌<◌, ◌≡◌, ◌⊎◌, inl, inr, true, false, some, List, arith, length, ◌^◌,
}
use projectmod.Bitmap.{Bitmap, any, none_set, all, create, elem_cnt}
use projectmod.Bitmap.Bits.{bit, IsValid}
use projectmod.Bitmap.Range.{AllAre, contains_lem, set_all_lem}

module _ {b : Bitmap} (valid : IsValid b) (start cnt : ℕ) (h : start + cnt ≤ b.bit_cnt) where
  -- For a range within a valid bitmap, `bitmap_all` says whether every bit is set; if it says no,
  -- some bit of the range is clear.
  pub all_lem :
      ((all b start cnt ≡ some true) × AllAre b start cnt true)
      ⊎ ((all b start cnt ≡ some false)
          × ((j : ℕ) × (start ≤ j) × (j < start + cnt) × (bit b j ≡ false)))
  unfolding all
  all_lem = elim (contains_lem valid start cnt h false) [
    | inl (e, found) ↦ inr (rw e, found)
    | inr (e, clear) ↦ inl (rw e, clear)
  ]

  -- For a range within a valid bitmap, `bitmap_any` says whether some bit is set and `bitmap_none`
  -- the opposite; if no bit is, every bit is clear.
  pub any-none_lem :
      ((any b start cnt ≡ some true)
        × (none_set b start cnt ≡ some false)
        × ((j : ℕ) × (start ≤ j) × (j < start + cnt) × (bit b j ≡ true)))
      ⊎ ((any b start cnt ≡ some false)
          × (none_set b start cnt ≡ some true)
          × AllAre b start cnt false)
  unfolding any none_set
  any-none_lem = elim (contains_lem valid start cnt h true) [
    | inl (e, found) ↦ inl (e, rw e, found)
    | inr (e, clear) ↦ inr (e, rw e, clear)
  ]

-- With the words that its size needs as storage for the bits, the size not so large that it wraps, `bitmap_create` returns a valid bitmap of the wanted size with every
-- bit clear, whatever the storage held.
pub create_lem :
    (bits : List ℕ) (cnt : ℕ)
    → length bits ≡ elem_cnt cnt
    → cnt + 31 < 2 ^ 32
    → (b : Bitmap) × (create true (some bits) cnt ≡ some (some b))
      × IsValid b
      × (b.bit_cnt ≡ cnt)
      × ((i : ℕ) → i < cnt → bit b i ≡ false)
unfolding create
create_lem bits cnt room fits =
    let (b, ok, sets) =
      set_all_lem {b = record { bit_cnt = cnt; bits = bits }} false
        (record { room = room; fits = fits }) in
    (b, rw ok, sets.valid, sets.size, λ i h. rw (sets.bits i) (ground arith))
