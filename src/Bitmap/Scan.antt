-- ===== src/Bitmap/Scan.antt =====
-- The search for a group of equal bits, and its client that takes the group found.
use projectmod.Base.{
  ℕ, zero, suc, ◌+◌, ◌-◌, ◌≤◌, ◌<◌, ◌≡◌, refl, ◌≢◌, ◌⊎◌, inl, inr, Bool, not, Option, some, arith,
  leb, Bool-cases, subst, le→leb, ne→==, ap, ◌∙◌,
}
use native.Mathlib.Decide.{ℕ_discrete, dec_lt}
use projectmod.Bitmap.{Bitmap, bitmap_error, scan_loop, scan, scan_and_flip}
use projectmod.Bitmap.Bits.{IsValid}
use projectmod.Bitmap.Range.{AllAre, SetsRange, contains_lem, set_multiple_lem}

-- `i` is the first index from `start` on at which `cnt` bits of `b` are all `v`.
pub record FirstFit (b : Bitmap) (start cnt : ℕ) (v : Bool) (i : ℕ) : Type 0 where
  pub from : start ≤ i
  pub within : i + cnt ≤ b.bit_cnt
  pub group : AllAre b i cnt v
  pub first : (k : ℕ) → start ≤ k → k < i → ¬ AllAre b k cnt v

-- No group of `cnt` bits at or after `start` is all `v`.
abbrev pub NoFit : Bitmap → ℕ → ℕ → Bool → Type 0
NoFit b start cnt v = (k : ℕ) → start ≤ k → k + cnt ≤ b.bit_cnt → ¬ AllAre b k cnt v

-- What a scan returns.
abbrev pub Scanned : Bitmap → ℕ → ℕ → Bool → Option ℕ → Type 0
Scanned b start cnt v r =
    ((i : ℕ) × (r ≡ some i) × (i ≢ bitmap_error) × FirstFit b start cnt v i)
    ⊎ ((r ≡ some bitmap_error) × NoFit b start cnt v)

-- An index where the group is broken can be skipped.
module _ (b : Bitmap) (cnt : ℕ) (v : Bool) (i : ℕ) (broken : ¬ AllAre b i cnt v) where
  step_down : (k : ℕ) → i ≤ k → (i + 1 ≤ k → ¬ AllAre b k cnt v) → ¬ AllAre b k cnt v
  step_down k p later = elim (ℕ_discrete i k) [
    | yes e ↦ subst (λ j. ¬ AllAre b j cnt v) e broken
    | no ne ↦ later (omega arith)
  ]

  skip : (r : Option ℕ) → Scanned b (i + 1) cnt v r → Scanned b i cnt v r
  skip r (inl (m, e, ne, fit)) = inl (
    m,
    e,
    ne,
    record {
      from = omega (arith, fit.from);
      within = fit.within;
      group = fit.group;
      first = λ k p q. step_down k p (λ p'. fit.first k p' q);
    },
  )
  skip r (inr (e, no_fit)) = inr (e, λ k p q. step_down k p (λ p'. no_fit k p' q))

module _ {b : Bitmap} (valid : IsValid b) (cnt : ℕ) (v : Bool) where
  scan_loop_lem :
      (n i : ℕ)
      → cnt ≤ b.bit_cnt
      → n ≡ b.bit_cnt - cnt + 1 - i
      → Scanned b i cnt v (scan_loop n b i cnt v)
  unfolding scan_loop
  scan_loop_lem zero i le h = inr (refl, λ k p q. absurd (omega arith))
  scan_loop_lem (suc n) i le h = elim (contains_lem valid i cnt (omega arith) (not v)) [
    | inl (r, (j, p, q, hit)) ↦ rw r (
        skip b cnt v i (λ all. ground (arith, all j p q, hit)) (scan_loop n b (i + 1) cnt v)
          (scan_loop_lem n (i + 1) le (omega arith)))
    | inr (r, rest) ↦ rw r (
        inl (
          i,
          refl,
          omega (arith, valid.fits),
          record {
            from = omega arith;
            within = omega arith;
            group = λ j p q. ground (arith, rest j);
            first = λ k p q. absurd (omega arith);
          },
        ))
  ]

  -- Scanning a valid bitmap returns, for a start within it: the first index at or after the start
  -- at which the wanted number of bits have the wanted value, or BITMAP_ERROR, exactly if there is
  -- no such index.
  pub scan_lem : (start : ℕ) → start ≤ b.bit_cnt → Scanned b start cnt v (scan b start cnt v)
  unfolding scan
  scan_lem start h = rw (le→leb start b.bit_cnt h) (elim (Bool-cases (leb cnt b.bit_cnt)) [
    | inl fits ↦ rw fits (scan_loop_lem (b.bit_cnt - cnt + 1 - start) start (ground arith) refl)
    | inr large ↦ rw large (inr (refl, λ k p q. absurd (ground arith)))
  ])

-- The bitmap that scan-and-flip leaves: the group that was found is inverted and nothing else is,
-- or nothing changes.
abbrev pub Flipped : Bitmap → ℕ → ℕ → Bool → Option (ℕ × Bitmap) → Type 0
Flipped b start cnt v r =
    ((i : ℕ) × (b' : Bitmap) × (r ≡ some (i, b'))
      × (i ≢ bitmap_error)
      × FirstFit b start cnt v i
      × SetsRange b i cnt (not v) b')
    ⊎ ((r ≡ some (bitmap_error, b)) × NoFit b start cnt v)

-- The first group is inverted, or there is none.
pub flipped_lem :
    {b : Bitmap}
    → IsValid b
    → (start cnt : ℕ) (v : Bool) → start ≤ b.bit_cnt
    → Flipped b start cnt v (scan_and_flip b start cnt v)
unfolding scan_and_flip
flipped_lem {b} valid start cnt v h = elim (scan_lem valid cnt v start h) [
  | inl (i, e, ne, fit) ↦
      let (b', ok, sets) = set_multiple_lem valid i cnt fit.within (not v) in
      inl (i, b', rw (e, ne→== i bitmap_error ne, ok), ne, fit, sets)
  | inr (e, no_fit) ↦ inr (rw e, no_fit)
]

-- Scanning and flipping returns, for a start within the bitmap: the first group at or after the
-- start, inverted, with every other bit kept, or BITMAP_ERROR and the same bitmap, if there is no
-- such group. A group of no bits is found at the start, and not at 0, as the comment on
-- `bitmap_scan_and_flip` has it.
pub scan_and_flip_lem :
    {b : Bitmap}
    → IsValid b
    → (start cnt : ℕ) (v : Bool) → start ≤ b.bit_cnt
    → Flipped b start cnt v (scan_and_flip b start cnt v)
      × ((cnt ≢ 0) ⊎ ((b' : Bitmap) × (scan_and_flip b start cnt v ≡ some (start, b'))))
scan_and_flip_lem {b} valid start cnt v h =
    let flipped = flipped_lem valid start cnt v h in
    (
      flipped,
      elim (ℕ_discrete cnt 0) [
        | no ne ↦ inl ne
        | yes z ↦ inr (elim flipped [
          | inl (i, b', e, ne, fit, sets) ↦
              let at : i ≡ start = elim (dec_lt start i) [
                | yes before ↦
                    absurd (fit.first start (omega arith) before (λ j p q. absurd (omega arith)))
                | no late ↦ omega (arith, fit.from)
              ] in
              (b', e ∙ ap (λ k. some (k, b')) at)
          | inr (e, no_fit) ↦
              absurd (no_fit start (omega arith) (omega arith) (λ j p q. absurd (omega arith)))
        ])
      ],
    )
