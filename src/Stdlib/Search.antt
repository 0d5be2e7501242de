-- ===== src/Stdlib/Search.antt =====
-- The loop of `binary_search`.
use projectmod.Base.{
  ℕ, zero, suc, ◌+◌, ◌-◌, ◌/◌, ◌≤◌, ◌<◌, ◌≡◌, refl, ◌≢◌, ◌⊎◌, inl, inr, Option, none, some, arith,
  ltb, Bool-cases, ltb→lt,
}
use native.Mathlib.Decide.{dec_lt}
use projectmod.Stdlib.{Sign, below, equal, above, search_loop, binary_search}

Sign-cases : (s : Sign) → (s ≡ below) ⊎ ((s ≡ equal) ⊎ (s ≡ above))
Sign-cases below = inl refl
Sign-cases equal = inr (inl refl)
Sign-cases above = inr (inr refl)

module _ {K A : Type 0} (compare : K → A → Sign) (key : K) (array : ℕ → A) where
  -- The array is sorted, seen from the key: what is before a smaller element is smaller, what is after
  -- a larger one is larger.
  pub record Sorted (cnt : ℕ) : Type 0 where
    pub smaller :
        (i j : ℕ) → i ≤ j → j < cnt → compare key (array j) ≡ above → compare key (array i) ≡ above
    pub larger :
        (i j : ℕ) → i ≤ j → j < cnt → compare key (array i) ≡ below → compare key (array j) ≡ below

  abbrev pub Found : ℕ → Option ℕ → Type 0
  Found cnt r =
      ((m : ℕ) × (r ≡ some m) × (m < cnt) × (compare key (array m) ≡ equal))
      ⊎ ((r ≡ none) × ((j : ℕ) → j < cnt → compare key (array j) ≢ equal))

  search_loop_lem :
      (n first last cnt : ℕ)
      → Sorted cnt
      → last ≤ cnt
      → last - first < n
      → ((j : ℕ) → j < cnt → j < first → compare key (array j) ≡ above)
      → ((j : ℕ) → j < cnt → last ≤ j → compare key (array j) ≡ below)
      → (r : Option ℕ) × (search_loop compare n key array first last ≡ some r) × Found cnt r
  unfolding search_loop
  search_loop_lem zero first last cnt sorted h fuel before after = absurd (omega arith)
  search_loop_lem (suc n) first last cnt sorted h fuel before after =
      elim (Bool-cases (ltb first last)) [
        | inr stop ↦
            rw (stop, search_loop)
              (
                none,
                refl,
                inr (
                  refl,
                  λ j p e. elim (dec_lt j first) [
                    | yes lo ↦ ground (arith, before j p lo, e)
                    | no hi ↦ ground (arith, stop, after j p, e, hi)
                  ],
                ),
              )
        | inl go ↦
            let m = first + (last - first) / 2 in
            let lt : first < last = ltb→lt first last go in
            elim (Sign-cases (compare key (array m))) [
              | inl e ↦
                  let (r, ok, found) =
                    search_loop_lem n first m cnt sorted (omega (arith, lt)) (omega (arith, lt))
                      before (λ j p q. sorted.larger m j q p e) in
                  rw (go, search_loop) (rw (e, search_loop) (r, ok, found))
              | inr (inl e) ↦
                  rw (go, search_loop)
                    (rw (e, search_loop) (some m, refl, inl (m, refl, omega (arith, lt), e)))
              | inr (inr e) ↦
                  let (r, ok, found) =
                    search_loop_lem n (m + 1) last cnt sorted h (omega (arith, lt))
                      (λ j p q. sorted.smaller j m (omega arith) (omega (arith, lt)) e) after in
                  rw (go, search_loop) (rw (e, search_loop) (r, ok, found))
            ]
      ]

-- `binary_search` returns on an array that is sorted as seen from the key: an index of the array whose element equals the key, or the
-- null pointer if no element does.
pub binary_search_lem :
    {K A : Type 0} (compare : K → A → Sign) (key : K) (array : ℕ → A) (cnt : ℕ)
    → Sorted compare key array cnt
    → (r : Option ℕ) × (binary_search compare key array cnt ≡ some r)
      × Found compare key array cnt r
unfolding binary_search
binary_search_lem compare key array cnt sorted =
    search_loop_lem compare key array (suc cnt) 0 cnt cnt sorted (omega arith) (omega arith)
      (λ j p q. absurd (omega arith)) (λ j p q. absurd (omega arith))
