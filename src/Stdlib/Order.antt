-- ===== src/Stdlib/Order.antt =====
-- What `sort` asks of its comparison, and the largest of a node and its children.
use projectmod.Base.{
  ℕ, ◌+◌, ◌*◌, ◌/◌, ◌^◌, ◌≤◌, ◌<◌, ◌≡◌, ◌⊎◌, inl, inr, true, false, ◌&&◌, arith, leb, if◌then◌else◌,
  Bool-cases,
}
use projectmod.Stdlib.{Sign, is_above, exceeds, largest, size_t}

-- The comparison orders the elements, equal ones in any way.
pub record Orders {A : Type 0} (compare : A → A → Sign) : Type 0 where
  pub trans :
      (x y z : A)
      → is_above (compare x y) ≡ false
      → is_above (compare y z) ≡ false
      → is_above (compare x z) ≡ false
  pub total : (x y : A) → is_above (compare x y) ≡ true → is_above (compare y x) ≡ false

module _ {A : Type 0} {compare : A → A → Sign} (ord : Orders compare) (array : ℕ → A) where
  pub exceeds_trans :
      (i j k : ℕ)
      → exceeds compare array i j ≡ false
      → exceeds compare array j k ≡ false
      → exceeds compare array i k ≡ false
  unfolding exceeds
  exceeds_trans i j k p q = ord.trans (array i) (array j) (array k) p q

  pub exceeds_total :
      (i j : ℕ) → exceeds compare array i j ≡ true → exceeds compare array j i ≡ false
  unfolding exceeds
  exceeds_total i j p = ord.total (array i) (array j) p

  pub exceeds_self : (i : ℕ) → exceeds compare array i i ≡ false
  exceeds_self i = elim (Bool-cases (exceeds compare array i i)) [
    | inl e ↦ exceeds_total i i e
    | inr e ↦ e
  ]

  exceeds_step :
      (i j k : ℕ)
      → exceeds compare array j i ≡ true
      → exceeds compare array k j ≡ true
      → exceeds compare array k i ≡ true
  exceeds_step i j k p q = elim (Bool-cases (exceeds compare array k i)) [
    | inl e ↦ e
    | inr e ↦ ground (arith, exceeds_trans k i j e (exceeds_total j i p), q)
  ]

  -- `m` is the node itself, or a larger child; no child is larger than it.
  pub record Largest (i cnt m : ℕ) : Type 0 where
    pub own_or_child :
        (m ≡ i) ⊎ ((m / 2 ≡ i) × (i < m) × (m ≤ cnt) × (exceeds compare array m i ≡ true))
    pub most : (c : ℕ) → c ≤ cnt → c / 2 ≡ i → exceeds compare array c m ≡ false

  -- The choice without the wrap-around.
  abbrev choice : ℕ → ℕ → ℕ
  choice i cnt =
      let first = if leb (2 * i) cnt && exceeds compare array (2 * i) i then 2 * i else i in
      if leb (2 * i + 1) cnt && exceeds compare array (2 * i + 1) first then 2 * i + 1 else first

  choice-most : (i cnt c : ℕ) → c ≤ cnt → c / 2 ≡ i → exceeds compare array c (choice i cnt) ≡ false
  choice-most i cnt c p q =
      let l = 2 * i in
      let r = 2 * i + 1 in
      let which : (c ≡ l) ⊎ (c ≡ r) = ground arith in
      elim which [
        | inl e ↦ rw e (
            ground (
              arith,
              exceeds_self l,
              exceeds_total r l,
              exceeds_total r i,
              exceeds_trans l i r,
              exceeds_total i l,
            ))
        | inr e ↦ rw e (
            ground (
              arith,
              exceeds_self r,
              exceeds_total r l,
              exceeds_total r i,
              exceeds_trans r l i,
              exceeds_total i l,
            ))
      ]

  pub largest_lem :
      (i cnt : ℕ) → 0 < i → i ≤ cnt → cnt < 2 ^ 31 → Largest i cnt (largest compare array i cnt)
  unfolding largest
  largest_lem i cnt pos i_le small =
      let l : size_t (2 * i) ≡ 2 * i = omega arith in
      let r : size_t (2 * i + 1) ≡ 2 * i + 1 = omega arith in
      rw (l, r)
        (record {
          own_or_child = ground (arith, exceeds_step i (2 * i) (2 * i + 1));
          most = λ c p q. choice-most i cnt c p q;
        })
