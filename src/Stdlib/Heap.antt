-- ===== src/Stdlib/Heap.antt =====
-- `heapify` on a heap that is one but for an element.
use projectmod.Base.{
  ℕ, zero, suc, ◌+◌, ◌/◌, ◌^◌, ◌≤◌, ◌<◌, ◌≡◌, refl, ◌≢◌, ◌⊎◌, inl, inr, Bool, false, ◌&&◌, some,
  arith, leb, Bool-cases, ◌∙◌, sym, eq→==, ne→==,
}
use native.Mathlib.Decide.{ℕ_discrete}
use projectmod.Stdlib.{Sign, exceeds, largest, heapify, do_swap}
use projectmod.Stdlib.Order.{Orders, exceeds_total, Largest, largest_lem}
use projectmod.Stdlib.Count.{count, count-do_swap}

-- The elements `i` to `cnt` are those of another array, in another order; the rest is the same.
pub record Rearranges {A : Type 0} (i cnt : ℕ) (a b : ℕ → A) : Type 0 where
  pub outside : (k : ℕ) → (k < i) ⊎ (cnt < k) → b k ≡ a k
  pub from : (k : ℕ) → i ≤ k → k ≤ cnt → (j : ℕ) × (i ≤ j) × (j ≤ cnt) × (b k ≡ a j)
  pub counts : (test : A → Bool) (n : ℕ) → cnt ≤ n → count test n b ≡ count test n a

module _ {A : Type 0} where
  pub Rearranges-refl : (i cnt : ℕ) (a : ℕ → A) → Rearranges i cnt a a
  Rearranges-refl i cnt a = record {
    outside = λ k p. refl;
    from = λ k p q. (k, p, q, refl);
    counts = λ test n p. refl;
  }

  -- The second may concern a part only.
  pub Rearranges-trans :
      {i j cnt cnt' : ℕ} {a b c : ℕ → A}
      → i ≤ j
      → cnt' ≤ cnt
      → Rearranges i cnt a b
      → Rearranges j cnt' b c
      → Rearranges i cnt a c
  Rearranges-trans {i} {j} {cnt} {cnt'} h h' f g = record {
    outside = λ k p. elim p [
      | inl q ↦ g.outside k (inl (omega arith)) ∙ f.outside k (inl q)
      | inr q ↦ g.outside k (inr (omega arith)) ∙ f.outside k (inr q)
    ];
    from = λ k p q. elim (Bool-cases (leb j k && leb k cnt')) [
      | inl inside ↦
          let (m, lo, hi, e) = g.from k (ground (arith, inside)) (ground (arith, inside)) in
          let (m', lo', hi', e') = f.from m (omega arith) (omega arith) in (m', lo', hi', e ∙ e')
      | inr out ↦
          let (m', lo', hi', e') = f.from k p q in
          (m', lo', hi', g.outside k (ground (arith, out)) ∙ e')
    ];
    counts = λ test n p. g.counts test n (omega arith) ∙ f.counts test n p;
  }

  pub do_swap-Rearranges :
      (i cnt x y : ℕ) (a : ℕ → A)
      → 0 < i
      → i ≤ x
      → x ≤ cnt
      → i ≤ y
      → y ≤ cnt
      → Rearranges i cnt a (do_swap a x y)
  do_swap-Rearranges i cnt x y a pos p q r t = record {
    outside = λ k out. ground (arith, out);
    from = λ k lo hi. elim (ℕ_discrete k x) [
      | yes e ↦ (y, r, t, ground (arith, e))
      | no ne ↦ elim (ℕ_discrete k y) [
        | yes e ↦ (x, p, q, ground (arith, e, ne))
        | no ne' ↦ (k, lo, hi, ground (arith, ne, ne'))
      ]
    ];
    counts = λ test n h.
        count-do_swap test n x y a (omega arith) (omega arith) (omega arith) (omega arith);
  }

module _ {A : Type 0} (compare : A → A → Sign) where
  -- Below the elements from `lo` on no child is larger.
  abbrev pub IsHeap : (ℕ → A) → (lo cnt : ℕ) → Type 0
  IsHeap a lo cnt = (c : ℕ) → c ≤ cnt → lo ≤ c / 2 → exceeds compare a c (c / 2) ≡ false

  -- So too, but for the children of `i`, which are not larger than its parent.
  pub record IsHeapBut (a : ℕ → A) (lo cnt i : ℕ) : Type 0 where
    pub edges : (c : ℕ) → c ≤ cnt → lo ≤ c / 2 → c / 2 ≢ i → exceeds compare a c (c / 2) ≡ false
    pub skip : (c : ℕ) → c ≤ cnt → lo ≤ i / 2 → c / 2 ≡ i → exceeds compare a c (i / 2) ≡ false

module _ {A : Type 0} {compare : A → A → Sign} (ord : Orders compare) (a : ℕ → A) (lo cnt i m : ℕ)
    (pos : 0 < lo) (lo_le : lo ≤ i) (but : IsHeapBut compare a lo cnt i)
    (big : Largest ord a i cnt m) where
  end-IsHeap : m ≡ i → IsHeap compare a lo cnt
  end-IsHeap e c p q = elim (ℕ_discrete (c / 2) i) [
    | yes here ↦ rw (here, sym e) (big.most c p here)
    | no away ↦ but.edges c p q away
  ]

  swap-edges :
      m ≢ i
      → (c : ℕ) → c ≤ cnt
      → lo ≤ c / 2
      → c / 2 ≢ m
      → exceeds compare (do_swap a i m) c (c / 2) ≡ false
  unfolding exceeds
  swap-edges ne c p q away =
      ground (
        arith,
        but.edges c p q,
        but.skip m,
        big.most c p,
        big.own_or_child,
        exceeds_total ord a m i,
      )

  swap-skip :
      m ≢ i
      → (c : ℕ) → c ≤ cnt
      → lo ≤ m / 2
      → c / 2 ≡ m
      → exceeds compare (do_swap a i m) c (m / 2) ≡ false
  unfolding exceeds
  swap-skip ne c p q here = ground (arith, but.edges c p, big.own_or_child)

-- `heapify` from `i` on returns, in at most `cnt` rounds more, and the heap holds from `lo` on.
module _ {A : Type 0} {compare : A → A → Sign} (ord : Orders compare) (lo cnt : ℕ) (pos : 0 < lo)
    (small : cnt < 2 ^ 31) where
  pub heapify_lem :
      (n i : ℕ) (a : ℕ → A)
      → lo ≤ i
      → i ≤ cnt
      → cnt < n + i
      → IsHeapBut compare a lo cnt i
      → (b : ℕ → A) × (heapify compare n a i cnt ≡ some b)
        × IsHeap compare b lo cnt
        × Rearranges lo cnt a b
  unfolding heapify
  heapify_lem zero i a h h' fuel but = absurd (omega arith)
  heapify_lem (suc n) i a h h' fuel but =
      let m = largest compare a i cnt in
      let big = largest_lem ord a i cnt (omega arith) h' small in
      elim (ℕ_discrete m i) [
        | yes e ↦
            rw (eq→== m i e, heapify)
              (a, refl, end-IsHeap ord a lo cnt i m pos h but big e, Rearranges-refl lo cnt a)
        | no ne ↦
            let inside : (i < m) × (m ≤ cnt) = ground (arith, big.own_or_child, ne) in
            let (b, ok, heap, moved) =
              heapify_lem n m (do_swap a i m) (omega (arith, inside.0)) inside.1
                (omega (arith, inside.0))
                (record {
                  edges = swap-edges ord a lo cnt i m pos h but big ne;
                  skip = swap-skip ord a lo cnt i m pos h but big ne;
                }) in
            rw (ne→== m i ne, heapify)
              (
                b,
                ok,
                heap,
                Rearranges-trans (omega arith) (omega arith)
                    (do_swap-Rearranges lo cnt i m a pos h h' (omega (arith, inside.0)) inside.1)
                    moved,
              )
      ]
