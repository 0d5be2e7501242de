-- ===== src/Stdlib/Sort.antt =====
-- The two loops of `sort`.
use projectmod.Base.{
  ℕ, zero, suc, ◌/◌, ◌^◌, ◌≤◌, ◌<◌, ◌≡◌, refl, ◌≢◌, ◌⊎◌, inl, inr, Bool, false, some, arith,
}
use native.Mathlib.Decide.{ℕ_discrete}
use projectmod.Stdlib.{Sign, exceeds, do_swap, build, sort_loop, sort}
use projectmod.Stdlib.Order.{Orders, exceeds_trans, exceeds_self}
use projectmod.Stdlib.Count.{count}
use projectmod.Stdlib.Heap.{
  Rearranges, Rearranges-refl, Rearranges-trans, do_swap-Rearranges, IsHeap, heapify_lem,
}

widen :
    {A : Type 0} {j cnt cnt' : ℕ} {a b : ℕ → A}
    → 1 ≤ j
    → cnt' ≤ cnt
    → Rearranges j cnt' a b
    → Rearranges 1 cnt a b
widen {A} {j} {cnt} {cnt'} {a} {b} p q r = Rearranges-trans p q (Rearranges-refl 1 cnt a) r

module _ {A : Type 0} {compare : A → A → Sign} (ord : Orders compare) where
  -- The first element of a heap is a largest one.
  root_most :
      (fuel c cnt : ℕ) (a : ℕ → A)
      → IsHeap compare a 1 cnt
      → 0 < c
      → c ≤ cnt
      → c < fuel
      → exceeds compare a c 1 ≡ false
  root_most zero c cnt a heap p q h = absurd (omega arith)
  root_most (suc n) c cnt a heap p q h = elim (ℕ_discrete c 1) [
    | yes e ↦ rw e (exceeds_self ord a 1)
    | no ne ↦
        exceeds_trans ord a c (c / 2) 1 (heap c q (omega arith))
          (root_most n (c / 2) cnt a heap (omega arith) (omega arith) (omega arith))
  ]

  build_lem :
      (i cnt : ℕ) (a : ℕ → A)
      → i ≤ cnt
      → cnt < 2 ^ 31
      → IsHeap compare a (suc i) cnt
      → (b : ℕ → A) × (build compare i cnt a ≡ some b)
        × IsHeap compare b 1 cnt
        × Rearranges 1 cnt a b
  unfolding build
  build_lem zero cnt a h small heap = (a, refl, heap, Rearranges-refl 1 cnt a)
  build_lem (suc i) cnt a h small heap =
      let (b, ok, heap', moved) =
        heapify_lem ord (suc i) cnt (omega arith) small (suc cnt) (suc i) a (omega arith) h
          (omega arith)
          (record {
            edges = λ c p q ne. heap c p (omega (arith, ne));
            skip = λ c p q e. absurd (omega arith);
          }) in
      let (b', ok', heap'', moved') = build_lem i cnt b (omega arith) small heap' in
      rw (ok, build)
        (
          b',
          ok',
          heap'',
          Rearranges-trans (omega arith) (omega arith) (widen (omega arith) (omega arith) moved)
              moved',
        )

  -- The elements up to `i` are a heap; those after it are sorted, and none of the former is larger.
  record IsPart (a : ℕ → A) (i cnt : ℕ) : Type 0 where
    heap : IsHeap compare a 1 i
    sorted : (j k : ℕ) → i < j → j < k → k ≤ cnt → exceeds compare a j k ≡ false
    apart : (j k : ℕ) → 0 < j → j ≤ i → i < k → k ≤ cnt → exceeds compare a j k ≡ false

  abbrev pub IsSorted : (ℕ → A) → ℕ → Type 0
  IsSorted a cnt = (j k : ℕ) → 0 < j → j < k → k ≤ cnt → exceeds compare a j k ≡ false

  next_edges :
      (i c : ℕ) (a : ℕ → A)
      → IsHeap compare a 1 (suc (suc i))
      → c ≤ suc i
      → 1 ≤ c / 2
      → c / 2 ≢ 1
      → exceeds compare (do_swap a 1 (suc (suc i))) c (c / 2) ≡ false
  unfolding exceeds
  next_edges i c a heap p q ne = ground (arith, heap c (omega arith) q, p, q, ne)

  -- A round of the second loop.
  module _ {a b : ℕ → A} {i cnt : ℕ} (part : IsPart a (suc (suc i)) cnt)
      (moved : Rearranges 1 (suc i) (do_swap a 1 (suc (suc i))) b) where
    next_sorted : (j k : ℕ) → suc i < j → j < k → k ≤ cnt → exceeds compare b j k ≡ false
    unfolding exceeds
    next_sorted j k p q r =
        let at_j = moved.outside j (inr p) in
        let at_k = moved.outside k (inr (omega arith)) in
        ground (arith, at_j, at_k, part.sorted j k, part.apart 1 k)

    next_apart : (j k : ℕ) → 0 < j → j ≤ suc i → suc i < k → k ≤ cnt → exceeds compare b j k ≡ false
    unfolding exceeds
    next_apart j k p q r t =
        let (j', lo, hi, at_j) = moved.from j (omega arith) q in
        let at_k = moved.outside k (inr r) in
        let s = suc (suc i) in
        ground (
          arith,
          at_j,
          at_k,
          part.apart j' k,
          part.apart s k,
          root_most (suc s) s s a part.heap,
          root_most (suc s) j' s a part.heap,
        )

  sort_loop_lem :
      (i cnt : ℕ) (a : ℕ → A)
      → i ≤ cnt
      → cnt < 2 ^ 31
      → IsPart a i cnt
      → (b : ℕ → A) × (sort_loop compare i a ≡ some b) × IsSorted b cnt × Rearranges 1 cnt a b
  unfolding sort_loop
  sort_loop_lem zero cnt a h small part =
      (a, refl, λ j k p q r. part.sorted j k p q r, Rearranges-refl 1 cnt a)
  sort_loop_lem (suc zero) cnt a h small part = (
    a,
    refl,
    λ j k p q r. elim (ℕ_discrete j 1) [
      | yes e ↦ part.apart j k p (omega (arith, e)) (omega arith) r
      | no ne ↦ part.sorted j k (omega arith) q r
    ],
    Rearranges-refl 1 cnt a,
  )
  sort_loop_lem (suc (suc i)) cnt a h small part =
      let s = suc (suc i) in
      let (b, ok, heap, moved) =
        heapify_lem ord 1 (suc i) (omega arith) (omega arith) s 1 (do_swap a 1 s) (omega arith)
          (omega arith) (omega arith)
          (record {
            edges = λ c p q ne. next_edges i c a part.heap p q ne;
            skip = λ c p q e. absurd (omega arith);
          }) in
      let (b', ok', sorted, moved') =
        sort_loop_lem (suc i) cnt b (omega arith) small (record {
          heap = heap;
          sorted = next_sorted part moved;
          apart = next_apart part moved;
        }) in
      let swapped =
        do_swap-Rearranges 1 cnt 1 s a (omega arith) (omega arith) (omega arith) (omega arith) h in
      rw (ok, sort_loop)
        (
          b',
          ok',
          sorted,
          Rearranges-trans (omega arith) (omega arith)
              (Rearranges-trans (omega arith) (omega arith) swapped moved) moved',
        )

  -- `sort` returns on an array of fewer than 2^31 elements that the comparison orders. In the result no
  -- element is larger than a later one, each test is passed by as many elements as before, and what
  -- stands outside the array is as it was.
  pub sort_lem :
      (a : ℕ → A) (cnt : ℕ)
      → cnt < 2 ^ 31
      → (b : ℕ → A) × (sort compare a cnt ≡ some b)
        × IsSorted b cnt
        × ((test : A → Bool) → count test cnt b ≡ count test cnt a)
        × ((k : ℕ) → (k ≡ 0) ⊎ (cnt < k) → b k ≡ a k)
  unfolding sort
  sort_lem a cnt small =
      let (b, ok, heap, moved) =
        build_lem (cnt / 2) cnt a (omega arith) small (λ c p q. absurd (omega arith)) in
      let (b', ok', sorted, moved') = sort_loop_lem cnt cnt b (omega arith) small (record {
        heap = heap;
        sorted = λ j k p q r. absurd (omega arith);
        apart = λ j k p q r t. absurd (omega arith);
      }) in
      let all = Rearranges-trans (omega arith) (omega arith) moved moved' in
      rw (ok, ok')
        (
          b',
          refl,
          sorted,
          λ test. all.counts test cnt (omega arith),
          λ k p. elim p [
            | inl e ↦ all.outside k (inl (omega (arith, e)))
            | inr e ↦ all.outside k (inr e)
          ],
        )
