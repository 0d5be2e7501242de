-- ===== src/Stdlib/Count.antt =====
-- How many elements of an array pass a test, before and after `do_swap`.
use projectmod.Base.{
  ℕ, zero, suc, ◌+◌, ◌≤◌, ◌<◌, ◌≡◌, refl, ◌≢◌, Bool, arith, ◌==◌, if◌then◌else◌, sym, ap,
}
use native.Mathlib.Decide.{ℕ_discrete}
use projectmod.Stdlib.{do_swap}

module _ {A : Type 0} (test : A → Bool) where
  abbrev pub one : A → ℕ
  one a = if test a then 1 else 0

  -- Among the elements 1 to `n`
  unfoldable pub count : ℕ → (ℕ → A) → ℕ
  count zero a = 0
  count (suc n) a = one (a (suc n)) + count n a

  count-eq : (n : ℕ) (a b : ℕ → A) → ((k : ℕ) → 0 < k → k ≤ n → a k ≡ b k) → count n a ≡ count n b
  unfolding count
  count-eq zero a b same = refl
  count-eq (suc n) a b same =
      let here : one (a (suc n)) ≡ one (b (suc n)) =
        ap one (same (suc n) (omega arith) (omega arith)) in
      omega (arith, here, count-eq n a b (λ k p q. same k p (omega arith)))

  -- Arrays that differ at `x` only.
  count-update :
      (n x : ℕ) (a b : ℕ → A)
      → 0 < x
      → x ≤ n
      → ((k : ℕ) → k ≢ x → a k ≡ b k)
      → count n b + one (a x) ≡ count n a + one (b x)
  unfolding count
  count-update zero x a b p q same = absurd (omega arith)
  count-update (suc n) x a b p q same = elim (ℕ_discrete x (suc n)) [
    | yes e ↦
        let rest = count-eq n a b (λ k r t. same k (λ d. omega (arith, d, e))) in
        rw e (omega (arith, rest))
    | no ne ↦
        let here : one (a (suc n)) ≡ one (b (suc n)) = ap one (same (suc n) (λ d. ne (sym d))) in
        omega (arith, here, count-update n x a b p (omega arith) same)
  ]

  pub count-do_swap :
      (n x y : ℕ) (a : ℕ → A) → 0 < x → x ≤ n → 0 < y → y ≤ n → count n (do_swap a x y) ≡ count n a
  count-do_swap n x y a p q r t = elim (ℕ_discrete x y) [
    | yes e ↦ count-eq n (do_swap a x y) a (λ k u v. rw e (ground arith))
    | no ne ↦
        let c : ℕ → A = λ k. if k == x then a y else a k in
        let first = count-update n x a c p q (λ k d. ground (arith, d)) in
        let second = count-update n y c (do_swap a x y) r t (λ k d. ground (arith, d)) in
        let at_x : one (c x) ≡ one (a y) = ground arith in
        let c_y : one (c y) ≡ one (a y) = ground (arith, ne) in
        let at_y : one (do_swap a x y y) ≡ one (a x) = ground (arith, ne) in
        omega (arith, first, second, at_x, c_y, at_y)
  ]
