-- ===== src/HashTable/Rehash.antt =====
-- `rehash`, and what the table holds before and after.
use projectmod.Base.{
  ℕ, zero, suc, ◌+◌, ◌-◌, ◌/◌, ◌^◌, ◌%◌, ◌≤◌, ◌<◌, ◌≡◌, refl, inl, inr, Bool, true, some, List, [],
  ◌∷◌, arith, length, ◌==◌, ltb, if◌then◌else◌, Bool-cases, ◌∙◌, sym, ap,
}
use projectmod.HashTable.{
  Hash, find_bucket, push_front, move_bucket, move_buckets, turn_off_least_1bit, is_power_of_2,
  power_loop, new_bucket_cnt, rehash,
}
use projectmod.HashTable.Sums.{sum, sum-update, sum_single, count, bit_and_le}
use projectmod.HashTable.Valid.{held, IsPlaced, find_bucket_lt, total, IsValid}

-- The loop ends at a power of two.
power_loop_lem :
    (n x : ℕ)
    → x < n
    → 0 < x
    → (m : ℕ) × (power_loop n x ≡ some m) × (0 < m) × (m ≤ x) × (is_power_of_2 m ≡ true)
unfolding power_loop
power_loop_lem zero x h pos = absurd (omega arith)
power_loop_lem (suc n) x h pos = elim (Bool-cases (is_power_of_2 x)) [
  | inl e ↦ rw (e, power_loop) (x, refl, pos, omega arith, e)
  | inr e ↦
      let less : turn_off_least_1bit x ≤ x - 1 =
        unfold turn_off_least_1bit in bit_and_le x (x - 1) in
      let some_bit : 0 < turn_off_least_1bit x = unfold is_power_of_2 in ground (arith, e) in
      let (m, ok, p, q, two) =
        power_loop_lem n (turn_off_least_1bit x) (omega (arith, less)) some_bit in
      rw (e, power_loop) (m, ok, p, omega (arith, q, less), two)
]

new_bucket_cnt_lem :
    (elem_cnt : ℕ)
    → (m : ℕ) × (new_bucket_cnt elem_cnt ≡ some m) × (0 < m) × (is_power_of_2 m ≡ true)
unfolding new_bucket_cnt
new_bucket_cnt_lem elem_cnt =
    let wanted = if ltb (elem_cnt / 2) 4 then 4 else elem_cnt / 2 in
    let (m, ok, pos, le, two) = power_loop_lem (suc wanted) wanted (omega arith) (ground arith) in
    (m, ok, pos, two)

-- The sum that a loop adds up, from the front
unfoldable sum_from : ℕ → ℕ → (ℕ → ℕ) → ℕ
sum_from zero i f = 0
sum_from (suc n) i f = f i + sum_from n (i + 1) f

sum_from-sum : (n i : ℕ) (f : ℕ → ℕ) → sum_from n i f + sum i f ≡ sum (i + n) f
unfolding sum sum_from
sum_from-sum zero i f = let e : i + 0 ≡ i = omega arith in rw e (omega arith)
sum_from-sum (suc n) i f =
    let e : i + 1 ≡ suc i = omega arith in
    let e' : suc i + n ≡ i + suc n = omega arith in
    let rest = rw e' at (sum_from-sum n (suc i) f) in rw e (omega (arith, rest))

-- The table after elements were pushed into their buckets: `added x` of each, `size` in all.
pub record Added (hash : ℕ → ℕ) (h : Hash) (added : ℕ → ℕ) (size : ℕ) (h' : Hash) : Type 0 where
  pub places : IsPlaced hash h'
  pub times : (x : ℕ) → held hash h' x ≡ added x + held hash h x
  pub size_of : total h' ≡ size + total h
  pub buckets_of : h'.bucket_cnt ≡ h.bucket_cnt
  pub elems_of : h'.elem_cnt ≡ h.elem_cnt

module _ (hash : ℕ → ℕ) where
  pub push_front_lem :
      (h : Hash) (e : ℕ)
      → IsPlaced hash h
      → Added hash h (λ x. if e == x then 1 else 0) 1 (push_front h (find_bucket hash h e) e)
  unfolding push_front find_bucket count
  push_front_lem h e places =
      let b = find_bucket hash h e in
      let h' : Hash = push_front h b e in
      record {
        places = record {
          some_buckets = places.some_buckets;
          placed = λ j x p ne. ground (arith, places.placed j x p ne, ne);
        };
        times = λ x. ground arith;
        size_of =
            let inside = find_bucket_lt hash h e places.some_buckets in
            let sums =
              sum-update h.bucket_cnt b (λ j. length (h.buckets j)) (λ j. length (h'.buckets j))
                inside (λ j p ne. ground (arith, ne)) in
            let here : length (h'.buckets b) ≡ 1 + length (h.buckets b) = ground arith in
            omega (arith, sums, here);
        buckets_of = refl;
        elems_of = refl;
      }

  -- Nothing was added.
  Added-refl : {h : Hash} → IsPlaced hash h → Added hash h (λ x. 0) 0 h
  Added-refl places = record {
    places = places;
    times = λ x. omega arith;
    size_of = omega arith;
    buckets_of = refl;
    elems_of = refl;
  }

  Added-trans :
      {a b c : Hash} {f g : ℕ → ℕ} {m n : ℕ} (k : ℕ)
      → m + n ≡ k
      → Added hash a f m b
      → Added hash b g n c
      → Added hash a (λ x. f x + g x) k c
  Added-trans k e p q = record {
    places = q.places;
    times = λ x. omega (arith, p.times x, q.times x);
    size_of = omega (arith, p.size_of, q.size_of, e);
    buckets_of = q.buckets_of ∙ p.buckets_of;
    elems_of = q.elems_of ∙ p.elems_of;
  }

  move_bucket_lem :
      (l : List ℕ) (h : Hash)
      → IsPlaced hash h
      → Added hash h (λ x. count x l) (length l) (move_bucket hash l h)
  unfolding move_bucket count
  move_bucket_lem [] h places = Added-refl places
  move_bucket_lem (e ∷ l) h places =
      let first = push_front_lem h e places in
      let rest = move_bucket_lem l (push_front h (find_bucket hash h e) e) first.places in
      Added-trans (length (e ∷ l)) (omega arith) first rest

  move_buckets_lem :
      (n i : ℕ) (old : ℕ → List ℕ) (h : Hash)
      → IsPlaced hash h
      → Added hash h
          (λ x. sum_from n i (λ j. count x (old j)))
          (sum_from n i (λ j. length (old j)))
          (move_buckets hash n i old h)
  unfolding move_buckets sum_from
  move_buckets_lem zero i old h places = Added-refl places
  move_buckets_lem (suc n) i old h places =
      let first = move_bucket_lem (old i) h places in
      let rest = move_buckets_lem n (i + 1) old (move_bucket hash (old i) h) first.places in
      Added-trans _ refl first rest

  sum_from_zero : (n : ℕ) (f : ℕ → ℕ) → sum_from n 0 f ≡ sum n f
  unfolding sum
  sum_from_zero n f =
      let e : 0 + n ≡ n = omega arith in
      let rest = rw e at (sum_from-sum n 0 f) in omega (arith, rest)

  -- A table with new, empty buckets
  abbrev emptied : ℕ → Hash → Hash
  emptied cnt h = record { elem_cnt = h.elem_cnt; bucket_cnt = cnt; buckets = λ i. [] }

  emptied-IsPlaced : (cnt : ℕ) (h : Hash) → 0 < cnt → IsPlaced hash (emptied cnt h)
  unfolding count
  emptied-IsPlaced cnt h pos = record { some_buckets = pos; placed = λ j x p ne. refl }

  emptied_total : (cnt : ℕ) (h : Hash) → total (emptied cnt h) ≡ 0
  unfolding sum
  emptied_total zero h = refl
  emptied_total (suc cnt) h = omega (arith, emptied_total cnt h)

-- Two tables hold the same elements.
pub record SameElements (hash : ℕ → ℕ) (less : ℕ → ℕ → Bool) (h h' : Hash) : Type 0 where
  pub valid : IsValid hash less h'
  pub times : (x : ℕ) → held hash h' x ≡ held hash h x

module _ {hash : ℕ → ℕ} {less : ℕ → ℕ → Bool} {h : Hash} (valid : IsValid hash less h) where
  -- All elements were moved to new buckets.
  moved-SameElements :
      (cnt : ℕ)
      → 0 < cnt
      → SameElements hash less h (move_buckets hash h.bucket_cnt 0 h.buckets (emptied hash cnt h))
  unfolding count
  moved-SameElements cnt pos =
      let added =
        move_buckets_lem hash h.bucket_cnt 0 h.buckets (emptied hash cnt h)
          (emptied-IsPlaced hash cnt h pos) in
      let same : (x : ℕ)
          → held hash (move_buckets hash h.bucket_cnt 0 h.buckets (emptied hash cnt h)) x
            ≡ held hash h x =
        λ x.
          let sums = sum_from_zero hash h.bucket_cnt (λ j. count x (h.buckets j)) in
          let single =
            sum_single h.bucket_cnt (find_bucket hash h x) (λ j. count x (h.buckets j))
              (find_bucket_lt hash h x valid.places.some_buckets)
              (λ j p ne. valid.places.placed j x p ne) in
          omega (arith, added.times x, sums, single) in
      let size : total (move_buckets hash h.bucket_cnt 0 h.buckets (emptied hash cnt h)) ≡ total h =
        omega (
          arith,
          added.size_of,
          sum_from_zero hash h.bucket_cnt (λ j. length (h.buckets j)),
          emptied_total hash cnt h,
        ) in
      record {
        valid = record {
          places = added.places;
          once = λ x. rw (same x) (valid.once x);
          unique = λ x y p q eq. valid.unique x y (rw (same x) at p) (rw (same y) at q) eq;
          size = added.elems_of ∙ valid.size ∙ ap (λ n. n % 2 ^ 32) (sym size);
        };
        times = same;
      }

  -- `rehash` of a valid table returns, whether or not there is memory: a valid table with the same
  -- elements.
  pub rehash_lem :
      (got : Bool) → (h' : Hash) × (rehash hash got h ≡ some h') × SameElements hash less h h'
  unfolding rehash
  rehash_lem got =
      let (m, ok, pos, two) = new_bucket_cnt_lem h.elem_cnt in
      let kept : SameElements hash less h h = record { valid = valid; times = λ x. refl } in
      rw ok (go m pos kept got)
    where
      go :
          (m : ℕ)
          → 0 < m
          → SameElements hash less h h
          → (got : Bool)
          → (h' : Hash) × ((if (m == h.bucket_cnt)
                then some h
                else if got
                then some (
                    move_buckets hash h.bucket_cnt 0 h.buckets
                      (record { elem_cnt = h.elem_cnt; bucket_cnt = m; buckets = λ i. [] }))
                else some h)
              ≡ some h')
            × SameElements hash less h h'
      go m pos kept got = elim (Bool-cases (m == h.bucket_cnt)) [
        | inl e ↦ rw e (h, refl, kept)
        | inr e ↦ rw e (elim (Bool-cases got) [
          | inl g ↦ rw g (_, refl, moved-SameElements m pos)
          | inr g ↦ rw g (h, refl, kept)
        ])
      ]
