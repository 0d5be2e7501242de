-- ===== src/HashTable/Steps.antt =====
-- `insert_elem` and `remove_elem` on a valid table.
use projectmod.Base.{
  ℕ, ◌+◌, ◌-◌, ◌^◌, ◌%◌, ◌≤◌, ◌≡◌, ◌≢◌, inl, inr, Bool, false, none, some, arith, length, ◌==◌,
  if◌then◌else◌, Bool-cases, ◌∙◌, sym, subst,
}
use native.Mathlib.Decide.{ℕ_discrete}
use projectmod.HashTable.{
  Hash, find_bucket, equals, hash_find, push_front, insert_elem, list_remove, remove_elem,
}
use projectmod.HashTable.Sums.{sum-update, count-list_remove, length-list_remove}
use projectmod.HashTable.Valid.{
  Contract, held, IsPlaced, find_bucket_lt, total, IsValid, equals_sym, equals_self, hash_find_lem,
  hash_find-some, hash_find-none,
}
use projectmod.HashTable.Rehash.{Added, push_front_lem, SameElements}

module _ {hash : ℕ → ℕ} {less : ℕ → ℕ → Bool} (con : Contract hash less) where
  -- A table with the same elements finds the same.
  pub hash_find_same :
      {h h' : Hash} (e : ℕ)
      → SameElements hash less h h'
      → hash_find hash less h' e ≡ hash_find hash less h e
  hash_find_same {h} {h'} e same = elim (hash_find_lem con h e) [
    | inl (x, found, ne, eq) ↦
        hash_find-some con same.valid x e (λ q. ne (sym (same.times x) ∙ q)) eq ∙ sym found
    | inr (found, away) ↦
        hash_find-none con same.valid e (λ x ne. away x (λ q. ne (same.times x ∙ q))) ∙ sym found
  ]

  -- The table after `e` came in
  pub record Inserted (h : Hash) (e : ℕ) (h' : Hash) : Type 0 where
    pub valid : IsValid hash less h'
    pub finds :
        (k : ℕ)
        → hash_find hash less h' k
          ≡ (if equals hash less e k then some e else hash_find hash less h k)

  -- The table after the elements equal to `e` went out
  pub record Deleted (h : Hash) (e : ℕ) (h' : Hash) : Type 0 where
    pub valid : IsValid hash less h'
    pub finds :
        (k : ℕ)
        → hash_find hash less h' k
          ≡ (if equals hash less e k then none else hash_find hash less h k)

  module _ {h : Hash} (valid : IsValid hash less h) (e : ℕ)
      (fresh : (x : ℕ) → held hash h x ≢ 0 → equals hash less x e ≡ false) where
    abbrev with_elem : Hash
    with_elem = insert_elem h (find_bucket hash h e) e

    counted : Added hash h (λ x. if e == x then 1 else 0) 1 (push_front h (find_bucket hash h e) e)
    counted = push_front_lem hash h e valid.places

    with_places : IsPlaced hash with_elem
    unfolding insert_elem push_front find_bucket
    with_places = record {
      some_buckets = counted.places.some_buckets;
      placed = λ j x p ne. counted.places.placed j x p ne;
    }

    with_times : (x : ℕ) → held hash with_elem x ≡ (if e == x then 1 else 0) + held hash h x
    unfolding insert_elem push_front find_bucket
    with_times x = counted.times x

    with_size : with_elem.elem_cnt ≡ total with_elem % 2 ^ 32
    unfolding insert_elem push_front
    with_size = omega (arith, counted.size_of, valid.size)

    none_held : held hash h e ≡ 0
    none_held = elim (ℕ_discrete (held hash h e) 0) [
      | yes z ↦ z
      | no ne ↦ let p = fresh e ne in let q = equals_self con e in absurd (cc)
    ]

    with-IsValid : IsValid hash less with_elem
    with-IsValid = record {
      places = with_places;
      once = λ x. elim (ℕ_discrete e x) [
        | yes q ↦ subst (λ z. held hash with_elem z ≤ 1) q (ground (arith, with_times e, none_held))
        | no q ↦ ground (arith, with_times x, valid.once x, q)
      ];
      unique = λ x y p q eq. ground (
        arith,
        with_times x,
        with_times y,
        fresh x,
        fresh y,
        valid.unique x y,
        p,
        q,
        eq,
        equals_sym con x y eq,
      );
      size = with_size;
    }

    with-finds :
        (k : ℕ)
        → hash_find hash less with_elem k
          ≡ (if equals hash less e k then some e else hash_find hash less h k)
    with-finds k = elim (Bool-cases (equals hash less e k)) [
      | inl hit ↦
          rw hit (hash_find-some con with-IsValid e k (λ z. ground (arith, with_times e, z)) hit)
      | inr miss ↦ rw miss (elim (hash_find_lem con h k) [
        | inl (x, found, ne, eq) ↦
            hash_find-some con with-IsValid x k (λ z. ground (arith, with_times x, z, ne)) eq
            ∙ sym found
        | inr (found, away) ↦
            hash_find-none con with-IsValid k (λ x ne. elim (ℕ_discrete e x) [
              | yes q ↦ subst (λ z. equals hash less z k ≡ false) q miss
              | no q ↦ away x (λ z. ne (ground (arith, with_times x, z, q)))
            ])
            ∙ sym found
      ])
    ]

    pub insert_elem_lem : Inserted h e with_elem
    insert_elem_lem = record { valid = with-IsValid; finds = with-finds }

  module _ {h : Hash} (valid : IsValid hash less h) (e : ℕ) (inside : held hash h e ≢ 0) where
    abbrev without : Hash
    without = remove_elem h e

    without_times : (x : ℕ) → held hash without x ≡ held hash h x - (if x == e then 1 else 0)
    unfolding remove_elem find_bucket
    without_times x = count-list_remove e x (h.buckets (find_bucket hash h x))

    without_places : IsPlaced hash without
    unfolding remove_elem find_bucket
    without_places = record {
      some_buckets = valid.places.some_buckets;
      placed = λ j x p ne.
          omega (arith, count-list_remove e x (h.buckets j), valid.places.placed j x p ne);
    }

    without_total : total without + 1 ≡ total h
    unfolding remove_elem
    without_total =
        let b = find_bucket hash h e in
        let lengths = λ (j : ℕ). length-list_remove e (h.buckets j) in
        let sums =
          sum-update h.bucket_cnt b (λ j. length (h.buckets j))
            (λ j. length (list_remove e (h.buckets j)))
            (find_bucket_lt hash h e valid.places.some_buckets)
            (λ j p ne. ground (arith, lengths j, valid.places.placed j e p ne)) in
        let here : length (list_remove e (h.buckets b)) + 1 ≡ length (h.buckets b) =
          ground (arith, lengths b, inside) in
        omega (arith, sums, here)

    without_size : without.elem_cnt ≡ total without % 2 ^ 32
    unfolding remove_elem
    without_size = omega (arith, without_total, valid.size)

    still : (x : ℕ) → held hash without x ≢ 0 → held hash h x ≢ 0
    still x ne z = ne (omega (arith, without_times x, z))

    without-IsValid : IsValid hash less without
    without-IsValid = record {
      places = without_places;
      once = λ x. omega (arith, without_times x, valid.once x);
      unique = λ x y p q eq. valid.unique x y (still x p) (still y q) eq;
      size = without_size;
    }

    gone : held hash without e ≡ 0
    gone = ground (arith, without_times e, valid.once e)

    without-finds :
        (k : ℕ)
        → hash_find hash less without k
          ≡ (if equals hash less e k then none else hash_find hash less h k)
    without-finds k = elim (Bool-cases (equals hash less e k)) [
      | inl hit ↦ rw hit (
          hash_find-none con without-IsValid k (λ x ne. elim (Bool-cases (equals hash less x k)) [
            | inr other ↦ other
            | inl eq ↦
                let same =
                  valid.unique x e (still x ne) inside
                    (con.trans x k e eq (equals_sym con e k hit)) in
                absurd (ne (subst (λ z. held hash without z ≡ 0) (sym same) gone))
          ]))
      | inr miss ↦ rw miss (elim (hash_find_lem con h k) [
        | inl (x, found, ne, eq) ↦
            hash_find-some con without-IsValid x k
              (λ z. elim (ℕ_discrete x e) [
                | yes q ↦
                    let no_eq = subst (λ w. equals hash less w k ≡ false) (sym q) miss in
                    absurd (cc)
                | no q ↦ ne (ground (arith, without_times x, z, q))
              ])
              eq
            ∙ sym found
        | inr (found, away) ↦
            hash_find-none con without-IsValid k (λ x ne. away x (still x ne)) ∙ sym found
      ])
    ]

    pub remove_elem_lem : Deleted h e without
    remove_elem_lem = record { valid = without-IsValid; finds = without-finds }
