-- ===== src/HashTable/Calls.antt =====
-- `hash_insert`, `hash_replace`, `hash_delete` and `hash_init` against a finite map.
use projectmod.Base.{
  ℕ, ◌<◌, ◌≡◌, refl, ◌≢◌, inl, inr, Bool, true, Option, none, some, List, [], arith, ltb, lt→ltb,
  if◌then◌else◌, Bool-cases, ◌∙◌, sym, ap, subst, ◌>>=◌,
}
use projectmod.HashTable.{
  Hash, hash_init, find_bucket, equals, find_elem, hash_find, insert_elem, remove_elem, rehash,
  hash_insert, hash_replace, hash_delete,
}
use projectmod.HashTable.Sums.{sum, count}
use projectmod.HashTable.Valid.{
  Contract, held, total, IsValid, hash_find_lem, hash_find-some, hash_find-none, find_bucket_lt,
  equals_sym,
}
use projectmod.HashTable.Rehash.{rehash_lem}
use projectmod.HashTable.Steps.{hash_find_same, Inserted, insert_elem_lem, remove_elem_lem}

-- The element found, or the new one
abbrev pub or_new : Option ℕ → ℕ → ℕ
or_new (some x) e = x
or_new none e = e

module _ {hash : ℕ → ℕ} {less : ℕ → ℕ → Bool} (con : Contract hash less) where
  -- An operation returns what it found and a valid table in which each key finds what `want` says.
  abbrev pub Returns : Option ℕ → (ℕ → Option ℕ) → Option (Option ℕ × Hash) → Type 0
  Returns old want r =
      (h' : Hash) × (r ≡ some (old, h'))
      × IsValid hash less h'
      × ((k : ℕ) → hash_find hash less h' k ≡ want k)

  in_bucket :
      (h : Hash) (e : ℕ)
      → hash_find hash less h e ≡ find_elem hash less (h.buckets (find_bucket hash h e)) e
  unfolding hash_find
  in_bucket h e = refl

  equals_left :
      (x e k : ℕ) → equals hash less x e ≡ true → equals hash less x k ≡ equals hash less e k
  equals_left x e k eq = elim (Bool-cases (equals hash less e k)) [
    | inl hit ↦ con.trans x e k eq hit ∙ sym hit
    | inr miss ↦ elim (Bool-cases (equals hash less x k)) [
      | inl both ↦ let hit = con.trans e x k (equals_sym con x e eq) both in absurd (cc)
      | inr neither ↦ neither ∙ sym miss
    ]
  ]

  -- A new element that takes the place of `x`
  replaced :
      {h : Hash} (x e : ℕ)
      → IsValid hash less h
      → held hash h x ≢ 0
      → equals hash less x e ≡ true
      → IsValid hash less (insert_elem (remove_elem h x) (find_bucket hash h e) e)
        × ((k : ℕ)
            → hash_find hash less (insert_elem (remove_elem h x) (find_bucket hash h e) e) k
              ≡ (if equals hash less e k then some e else hash_find hash less h k))
  replaced {h} x e valid ne eq =
      let out = remove_elem_lem con valid x ne in
      let same : find_bucket hash (remove_elem h x) e ≡ find_bucket hash h e =
        unfold find_bucket remove_elem in refl in
      let none_left = out.finds e ∙ ap (λ b. if b then none else hash_find hash less h e) eq in
      let ins = insert_elem_lem con out.valid e (λ y held_y.
        elim (Bool-cases (equals hash less y e)) [
          | inr other ↦ other
          | inl hit ↦ let some_y = hash_find-some con out.valid y e held_y hit in absurd (cc)
        ]) in
      let ins' =
        subst (λ b. Inserted con (remove_elem h x) e (insert_elem (remove_elem h x) b e)) same
          ins in
      (
        ins'.valid,
        λ k. ins'.finds k ∙ elim (Bool-cases (equals hash less e k)) [
          | inl hit ↦ rw hit refl
          | inr miss ↦ rw miss (
              out.finds k
              ∙ ap (λ b. if b then none else hash_find hash less h k) (equals_left x e k eq ∙ miss))
        ],
      )

  module _ {h : Hash} (valid : IsValid hash less h) (got : Bool) (e : ℕ) where
    -- The end of each call
    rehashed :
        (h1 : Hash) (old : Option ℕ) (want : ℕ → Option ℕ)
        → IsValid hash less h1
        → ((k : ℕ) → hash_find hash less h1 k ≡ want k)
        → Returns old want (rehash hash got h1 >>= λ h2. some (old, h2))
    rehashed h1 old want valid1 finds =
        let (h2, ok, same) = rehash_lem valid1 got in
        rw ok (h2, refl, same.valid, λ k. hash_find_same con k same ∙ finds k)

    -- `hash_insert` into a valid table, with functions that keep their contract, returns the element that was found; each key finds what it did,
    -- but that a key equal to the new element finds it, if nothing was found. With or without memory
    -- for more buckets, the table stays valid.
    pub hash_insert_lem :
        Returns
          (hash_find hash less h e)
          (λ k.
            if equals hash less e k
            then some (or_new (hash_find hash less h e) e)
            else hash_find hash less h k)
          (hash_insert hash less got e h)
    unfolding hash_insert
    hash_insert_lem = elim (hash_find_lem con h e) [
      | inr (found, away) ↦
          let ins = insert_elem_lem con valid e away in
          let found' = sym (in_bucket h e) ∙ found in
          rw found (
            rw found'
              (rehashed (insert_elem h (find_bucket hash h e) e) none _ ins.valid ins.finds))
      | inl (x, found, ne, eq) ↦
          let found' = sym (in_bucket h e) ∙ found in
          rw found (
            rw found' (
              rehashed h (some x) _ valid (λ k. elim (Bool-cases (equals hash less e k)) [
                | inl hit ↦ rw hit (hash_find-some con valid x k ne (con.trans x e k eq hit))
                | inr miss ↦ rw miss refl
              ])))
    ]

    -- `hash_delete` from a valid table, with functions that keep their contract, returns the element that was found; keys equal to the one given
    -- find nothing afterwards and each other key what it did, and the table stays valid.
    pub hash_delete_lem :
        Returns
          (hash_find hash less h e)
          (λ k. if equals hash less e k then none else hash_find hash less h k)
          (hash_delete hash less got e h)
    unfolding hash_delete
    hash_delete_lem = elim (hash_find_lem con h e) [
      | inr (found, away) ↦
          rw (found, hash_delete)
            (
              h,
              refl,
              valid,
              λ k. elim (Bool-cases (equals hash less e k)) [
                | inr miss ↦ rw miss refl
                | inl hit ↦ rw hit (elim (hash_find_lem con h k) [
                  | inr (none_k, others) ↦ none_k
                  | inl (x, found_k, ne, eq) ↦
                      let no_eq = away x ne in
                      let yes_eq = con.trans x k e eq (equals_sym con e k hit) in absurd (cc)
                ])
              ],
            )
      | inl (x, found, ne, eq) ↦
          let out = remove_elem_lem con valid x ne in
          rw (found, hash_delete)
            (rehashed (remove_elem h x) (some x) _ out.valid (λ k.
              out.finds k
              ∙ ap (λ b. if b then none else hash_find hash less h k) (equals_left x e k eq)))
    ]

    -- `hash_replace` in a valid table, with functions that keep their contract, returns the element that was found; keys equal to the new element
    -- find it afterwards and each other key what it did, and the table stays valid.
    pub hash_replace_lem :
        Returns
          (hash_find hash less h e)
          (λ k. if equals hash less e k then some e else hash_find hash less h k)
          (hash_replace hash less got e h)
    unfolding hash_replace
    hash_replace_lem = elim (hash_find_lem con h e) [
      | inr (found, away) ↦
          let ins = insert_elem_lem con valid e away in
          let found' = sym (in_bucket h e) ∙ found in
          rw found (
            rw found'
              (rehashed (insert_elem h (find_bucket hash h e) e) none _ ins.valid ins.finds))
      | inl (x, found, ne, eq) ↦
          let found' = sym (in_bucket h e) ∙ found in
          let (valid1, finds) = replaced x e valid ne eq in
          rw found (
            rw found' (
              rehashed (insert_elem (remove_elem h x) (find_bucket hash h e) e) (some x) _ valid1
                finds))
    ]

  abbrev pub started : (ℕ → List ℕ) → Hash
  started garbage = record {
    elem_cnt = 0;
    bucket_cnt = 4;
    buckets = λ i. if ltb i 4 then [] else garbage i;
  }

  started_empty :
      (garbage : ℕ → List ℕ) (j x : ℕ) → j < 4 → count x ((started garbage).buckets j) ≡ 0
  unfolding count
  started_empty garbage j x p = rw (lt→ltb j 4 p) refl

  pub started_held : (garbage : ℕ → List ℕ) (x : ℕ) → held hash (started garbage) x ≡ 0
  started_held garbage x =
      started_empty garbage (find_bucket hash (started garbage) x) x
        (find_bucket_lt hash (started garbage) x (omega arith))

  started_total : (garbage : ℕ → List ℕ) → total (started garbage) ≡ 0
  unfolding sum
  started_total garbage = refl

  pub started-IsValid : (garbage : ℕ → List ℕ) → IsValid hash less (started garbage)
  started-IsValid garbage = record {
    places = record {
      some_buckets = omega arith;
      placed = λ j x p ne. started_empty garbage j x p;
    };
    once = λ x. omega (arith, started_held garbage x);
    unique = λ x y p q eq. absurd (p (started_held garbage x));
    size = omega (arith, started_total garbage);
  }

  -- `hash_init` with memory makes a valid table in which no key finds anything.
  pub hash_init_lem :
      (garbage : ℕ → List ℕ)
      → (h : Hash) × (hash_init true garbage ≡ (true, h))
        × IsValid hash less h
        × ((k : ℕ) → hash_find hash less h k ≡ none)
  unfolding hash_init
  hash_init_lem garbage = (
    started garbage,
    refl,
    started-IsValid garbage,
    λ k.
        hash_find-none con (started-IsValid garbage) k
          (λ x ne. absurd (ne (started_held garbage x))),
  )
