-- ===== src/HashTable/Valid.antt =====
-- A valid table, and what `hash_find` returns on it.
use projectmod.Base.{
  ℕ, ◌-◌, ◌^◌, ◌%◌, ◌≤◌, ◌<◌, ◌≡◌, refl, ◌≢◌, ◌⊎◌, inl, inr, Bool, true, false, Option, none, some,
  List, [], ◌∷◌, arith, length, ◌==◌, Bool-cases, ◌∙◌, ap, subst,
}
use projectmod.HashTable.{Hash, find_bucket, equals, find_elem, hash_find}
use projectmod.HashTable.Sums.{sum, count, bit_and_le}

-- What the functions that a client gives to `hash_init` do: `less` is irreflexive, neither being less
-- is an equivalence, and `hash` does not tell equals apart.
pub record Contract (hash : ℕ → ℕ) (less : ℕ → ℕ → Bool) : Type 0 where
  pub irrefl : (x : ℕ) → less x x ≡ false
  pub trans :
      (x y z : ℕ)
      → equals hash less x y ≡ true
      → equals hash less y z ≡ true
      → equals hash less x z ≡ true
  pub respects : (x y : ℕ) → equals hash less x y ≡ true → hash x ≡ hash y

module _ (hash : ℕ → ℕ) where
  -- How often an element stands in its bucket
  abbrev pub held : Hash → ℕ → ℕ
  held h x = count x (h.buckets (find_bucket hash h x))

  -- Each element stands in its own bucket only.
  pub record IsPlaced (h : Hash) : Type 0 where
    pub some_buckets : 0 < h.bucket_cnt
    pub placed : (j x : ℕ) → j < h.bucket_cnt → j ≢ find_bucket hash h x → count x (h.buckets j) ≡ 0

  pub find_bucket_lt : (h : Hash) (x : ℕ) → 0 < h.bucket_cnt → find_bucket hash h x < h.bucket_cnt
  unfolding find_bucket
  find_bucket_lt h x p = omega (arith, bit_and_le (hash x) (h.bucket_cnt - 1))

abbrev pub total : Hash → ℕ
total h = sum h.bucket_cnt (λ j. length (h.buckets j))

module _ (hash : ℕ → ℕ) (less : ℕ → ℕ → Bool) where
  pub record IsValid (h : Hash) : Type 0 where
    pub places : IsPlaced hash h
    pub once : (x : ℕ) → held hash h x ≤ 1
    pub unique :
        (x y : ℕ) → held hash h x ≢ 0 → held hash h y ≢ 0 → equals hash less x y ≡ true → x ≡ y
    pub size : h.elem_cnt ≡ total h % 2 ^ 32

-- What a search returns: an element equal to the key, or nothing if there is none.
abbrev pub Searched : (ℕ → ℕ) → (ℕ → ℕ → Bool) → ℕ → (ℕ → ℕ) → Option ℕ → Type 0
Searched hash less e times r =
    ((x : ℕ) × (r ≡ some x) × (times x ≢ 0) × (equals hash less x e ≡ true))
    ⊎ ((r ≡ none) × ((x : ℕ) → times x ≢ 0 → equals hash less x e ≡ false))

find_elem_lem :
    (hash : ℕ → ℕ) (less : ℕ → ℕ → Bool) (l : List ℕ) (e : ℕ)
    → Searched hash less e (λ x. count x l) (find_elem hash less l e)
unfolding find_elem count
find_elem_lem hash less [] e = inr (refl, λ x ne. absurd (ne refl))
find_elem_lem hash less (y ∷ l) e = elim (Bool-cases (equals hash less y e)) [
  | inl hit ↦ rw hit (inl (y, refl, ground arith, hit))
  | inr miss ↦ rw miss (elim (find_elem_lem hash less l e) [
    | inl (x, found, ne, eq) ↦ inl (x, found, ground (arith, ne), eq)
    | inr (found, away) ↦ inr (
      found,
      λ x ne. elim (Bool-cases (y == x)) [
        | inl same ↦
            let p : y ≡ x = ground (arith, same) in subst (λ z. equals hash less z e ≡ false) p miss
        | inr other ↦ away x (ground (arith, other, ne))
      ],
    )
  ])
]

module _ {hash : ℕ → ℕ} {less : ℕ → ℕ → Bool} (con : Contract hash less) where
  pub equals_sym : (x y : ℕ) → equals hash less x y ≡ true → equals hash less y x ≡ true
  equals_sym x y p = ground (arith, p)

  pub equals_self : (x : ℕ) → equals hash less x x ≡ true
  equals_self x = ground (arith, con.irrefl x)

  pub same_bucket :
      (h : Hash) (x y : ℕ)
      → equals hash less x y ≡ true
      → find_bucket hash h x ≡ find_bucket hash h y
  unfolding find_bucket
  same_bucket h x y p = rw (con.respects x y p) refl

  -- `hash_find` searches the whole table.
  pub hash_find_lem :
      (h : Hash) (e : ℕ) → Searched hash less e (held hash h) (hash_find hash less h e)
  unfolding hash_find
  hash_find_lem h e = elim (find_elem_lem hash less (h.buckets (find_bucket hash h e)) e) [
    | inl (x, found, ne, eq) ↦ inl (x, found, rw (same_bucket h x e eq) ne, eq)
    | inr (found, away) ↦ inr (
      found,
      λ x ne. elim (Bool-cases (equals hash less x e)) [
        | inr no_eq ↦ no_eq
        | inl eq ↦ away x (subst (λ i. count x (h.buckets i) ≢ 0) (same_bucket h x e eq) ne)
      ],
    )
  ]

  module _ {h : Hash} (valid : IsValid hash less h) where
    pub hash_find-some :
        (x e : ℕ)
        → held hash h x ≢ 0
        → equals hash less x e ≡ true
        → hash_find hash less h e ≡ some x
    hash_find-some x e ne eq = elim (hash_find_lem h e) [
      | inl (y, found, ne', eq') ↦
          found ∙ ap some (valid.unique y x ne' ne (con.trans y e x eq' (equals_sym x e eq)))
      | inr (found, away) ↦ let no_eq = away x ne in cc
    ]

    pub hash_find-none :
        (e : ℕ)
        → ((x : ℕ) → held hash h x ≢ 0 → equals hash less x e ≡ false)
        → hash_find hash less h e ≡ none
    hash_find-none e away = elim (hash_find_lem h e) [
      | inl (y, found, ne, eq) ↦ let no_eq = away y ne in absurd (cc)
      | inr (found, others) ↦ found
    ]
