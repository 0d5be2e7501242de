-- ===== src/Directory/Names.antt =====
-- Names, and the entries that they find.
use projectmod.Base.{
  ℕ, ◌≡◌, refl, inl, inr, Bool, true, false, Option, none, some, List, [], ◌∷◌, arith,
  if◌then◌else◌, Bool-cases, Option-cases, eq→==,
}
use projectmod.Directory.{Entry, same_name, matches, lookup}

pub same_name_self : (s : List ℕ) → same_name s s ≡ true
unfolding same_name
same_name_self [] = refl
same_name_self (a ∷ s) = rw (eq→== a a refl, same_name_self s) refl

pub same_name_eq : (s t : List ℕ) → same_name s t ≡ true → s ≡ t
unfolding same_name
same_name_eq [] [] h = refl
same_name_eq [] (b ∷ t) h = cc
same_name_eq (a ∷ s) [] h = cc
same_name_eq (a ∷ s) (b ∷ t) h =
    let e : a ≡ b = ground (arith, h) in
    let r : same_name s t ≡ true = ground (arith, h) in rw (e, same_name_eq s t r) refl

-- What a name stands for in a directory: a sector, and whether it is that of a directory.
unfoldable pub meaning : List ℕ → List Entry → Option (ℕ × Bool)
meaning name [] = none
meaning name (e ∷ rest) =
    if matches name e then some (e.inode_sector, e.is_dir) else meaning name rest

-- No two entries in use have the same name.
abbrev pub NoOther : Entry → List Entry → Type 0
NoOther e [] = Unit
NoOther e (f ∷ rest) = (e.in_use ≡ true → matches e.name f ≡ false) × NoOther e rest

abbrev pub IsUnique : List Entry → Type 0
IsUnique [] = Unit
IsUnique (e ∷ rest) = NoOther e rest × IsUnique rest

pub lookup-none : (name : List ℕ) (es : List Entry) → lookup name es ≡ none → meaning name es ≡ none
unfolding lookup meaning
lookup-none name [] h = refl
lookup-none name (e ∷ rest) h = elim (Bool-cases (matches name e)) [
  | inl m ↦ ground (arith, m, h)
  | inr m ↦ elim (Option-cases (lookup name rest)) [
    | inl q ↦ rw m (lookup-none name rest q)
    | inr (r, q) ↦ ground (arith, m, q, h)
  ]
]

pub lookup-none-cons :
    (name : List ℕ) (e : Entry) (rest : List Entry)
    → lookup name (e ∷ rest) ≡ none
    → (matches name e ≡ false) × (lookup name rest ≡ none)
unfolding lookup
lookup-none-cons name e rest h = elim (Bool-cases (matches name e)) [
  | inl m ↦ ground (arith, m, h)
  | inr m ↦ elim (Option-cases (lookup name rest)) [
    | inl q ↦ (m, q)
    | inr (r, q) ↦ ground (arith, m, q, h)
  ]
]

-- A name that an entry has is found by that name only.
pub other_name :
    (n name : List ℕ) (e : Entry)
    → matches n e ≡ true
    → matches name e ≡ false
    → same_name n name ≡ false
other_name n name e a b = elim (Bool-cases (same_name n name)) [
  | inl s ↦
      let eq = same_name_eq n name s in
      let k : matches name e ≡ true = rw (← eq) a in ground (arith, k, b)
  | inr s ↦ s
]

pub unused : (n : List ℕ) (e : Entry) → e.in_use ≡ false → matches n e ≡ false
unfolding matches
unused n e free = ground (arith, free)
