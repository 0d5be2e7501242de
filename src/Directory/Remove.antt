-- ===== src/Directory/Remove.antt =====
-- An entry that is no longer in use.
use projectmod.Base.{
  ℕ, zero, suc, ◌+◌, ◌≡◌, refl, inl, inr, true, false, none, some, List, [], ◌∷◌, arith,
  if◌then◌else◌, Bool-cases, Option-cases,
}
use projectmod.Directory.{Entry, same_name, matches, lookup, write_entry}
use projectmod.Directory.Names.{
  same_name_self, same_name_eq, meaning, NoOther, IsUnique, other_name, unused,
}

-- The entry that `lookup` finds, and what remains when it is no longer in use.
abbrev pub unlinked : Entry → Entry
unlinked e = record e { in_use = false }

pub lookup-some :
    (name : List ℕ) (es : List Entry) (e : Entry) (i : ℕ)
    → lookup name es ≡ some (e, i)
    → (meaning name es ≡ some (e.inode_sector, e.is_dir)) × (matches name e ≡ true)
unfolding lookup meaning
lookup-some name [] e i h = cc
lookup-some name (f ∷ rest) e i h = elim (Bool-cases (matches name f)) [
  | inl m ↦ let same : f ≡ e = ground (arith, m, h) in rw m (rw same refl, rw same at m)
  | inr m ↦ elim (Option-cases (lookup name rest)) [
    | inl q ↦ ground (arith, m, q, h)
    | inr ((g, j), q) ↦
        let same : g ≡ e = ground (arith, m, q, h) in
        let (k, l) = lookup-some name rest g j q in rw m (rw (← same) k, rw (← same) l)
  ]
]

-- The place of the entry.
lookup-some-cons :
    (name : List ℕ) (f : Entry) (rest : List Entry) (e : Entry) (i : ℕ)
    → lookup name (f ∷ rest) ≡ some (e, i)
    → matches name f ≡ false
    → (j : ℕ) × (lookup name rest ≡ some (e, j)) × (i ≡ suc j)
unfolding lookup
lookup-some-cons name f rest e i h m = elim (Option-cases (lookup name rest)) [
  | inl q ↦ ground (arith, m, q, h)
  | inr ((g, j), q) ↦
      let same : g ≡ e = ground (arith, m, q, h) in
      let place : j + 1 ≡ i = ground (arith, m, q, h) in (j, rw (← same) q, omega arith)
]

lookup-some-here :
    (name : List ℕ) (f : Entry) (rest : List Entry) (e : Entry) (i : ℕ)
    → lookup name (f ∷ rest) ≡ some (e, i)
    → matches name f ≡ true
    → (e ≡ f) × (i ≡ 0)
unfolding lookup
lookup-some-here name f rest e i h m = ground (arith, m, h)

meaning-NoOther :
    (name : List ℕ) (e : Entry) (rest : List Entry)
    → matches name e ≡ true
    → NoOther e rest
    → meaning name rest ≡ none
unfolding meaning matches
meaning-NoOther name e [] m h = refl
meaning-NoOther name e (f ∷ rest) m (out, h) =
    let used : e.in_use ≡ true = ground (arith, m) in
    let s : same_name name e.name ≡ true = ground (arith, m) in
    let eq = same_name_eq name e.name s in
    let k : matches name f ≡ false = rw (← eq) at (out used) in
    rw k (meaning-NoOther name e rest m h)

nothing_in_use : (e : Entry) (rest : List Entry) → NoOther (unlinked e) rest
nothing_in_use e [] = tt
nothing_in_use e (f ∷ rest) = (λ u. cc, nothing_in_use e rest)

no_entry : (name : List ℕ) (e : Entry) (i : ℕ) → lookup name [] ≡ some (e, i) → ⊥
unfolding lookup
no_entry name e i h = cc

-- An entry has one name.
not_both :
    (n name : List ℕ) (f : Entry)
    → matches n f ≡ true
    → matches name f ≡ true
    → same_name n name ≡ false
    → ⊥
unfolding matches
not_both n name f k m s =
    let a = same_name_eq n f.name (ground (arith, k)) in
    let b = same_name_eq name f.name (ground (arith, m)) in
    let self : same_name n name ≡ true = rw (a, b) (same_name_self f.name) in cc

-- Without the entry in front the name means nothing, and other names mean the same.
gone :
    (n name : List ℕ) (f : Entry) (rest : List Entry)
    → matches name f ≡ true
    → NoOther f rest
    → meaning n rest ≡ (if same_name n name then none else meaning n (f ∷ rest))
unfolding meaning
gone n name f rest m out = elim (Bool-cases (same_name n name)) [
  | inl s ↦ rw (s, same_name_eq n name s) (meaning-NoOther name f rest m out)
  | inr s ↦ elim (Bool-cases (matches n f)) [
    | inl k ↦ absurd (not_both n name f k m s)
    | inr k ↦ rw (s, k) refl
  ]
]

NoOther-unlink :
    (f e : Entry) (i : ℕ) (es : List Entry)
    → NoOther f es
    → NoOther f (write_entry i (unlinked e) es)
unfolding write_entry
NoOther-unlink f e i [] h = (λ u. unused f.name (unlinked e) refl, tt)
NoOther-unlink f e zero (g ∷ es) (out, h) = (λ u. unused f.name (unlinked e) refl, h)
NoOther-unlink f e (suc i) (g ∷ es) (out, h) = (out, NoOther-unlink f e i es h)

pub unlinked-IsUnique :
    (name : List ℕ) (es : List Entry) (e : Entry) (i : ℕ)
    → lookup name es ≡ some (e, i)
    → IsUnique es
    → IsUnique (write_entry i (unlinked e) es)
unfolding write_entry
unlinked-IsUnique name [] e i h u = (tt, tt)
unlinked-IsUnique name (f ∷ rest) e i h (out, u) = elim (Bool-cases (matches name f)) [
  | inl m ↦
      let (same, first) = lookup-some-here name f rest e i h m in
      rw first (nothing_in_use e rest, u)
  | inr m ↦
      let (j, found, place) = lookup-some-cons name f rest e i h m in
      rw place (NoOther-unlink f e j rest out, unlinked-IsUnique name rest e j found u)
]

pub meaning-unlinked :
    (n name : List ℕ) (es : List Entry) (e : Entry) (i : ℕ)
    → lookup name es ≡ some (e, i)
    → IsUnique es
    → meaning n (write_entry i (unlinked e) es) ≡ (if same_name n name then none else meaning n es)
unfolding meaning write_entry
meaning-unlinked n name [] e i h u = absurd (no_entry name e i h)
meaning-unlinked n name (f ∷ rest) e i h (out, u) = elim (Bool-cases (matches name f)) [
  | inl m ↦
      let (same, first) = lookup-some-here name f rest e i h m in
      rw (first, unused n (unlinked e) refl) (gone n name f rest m out)
  | inr m ↦
      let (j, found, place) = lookup-some-cons name f rest e i h m in
      rw place (elim (Bool-cases (matches n f)) [
        | inl here ↦ let differs = other_name n name f here m in rw (here, differs) refl
        | inr k ↦ rw k (meaning-unlinked n name rest e j found u)
      ])
]
