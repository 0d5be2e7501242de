-- ===== src/Directory/Add.antt =====
-- A new entry.
use projectmod.Base.{
  ℕ, zero, suc, ◌≡◌, refl, inl, inr, true, false, none, some, List, [], ◌∷◌, arith, if◌then◌else◌,
  Bool-cases,
}
use projectmod.Directory.{Entry, same_name, matches, lookup, free_slot, write_entry}
use projectmod.Directory.Names.{
  same_name_self, same_name_eq, meaning, NoOther, IsUnique, lookup-none-cons, other_name, unused,
}

NoOther-none :
    (name : List ℕ) (e : Entry) (rest : List Entry)
    → e.name ≡ name
    → lookup name rest ≡ none
    → NoOther e rest
NoOther-none name e [] named h = tt
NoOther-none name e (f ∷ rest) named h =
    let (m, q) = lookup-none-cons name f rest h in
    (λ u. rw named m, NoOther-none name e rest named q)

-- A new entry in the first free slot.
module _ (name : List ℕ) (new : Entry) (used : new.in_use ≡ true) (named : new.name ≡ name) where
  matches-new : (n : List ℕ) → matches n new ≡ same_name n name
  unfolding matches
  matches-new n = rw (used, named) refl

  -- An entry that does not have the name differs from the new one.
  other-new : (e : Entry) → matches name e ≡ false → e.in_use ≡ true → same_name e.name name ≡ false
  unfolding matches
  other-new e m u = elim (Bool-cases (same_name e.name name)) [
    | inl s ↦
        let eq = same_name_eq e.name name s in
        let self : same_name name e.name ≡ true = rw eq (same_name_self name) in
        ground (arith, m, u, self)
    | inr s ↦ s
  ]

  NoOther-write :
      (e : Entry) (i : ℕ) (es : List Entry)
      → matches name e ≡ false
      → NoOther e es
      → NoOther e (write_entry i new es)
  unfolding write_entry
  NoOther-write e i [] m h = (λ u. rw (matches-new e.name) (other-new e m u), tt)
  NoOther-write e zero (f ∷ es) m (h, r) = (λ u. rw (matches-new e.name) (other-new e m u), r)
  NoOther-write e (suc i) (f ∷ es) m (h, r) = (h, NoOther-write e i es m r)

  pub added-IsUnique :
      (es : List Entry)
      → lookup name es ≡ none
      → IsUnique es
      → IsUnique (write_entry (free_slot es) new es)
  unfolding free_slot write_entry
  added-IsUnique [] h u = (tt, tt)
  added-IsUnique (e ∷ rest) h (out, u) =
      let (m, q) = lookup-none-cons name e rest h in
      elim (Bool-cases e.in_use) [
        | inl used' ↦
            let at : free_slot (e ∷ rest) ≡ suc (free_slot rest) = ground (arith, used') in
            rw at (NoOther-write e (free_slot rest) rest m out, added-IsUnique rest q u)
        | inr free ↦
            let at : free_slot (e ∷ rest) ≡ 0 = ground (arith, free) in
            rw at (NoOther-none name new rest named q, u)
      ]

  pub meaning-added :
      (n : List ℕ) (es : List Entry)
      → lookup name es ≡ none
      → meaning n (write_entry (free_slot es) new es)
        ≡ (if same_name n name then some (new.inode_sector, new.is_dir) else meaning n es)
  unfolding meaning free_slot write_entry
  meaning-added n [] h = ground (arith, matches-new n)
  meaning-added n (e ∷ rest) h =
      let (m, q) = lookup-none-cons name e rest h in
      elim (Bool-cases e.in_use) [
        | inl used' ↦
            let at : free_slot (e ∷ rest) ≡ suc (free_slot rest) = ground (arith, used') in
            rw at (elim (Bool-cases (matches n e)) [
              | inl here ↦
                  let differs : same_name n name ≡ false = other_name n name e here m in
                  rw (here, differs) refl
              | inr k ↦ rw k (meaning-added n rest q)
            ])
        | inr free ↦
            let at : free_slot (e ∷ rest) ≡ 0 = ground (arith, free) in
            let k : matches n e ≡ false = unused n e free in
            rw (at, k) (ground (arith, matches-new n))
      ]
