-- ===== src/Pagedir/Clear.antt =====
-- `pagedir_clear_page`.
use projectmod.Base.{
  ℕ, ◌-◌, ◌/◌, ◌%◌, ◌^◌, ◌<◌, ◌≡◌, refl, inl, inr, true, false, none, some, arith, lt→ltb, bit_and,
  ◌==◌, if◌then◌else◌, ◌∙◌, ap, sym, eq→==, ne→==, Bool-cases,
}
use native.Mathlib.Decide.{ℕ_discrete}
use projectmod.Base.Digits.Step.{bit_and-halves}
use projectmod.Palloc.{phys_base, pg_ofs}
use projectmod.Pagedir.{
  Tables, is_user_vaddr, pte_p, has_flag, pde_of, absent, pagedir_clear_page, pagedir_get_page,
}
use projectmod.Pagedir.Entries.{has_flag-pte_p}
use projectmod.Pagedir.Valid.{IsValid, entry_at, pte_of, lookup_page_lem}
use projectmod.Pagedir.Map.{same_numbers, changed, changed-IsValid, changed-pte_of}
use projectmod.Pagedir.Calls.{translated, get_page_lem}

absent_lem : (e : ℕ) → has_flag (absent e) pte_p ≡ false
unfolding absent
absent_lem e = elim (Bool-cases (has_flag e pte_p)) [
  | inl h ↦
      let even : bit_and e (2 ^ 32 - 1 - pte_p) % 2 ≡ 0 =
        omega (arith, bit_and-halves e (2 ^ 32 - 1 - pte_p)) in
      rw h (has_flag-pte_p (bit_and e (2 ^ 32 - 1 - pte_p)) ∙ rw even refl)
  | inr h ↦ rw h h
]

-- The page is no longer mapped, and other addresses translate as before.
pub record Cleared (pd upage : ℕ) (s s' : Tables) : Type 0 where
  pub valid : IsValid pd s'
  pub translations :
      (va : ℕ)
      → va < phys_base
      → pagedir_get_page pd va s'
        ≡ (if va / 2 ^ 12 == upage / 2 ^ 12 then some none else pagedir_get_page pd va s)

untranslated : (entry va : ℕ) → has_flag entry pte_p ≡ false → translated entry va ≡ some none
untranslated entry va h = rw h refl

-- A map of pages in which the page's entry is not present, and the others are as they were.
entries-Cleared :
    {pd : ℕ} {s s' : Tables} (upage x : ℕ)
    → IsValid pd s
    → IsValid pd s'
    → has_flag x pte_p ≡ false
    → ((va : ℕ)
        → va < phys_base
        → pte_of pd va s'.words
          ≡ (if va / 2 ^ 12 == upage / 2 ^ 12 then x else pte_of pd va s.words))
    → Cleared pd upage s s'
entries-Cleared {pd} {s} {s'} upage x v v' gone entries = record {
  valid = v';
  translations = λ va h.
      get_page_lem va v' h
      ∙ ap (λ e. translated e va) (entries va h)
      ∙ elim (Bool-cases (va / 2 ^ 12 == upage / 2 ^ 12)) [
        | inl here ↦ rw here (untranslated x va gone)
        | inr other ↦ rw other (sym (get_page_lem va v h))
      ];
}

-- Without a table, the page's entry is 0.
no_table :
    (pd : ℕ) (s : Tables) (upage va : ℕ)
    → s.words (pde_of pd upage) ≡ 0
    → pte_of pd va s.words ≡ (if va / 2 ^ 12 == upage / 2 ^ 12 then 0 else pte_of pd va s.words)
unfolding pte_of pde_of
no_table pd s upage va missing = elim (ℕ_discrete (va / 2 ^ 12) (upage / 2 ^ 12)) [
  | yes q ↦
      let same = (same_numbers va upage q).0 in
      rw (eq→== (va / 2 ^ 12) (upage / 2 ^ 12) q, same, missing) refl
  | no nq ↦ rw (ne→== (va / 2 ^ 12) (upage / 2 ^ 12) nq) refl
]

-- Clearing a user page in a well-formed directory leaves it well-formed: `pagedir_get_page` gives the
-- null pointer for the addresses of the page, and for all others what it gave.
pub pagedir_clear_page_lem :
    {pd : ℕ} {s : Tables} (upage : ℕ)
    → IsValid pd s
    → pg_ofs upage ≡ 0
    → upage < phys_base
    → (s' : Tables) × (pagedir_clear_page pd upage s ≡ some s') × Cleared pd upage s s'
unfolding pagedir_clear_page changed
pagedir_clear_page_lem {pd} {s} upage v aligned user =
    let a : (pg_ofs upage == 0) ≡ true = eq→== (pg_ofs upage) 0 aligned in
    let c : is_user_vaddr upage ≡ true = lt→ltb upage phys_base user in
    let e = s.words (pde_of pd upage) in
    rw (a, c, lookup_page_lem pd upage s v user)
      (elim (ℕ_discrete e 0) [
        | yes z ↦ (
          s,
          rw (eq→== e 0 z) refl,
          entries-Cleared upage 0 v v refl (λ va h. no_table pd s upage va z),
        )
        | no there ↦
            let x = absent (s.words (entry_at e upage)) in
            (
              record s { words = changed v upage x user there },
              rw (ne→== e 0 there) refl,
              entries-Cleared upage x v (changed-IsValid v upage x user there)
                  (absent_lem (s.words (entry_at e upage))) (changed-pte_of v upage x user there),
            )
      ])
