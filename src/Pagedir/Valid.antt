-- ===== src/Pagedir/Valid.antt =====
-- Well-formed page directories.
use projectmod.Base.{
  ℕ, ◌+◌, ◌*◌, ◌%◌, ◌^◌, ◌<◌, ◌≡◌, ◌≢◌, refl, false, none, some, List, [], ◌∷◌, arith, ◌==◌,
  if◌then◌else◌, eq→==, ne→==,
}
use native.Mathlib.Decide.{ℕ_discrete}
use projectmod.Strings.{Memory}
use projectmod.Palloc.{phys_base}
use projectmod.Pagedir.{Tables, pd_no, pt_no, pde_get_pt, pde_of, pte_in, lookup_page}
use projectmod.Pagedir.Entries.{IsPage, page_in, ptov-masked, has_flag-pte_p}

abbrev pub NotIn : ℕ → List ℕ → Type 0
NotIn p [] = Unit
NotIn p (q ∷ rest) = (p ≢ q) × NotIn p rest

-- Entry `i` of a directory.
abbrev pub pde : ℕ → Memory → ℕ → ℕ
pde pd w i = w (pd + 4 * i)

-- A page that is neither the directory nor one of its tables.
pub record IsFree (pd : ℕ) (w : Memory) (p : ℕ) : Type 0 where
  pub page : IsPage p
  pub no_directory : p ≢ pd
  pub no_table : (i : ℕ) → i < 768 → pde pd w i ≢ 0 → page_in (pde pd w i) ≢ p

abbrev pub AllFree : ℕ → Memory → List ℕ → Type 0
AllFree pd w [] = Unit
AllFree pd w (p ∷ rest) = IsFree pd w p × NotIn p rest × AllFree pd w rest

-- The entries for user addresses name tables, one each, in pages apart from the directory's and from
-- those that are left to give.
pub record IsValid (pd : ℕ) (s : Tables) : Type 0 where
  pub place : IsPage pd
  pub entries :
      (i : ℕ)
      → i < 768
      → pde pd s.words i ≢ 0
      → (pde pd s.words i % 2 ≡ 1) × (pde pd s.words i < 2 ^ 30)
  pub no_directory : (i : ℕ) → i < 768 → pde pd s.words i ≢ 0 → page_in (pde pd s.words i) ≢ pd
  pub apart :
      (i j : ℕ)
      → i < 768
      → j < 768
      → i ≢ j
      → pde pd s.words i ≢ 0
      → pde pd s.words j ≢ 0
      → page_in (pde pd s.words i) ≢ page_in (pde pd s.words j)
  pub free : AllFree pd s.words s.pages

-- The entry for a user address: 0 where there is no table.
abbrev pub entry_at : ℕ → ℕ → ℕ
entry_at e va = page_in e + 4 * pt_no va

unfoldable pub pte_of : (pd va : ℕ) → Memory → ℕ
pte_of pd va w = let e = w (pde_of pd va) in if e == 0 then 0 else w (entry_at e va)

pub pde_of_lem :
    (pd va : ℕ) → va < phys_base → (pde_of pd va ≡ pd + 4 * pd_no va) × (pd_no va < 768)
unfolding pde_of
pde_of_lem pd va h = (refl, unfold pd_no in omega arith)

-- What `lookup_page` finds where there is a table.
pub pte_in_lem :
    (e_at va : ℕ) (s : Tables)
    → s.words e_at % 2 ≡ 1
    → s.words e_at < 2 ^ 30
    → pte_in e_at va s ≡ some (some (entry_at (s.words e_at) va), s)
unfolding pte_in pde_get_pt
pte_in_lem e_at va s present small =
    rw
      (
        has_flag-pte_p (s.words e_at),
        eq→== (s.words e_at % 2) 1 present,
        ptov-masked (s.words e_at) small,
      )
      refl

-- A search that creates nothing.
pub lookup_page_lem :
    (pd va : ℕ) (s : Tables)
    → IsValid pd s
    → va < phys_base
    → lookup_page pd va false s
      ≡ some (
        (if s.words (pde_of pd va) == 0 then none else some (entry_at (s.words (pde_of pd va)) va)),
        s,
      )
unfolding lookup_page
lookup_page_lem pd va s v h =
    let (at, inside) = pde_of_lem pd va h in
    elim (ℕ_discrete (s.words (pde_of pd va)) 0) [
      | yes z ↦ rw (eq→== (s.words (pde_of pd va)) 0 z) refl
      | no nz ↦
          let (present, small) = v.entries (pd_no va) inside (rw at at nz) in
          rw (ne→== (s.words (pde_of pd va)) 0 nz, pte_in_lem (pde_of pd va) va s present small)
            refl
    ]
