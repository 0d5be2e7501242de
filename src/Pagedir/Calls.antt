-- ===== src/Pagedir/Calls.antt =====
-- The calls of userprog/pagedir.c on well-formed directories.
use projectmod.Base.{
  ℕ, ◌+◌, ◌-◌, ◌/◌, ◌%◌, ◌^◌, ◌<◌, ◌≡◌, ◌≢◌, refl, ◌⊎◌, inl, inr, Bool, true, false, Option, none,
  some, List, [], ◌∷◌, arith, lt→ltb, ◌==◌, if◌then◌else◌, ◌>>=◌, ◌∙◌, ap, sym, eq→==, ne→==,
  Bool-cases,
}
use native.Mathlib.Decide.{ℕ_discrete}
use projectmod.Palloc.{phys_base, pg_ofs}
use projectmod.Pagedir.{
  Tables, is_user_vaddr, pte_p, has_flag, pd_no, pde_of, lookup_page, create_table, add_table,
  take_page, install, pte_get_page, page_of, pagedir_set_page, pagedir_get_page,
}
use projectmod.Pagedir.Entries.{
  IsPage, entry_of, page_in-entry_of, has_flag-pte_p, ptov-masked, pte_create_user_lem, vtop_lem,
}
use projectmod.Pagedir.Valid.{IsValid, entry_at, pte_of, pde_of_lem, pte_in_lem, lookup_page_lem}
use projectmod.Pagedir.Map.{changed, changed-IsValid, changed-pte_of}
use projectmod.Pagedir.Create.{
  created, created-IsValid, created-pte_of, create_table_lem, created_entry,
}

-- The directory `s'` has the mappings of `s` and one more, from the page `upage`.
pub record Mapped (pd upage kpage : ℕ) (writable : Bool) (s s' : Tables) : Type 0 where
  pub valid : IsValid pd s'
  pub entries :
      (va : ℕ)
      → va < phys_base
      → pte_of pd va s'.words ≡ (
          if va / 2 ^ 12 == upage / 2 ^ 12
          then entry_of kpage (if writable then 7 else 5)
          else pte_of pd va s.words)

pages_cases : (l : List ℕ) → (l ≡ []) ⊎ ((p : ℕ) × (rest : List ℕ) × (l ≡ p ∷ rest))
pages_cases [] = inl refl
pages_cases (p ∷ rest) = inr (p, rest, refl)

no_page : (pde va : ℕ) (s : Tables) → s.pages ≡ [] → create_table pde va s ≡ some (none, s)
unfolding create_table
no_page pde va s e = ap (λ l. add_table pde va s (take_page l s.words)) e

not_installed :
    (kpage : ℕ) (writable : Bool) (s : Tables) → install kpage writable (none, s) ≡ some (false, s)
unfolding install
not_installed kpage writable s = refl

module _ {pd : ℕ} (upage kpage : ℕ) (writable : Bool) (user : upage < phys_base)
    (page : IsPage kpage) where
  -- With a table there.
  install_lem :
      {s : Tables} (v : IsValid pd s) (there : s.words (pde_of pd upage) ≢ 0)
      → has_flag (pte_of pd upage s.words) pte_p ≡ false
      → (s' : Tables) × (install kpage writable
            (some (entry_at (s.words (pde_of pd upage)) upage), s)
          ≡ some (true, s'))
        × Mapped pd upage kpage writable s s'
  unfolding install changed pte_of
  install_lem {s} v there absent =
      let x = entry_of kpage (if writable then 7 else 5) in
      let absent' = rw (ne→== (s.words (pde_of pd upage)) 0 there) at absent in
      (
        record s { words = changed v upage x user there },
        rw (absent', pte_create_user_lem kpage page writable) refl,
        record {
          valid = changed-IsValid v upage x user there;
          entries = changed-pte_of v upage x user there;
        },
      )

  -- The search for an entry to install, which may make a table for it.
  find_lem :
      {s : Tables} (v : IsValid pd s)
      → has_flag (pte_of pd upage s.words) pte_p ≡ false
      → ((s' : Tables) × ((lookup_page pd upage true s >>= install kpage writable)
            ≡ some (true, s'))
          × Mapped pd upage kpage writable s s')
        ⊎ ((s.pages ≡ [])
            × ((lookup_page pd upage true s >>= install kpage writable) ≡ some (false, s)))
  unfolding lookup_page
  find_lem {s} v absent =
      let (at, inside) = pde_of_lem pd upage user in
      let e = s.words (pde_of pd upage) in
      let allowed : is_user_vaddr upage ≡ true = lt→ltb upage phys_base user in
      elim (ℕ_discrete e 0) [
        | no there ↦
            let (present, small) = v.entries (pd_no upage) inside (rw at at there) in
            let (s', done, mapped) = install_lem v there absent in
            inl (
              s',
              rw (allowed, ne→== e 0 there, pte_in_lem (pde_of pd upage) upage s present small)
                  done,
              mapped,
            )
        | yes missing ↦ elim (pages_cases s.pages) [
          | inl none_left ↦ inr (
            none_left,
            rw (allowed, eq→== e 0 missing)
                (rw (no_page (pde_of pd upage) upage s none_left) (not_installed kpage writable s)),
          )
          | inr (p, rest, given) ↦
              let s1 = created v upage p rest user missing given in
              let v1 = created-IsValid v upage p rest user missing given in
              let at_new = created_entry v upage p rest user missing given in
              let same = created-pte_of v upage p rest user missing given in
              let there : s1.words (pde_of pd upage) ≢ 0 = rw at_new (omega arith) in
              let (s', done, mapped) = install_lem v1 there (rw (same upage user) absent) in
              inl (
                s',
                rw (allowed, eq→== e 0 missing, create_table_lem v upage p rest user missing given)
                    (ap (λ e. install kpage writable (some (entry_at e upage), s1)) (sym at_new)
                      ∙ done),
                record {
                  valid = mapped.valid;
                  entries = λ va h. rw (same va h) at (mapped.entries va h);
                },
              )
        ]
      ]

-- What `pagedir_get_page` makes of an entry.
abbrev pub translated : (entry va : ℕ) → Option (Option ℕ)
translated entry va =
    if has_flag entry pte_p
    then (pte_get_page entry >>= λ page. some (some (page + pg_ofs va)))
    else some none

pub get_page_lem :
    {pd : ℕ} {s : Tables} (va : ℕ)
    → IsValid pd s
    → va < phys_base
    → pagedir_get_page pd va s ≡ translated (pte_of pd va s.words) va
unfolding pagedir_get_page pte_of page_of
get_page_lem {pd} {s} va v user =
    let e = s.words (pde_of pd va) in
    let c : is_user_vaddr va ≡ true = lt→ltb va phys_base user in
    rw (c, lookup_page_lem pd va s v user)
      (elim (ℕ_discrete e 0) [ yes z ↦ rw (eq→== e 0 z) refl | no nz ↦ rw (ne→== e 0 nz) refl ])

translated_lem :
    (kpage va flags : ℕ)
    → IsPage kpage
    → flags < 8
    → flags % 2 ≡ 1
    → translated (entry_of kpage flags) va ≡ some (some (kpage + pg_ofs va))
unfolding pte_get_page
translated_lem kpage va flags page h odd =
    let e = entry_of kpage flags in
    let present : e % 2 ≡ 1 = omega (arith, page.aligned, page.above) in
    rw
      (
        has_flag-pte_p e,
        eq→== (e % 2) 1 present,
        ptov-masked e (omega (arith, page.aligned, page.below)),
        page_in-entry_of kpage flags page (omega arith),
      )
      refl

-- Where a page was mapped, its addresses translate to those of the kernel's page, and all other user
-- addresses as before.
get_page-Mapped :
    {pd : ℕ} {s s' : Tables} (upage kpage : ℕ) (writable : Bool) (va : ℕ)
    → IsValid pd s
    → Mapped pd upage kpage writable s s'
    → IsPage kpage
    → va < phys_base
    → pagedir_get_page pd va s' ≡ (
        if va / 2 ^ 12 == upage / 2 ^ 12
        then some (some (kpage + pg_ofs va))
        else pagedir_get_page pd va s)
get_page-Mapped {pd} {s} {s'} upage kpage writable va v mapped page user =
    get_page_lem va mapped.valid user
    ∙ ap (λ e. translated e va) (mapped.entries va user)
    ∙ elim (Bool-cases (va / 2 ^ 12 == upage / 2 ^ 12)) [
      | inl here ↦
          rw here
            (translated_lem kpage va (if writable then 7 else 5) page (ground arith) (ground arith))
      | inr other ↦ rw other (sym (get_page_lem va v user))
    ]

-- The directory `s'` has one mapping more, and addresses translate accordingly.
pub record Maps (pd upage kpage : ℕ) (writable : Bool) (s s' : Tables) : Type 0 where
  pub mapped : Mapped pd upage kpage writable s s'
  pub translations :
      (va : ℕ)
      → va < phys_base
      → pagedir_get_page pd va s' ≡ (
          if va / 2 ^ 12 == upage / 2 ^ 12
          then some (some (kpage + pg_ofs va))
          else pagedir_get_page pd va s)

-- A page of the kernel, in the physical memory, for a user page that is not mapped, in a well-formed
-- directory: either the directory stays well-formed, the user page's entry is for that page with the
-- right to write if that is asked for, the entries of all other user pages are as before, and
-- `pagedir_get_page` gives the kernel's page for the addresses of the user page and what it gave for
-- all others; or there was no page left for a table, the result is false, and nothing has changed.
pub pagedir_set_page_lem :
    {pd : ℕ} {s : Tables} (init_ram_pages upage kpage : ℕ) (writable : Bool)
    → IsValid pd s
    → pg_ofs upage ≡ 0
    → upage < phys_base
    → IsPage kpage
    → (kpage - phys_base) / 2 ^ 12 < init_ram_pages
    → has_flag (pte_of pd upage s.words) pte_p ≡ false
    → ((s' : Tables) × (pagedir_set_page init_ram_pages pd upage kpage writable s ≡ some (true, s'))
        × Maps pd upage kpage writable s s')
      ⊎ ((s.pages ≡ [])
          × (pagedir_set_page init_ram_pages pd upage kpage writable s ≡ some (false, s)))
unfolding pagedir_set_page
pagedir_set_page_lem {pd} {s} init_ram_pages upage kpage writable v aligned user page ram absent =
    let a : (pg_ofs upage == 0) ≡ true = eq→== (pg_ofs upage) 0 aligned in
    let b : (pg_ofs kpage == 0) ≡ true = eq→== (pg_ofs kpage) 0 page.aligned in
    let c : is_user_vaddr upage ≡ true = lt→ltb upage phys_base user in
    let d = lt→ltb ((kpage - phys_base) / 2 ^ 12) init_ram_pages ram in
    rw (a, b, c, vtop_lem kpage page, d)
      (elim (find_lem upage kpage writable user page v absent) [
        | inl (s', done, mapped) ↦ inl (
          s',
          done,
          record {
            mapped = mapped;
            translations = λ va h. get_page-Mapped upage kpage writable va v mapped page h;
          },
        )
        | inr none_left ↦ inr none_left
      ])
