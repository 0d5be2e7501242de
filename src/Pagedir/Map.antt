-- ===== src/Pagedir/Map.antt =====
-- A directory as a map from pages to entries: what a change of one entry, and a new table, do to it.
use projectmod.Base.{
  ℕ, ◌+◌, ◌*◌, ◌/◌, ◌%◌, ◌^◌, ◌<◌, ◌≡◌, ◌≢◌, refl, true, false, List, [], ◌∷◌, arith, ◌==◌,
  if◌then◌else◌, ap, sym, eq→==, ne→==,
}
use native.Mathlib.Decide.{ℕ_discrete}
use projectmod.Strings.{Memory, store}
use projectmod.Palloc.{phys_base}
use projectmod.Pagedir.{Tables, pd_no, pt_no, pde_of}
use projectmod.Pagedir.Entries.{page_in}
use projectmod.Pagedir.Valid.{pde, IsFree, AllFree, IsValid, entry_at, pte_of, pde_of_lem}

pub pt_no-lt : (va : ℕ) → pt_no va < 1024
unfolding pt_no
pt_no-lt va = omega arith

-- Pages are named by both of their numbers.
pub same_page : (va vb : ℕ) → pd_no va ≡ pd_no vb → pt_no va ≡ pt_no vb → va / 2 ^ 12 ≡ vb / 2 ^ 12
unfolding pd_no pt_no
same_page va vb h k = omega arith

pub same_numbers :
    (va vb : ℕ) → va / 2 ^ 12 ≡ vb / 2 ^ 12 → (pd_no va ≡ pd_no vb) × (pt_no va ≡ pt_no vb)
unfolding pd_no pt_no
same_numbers va vb h = omega arith

-- Words of two pages that differ are apart.
pub apart_words :
    (p q i j : ℕ)
    → p % 2 ^ 12 ≡ 0
    → q % 2 ^ 12 ≡ 0
    → i < 1024
    → j < 1024
    → p ≢ q
    → p + 4 * i ≢ q + 4 * j
apart_words p q i j a b h k ne e = ne (omega arith)

-- The same entries in the directory.
abbrev SameEntries : ℕ → (w w' : Memory) → Type 0
SameEntries pd w w' = (i : ℕ) → i < 768 → pde pd w' i ≡ pde pd w i

module _ (pd : ℕ) (w w' : Memory) (same : SameEntries pd w w') where
  IsFree-same : {p : ℕ} → IsFree pd w p → IsFree pd w' p
  IsFree-same {p} f = record {
    page = f.page;
    no_directory = f.no_directory;
    no_table = λ i h. rw (same i h) (f.no_table i h);
  }

  AllFree-same : (pages : List ℕ) → AllFree pd w pages → AllFree pd w' pages
  AllFree-same [] all = tt
  AllFree-same (p ∷ rest) (f, out, all) = (IsFree-same f, out, AllFree-same rest all)

IsValid-same :
    {pd : ℕ} {s : Tables} (w' : Memory)
    → IsValid pd s
    → SameEntries pd s.words w'
    → IsValid pd (record s { words = w' })
IsValid-same {pd} {s} w' v same = record {
  place = v.place;
  entries = λ i h. rw (same i h) (v.entries i h);
  no_directory = λ i h. rw (same i h) (v.no_directory i h);
  apart = λ i j h k. rw (same i h, same j k) (v.apart i j h k);
  free = AllFree-same pd s.words w' same s.pages v.free;
}

-- A change of the entry for `va`, which has a table.
module _ {pd : ℕ} {s : Tables} (v : IsValid pd s) (va x : ℕ) (user : va < phys_base)
    (there : s.words (pde_of pd va) ≢ 0) where
  unfoldable pub changed : Memory
  changed = store (entry_at (s.words (pde_of pd va)) va) x s.words

  changed_entries : SameEntries pd s.words changed
  unfolding changed
  changed_entries i h =
      let (at, inside) = pde_of_lem pd va user in
      let e = s.words (pde_of pd va) in
      let ne = rw (← at) at (v.no_directory (pd_no va) inside (rw at at there)) in
      let apart =
        apart_words (page_in e) pd (pt_no va) i (omega arith) (v.place).aligned (pt_no-lt va)
          (omega arith) ne in
      rw (ne→== (pd + 4 * i) (entry_at e va) (λ q. apart (sym q))) refl

  pub changed-IsValid : IsValid pd (record s { words = changed })
  changed-IsValid = IsValid-same changed v changed_entries

  one_table :
      (vb : ℕ)
      → s.words (pde_of pd vb) ≡ s.words (pde_of pd va)
      → pd_no vb ≡ pd_no va
      → changed (entry_at (s.words (pde_of pd vb)) vb)
        ≡ (if vb / 2 ^ 12 == va / 2 ^ 12 then x else s.words (entry_at (s.words (pde_of pd vb)) vb))
  unfolding changed
  one_table vb e' same =
      let e = s.words (pde_of pd va) in
      rw e' (elim (ℕ_discrete (pt_no vb) (pt_no va)) [
        | yes k ↦
            let page = same_page vb va same k in
            rw
              (
                eq→== (entry_at e vb) (entry_at e va) (omega (arith, k)),
                eq→== (vb / 2 ^ 12) (va / 2 ^ 12) page,
              )
              refl
        | no nk ↦
            rw
              (
                ne→== (entry_at e vb) (entry_at e va) (omega (arith, nk)),
                ne→== (vb / 2 ^ 12) (va / 2 ^ 12) (λ q. nk (same_numbers vb va q).1),
              )
              refl
      ])

  two_tables :
      (vb : ℕ)
      → vb < phys_base
      → pd_no vb ≢ pd_no va
      → s.words (pde_of pd vb) ≢ 0
      → changed (entry_at (s.words (pde_of pd vb)) vb)
        ≡ (if vb / 2 ^ 12 == va / 2 ^ 12 then x else s.words (entry_at (s.words (pde_of pd vb)) vb))
  unfolding changed
  two_tables vb user' differ nz =
      let e = s.words (pde_of pd va) in
      let f = s.words (pde_of pd vb) in
      let (at, inside) = pde_of_lem pd va user in
      let (at', inside') = pde_of_lem pd vb user' in
      let pages =
        rw (← at, ← at') at
          (v.apart (pd_no vb) (pd_no va) inside' inside differ (rw at' at nz) (rw at at there)) in
      let apart =
        apart_words (page_in f) (page_in e) (pt_no vb) (pt_no va) (omega arith) (omega arith)
          (pt_no-lt vb) (pt_no-lt va) pages in
      rw
        (
          ne→== (entry_at f vb) (entry_at e va) apart,
          ne→== (vb / 2 ^ 12) (va / 2 ^ 12) (λ q. differ (same_numbers vb va q).0),
        )
        refl

  pub changed-pte_of :
      (vb : ℕ)
      → vb < phys_base
      → pte_of pd vb changed ≡ (if vb / 2 ^ 12 == va / 2 ^ 12 then x else pte_of pd vb s.words)
  unfolding pte_of
  changed-pte_of vb user' =
      let e = s.words (pde_of pd va) in
      let f = s.words (pde_of pd vb) in
      let (at, inside) = pde_of_lem pd va user in
      let (at', inside') = pde_of_lem pd vb user' in
      let kept : changed (pde_of pd vb) ≡ f = rw (← at') at (changed_entries (pd_no vb) inside') in
      elim (ℕ_discrete (pd_no vb) (pd_no va)) [
        | yes same ↦
            let e' : f ≡ e = ap s.words (omega (arith, at, at', same)) in
            let is_there : (f == 0) ≡ false = rw e' (ne→== e 0 there) in
            rw (kept, is_there) (one_table vb e' same)
        | no differ ↦ elim (ℕ_discrete f 0) [
          | yes z ↦
              let is_none : (f == 0) ≡ true = eq→== f 0 z in
              let page_differs : (vb / 2 ^ 12 == va / 2 ^ 12) ≡ false =
                ne→== (vb / 2 ^ 12) (va / 2 ^ 12) (λ q. differ (same_numbers vb va q).0) in
              rw (kept, is_none, page_differs) refl
          | no nz ↦ rw (kept, ne→== f 0 nz) (two_tables vb user' differ nz)
        ]
      ]
