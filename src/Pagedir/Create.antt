-- ===== src/Pagedir/Create.antt =====
-- A new page table in a directory.
use projectmod.Base.{
  ℕ, zero, suc, ◌+◌, ◌*◌, ◌%◌, ◌^◌, ◌≤◌, ◌<◌, ◌≡◌, ◌≢◌, refl, ◌⊎◌, inl, false, some, List, [], ◌∷◌,
  arith, ◌==◌, ◌∙◌, ap, sym, eq→==, ne→==,
}
use native.Mathlib.Decide.{ℕ_discrete}
use projectmod.Strings.{Memory, store}
use projectmod.Palloc.{phys_base}
use projectmod.Pagedir.{
  Tables, pd_no, pt_no, clear_words, take_page, add_table, pde_of, create_table,
}
use projectmod.Pagedir.Entries.{entry_of, page_in, page_in-entry_of, pde_create_lem}
use projectmod.Pagedir.Valid.{
  NotIn, pde, IsFree, AllFree, IsValid, entry_at, pte_of, pde_of_lem, pte_in_lem,
}
use projectmod.Pagedir.Map.{pt_no-lt, apart_words}

clear_words-outside :
    (n p : ℕ) (m : Memory) (a : ℕ) → (a < p) ⊎ (p + 4 * n ≤ a) → clear_words n p m a ≡ m a
unfolding clear_words
clear_words-outside zero p m a h = refl
clear_words-outside (suc n) p m a h =
    clear_words-outside n (p + 4) (store p 0 m) a (ground (arith, h)) ∙ ground (arith, h)

clear_words-inside : (n p j : ℕ) (m : Memory) → j < n → clear_words n p m (p + 4 * j) ≡ 0
unfolding clear_words
clear_words-inside zero p j m h = absurd (omega arith)
clear_words-inside (suc n) p zero m h =
    clear_words-outside n (p + 4) (store p 0 m) (p + 4 * 0) (inl (omega arith)) ∙ ground arith
clear_words-inside (suc n) p (suc j) m h =
    let e : p + 4 * suc j ≡ p + 4 + 4 * j = omega arith in
    rw e (clear_words-inside n (p + 4) j (store p 0 m) (omega arith))

module _ {pd : ℕ} {s : Tables} (v : IsValid pd s) (va p : ℕ) (rest : List ℕ) (user : va < phys_base)
    (missing : s.words (pde_of pd va) ≡ 0) (given : s.pages ≡ p ∷ rest) where
  pub created : Tables
  created = record {
    words = store (pde_of pd va) (entry_of p 7) (clear_words 1024 p s.words);
    pages = rest;
  }

  free : AllFree pd s.words (p ∷ rest)
  free = rw given at v.free

  -- A word of another page, not of the directory, is as it was.
  created_word :
      (q j : ℕ)
      → q % 2 ^ 12 ≡ 0
      → j < 1024
      → q ≢ p
      → q + 4 * j ≢ pde_of pd va
      → created.words (q + 4 * j) ≡ s.words (q + 4 * j)
  unfolding created
  created_word q j aligned h ne other =
      rw (ne→== (q + 4 * j) (pde_of pd va) other) (
        clear_words-outside 1024 p s.words (q + 4 * j) (omega (arith, ((free.0).page).aligned, ne)))

  new_entry : pde pd created.words (pd_no va) ≡ entry_of p 7
  unfolding created
  new_entry =
      let (at, inside) = pde_of_lem pd va user in
      rw (eq→== (pd + 4 * pd_no va) (pde_of pd va) (sym at)) refl

  old_entry : (i : ℕ) → i < 768 → i ≢ pd_no va → pde pd created.words i ≡ pde pd s.words i
  old_entry i h ne =
      let (at, inside) = pde_of_lem pd va user in
      created_word pd i (v.place).aligned (omega arith) (λ q. (free.0).no_directory (sym q))
        (omega (arith, at, ne))

  pub created_entry : created.words (pde_of pd va) ≡ entry_of p 7
  created_entry = let (at, inside) = pde_of_lem pd va user in ap created.words at ∙ new_entry

  named : page_in (entry_of p 7) ≡ p
  named = page_in-entry_of p 7 (free.0).page (omega arith)

  empty_table : (j : ℕ) → j < 1024 → created.words (p + 4 * j) ≡ 0
  unfolding created
  empty_table j h =
      let (at, inside) = pde_of_lem pd va user in
      let apart =
        apart_words p pd j (pd_no va) ((free.0).page).aligned (v.place).aligned h (omega arith)
          (free.0).no_directory in
      rw (ne→== (p + 4 * j) (pde_of pd va) (rw at apart)) (clear_words-inside 1024 p j s.words h)

  missing_entry : pde pd s.words (pd_no va) ≡ 0
  missing_entry = let (at, inside) = pde_of_lem pd va user in rw at at missing

  IsFree-created : {q : ℕ} → q ≢ p → IsFree pd s.words q → IsFree pd created.words q
  IsFree-created {q} ne f = record {
    page = f.page;
    no_directory = f.no_directory;
    no_table = λ i h nz. elim (ℕ_discrete i (pd_no va)) [
      | yes e ↦ rw (e, new_entry, named) (λ k. ne (sym k))
      | no k ↦ rw (old_entry i h k) (f.no_table i h (rw (old_entry i h k) at nz))
    ];
  }

  AllFree-created :
      (pages : List ℕ) → NotIn p pages → AllFree pd s.words pages → AllFree pd created.words pages
  AllFree-created [] out all = tt
  AllFree-created (q ∷ pages) (ne, out) (f, out', all) =
      (IsFree-created (λ k. ne (sym k)) f, out', AllFree-created pages out all)

  pub created-IsValid : IsValid pd created
  unfolding created
  created-IsValid = record {
    place = v.place;
    entries = λ i h nz. elim (ℕ_discrete i (pd_no va)) [
      | yes e ↦
          rw (e, new_entry)
            (omega (arith, ((free.0).page).aligned, ((free.0).page).above, ((free.0).page).below))
      | no k ↦ rw (old_entry i h k) (v.entries i h (rw (old_entry i h k) at nz))
    ];
    no_directory = λ i h nz. elim (ℕ_discrete i (pd_no va)) [
      | yes e ↦ rw (e, new_entry, named) (free.0).no_directory
      | no k ↦ rw (old_entry i h k) (v.no_directory i h (rw (old_entry i h k) at nz))
    ];
    apart = λ i j h k ne nz nz'. elim (ℕ_discrete i (pd_no va)) [
      | yes e ↦
          let l : j ≢ pd_no va = λ q. ne (omega arith) in
          rw (e, new_entry, named, old_entry j k l)
            (λ q. (free.0).no_table j k (rw (old_entry j k l) at nz') (sym q))
      | no l ↦ elim (ℕ_discrete j (pd_no va)) [
        | yes e ↦
            rw (e, new_entry, named, old_entry i h l)
              ((free.0).no_table i h (rw (old_entry i h l) at nz))
        | no l' ↦
            rw (old_entry i h l, old_entry j k l')
              (v.apart i j h k ne (rw (old_entry i h l) at nz) (rw (old_entry j k l') at nz'))
      ]
    ];
    free = AllFree-created rest free.1 free.2;
  }

  -- The new table holds no entry yet, so the map from pages to entries is the same.
  pub created-pte_of : (vb : ℕ) → vb < phys_base → pte_of pd vb created.words ≡ pte_of pd vb s.words
  unfolding pte_of
  created-pte_of vb user' =
      let (at, inside) = pde_of_lem pd va user in
      let (at', inside') = pde_of_lem pd vb user' in
      let f = s.words (pde_of pd vb) in
      elim (ℕ_discrete (pd_no vb) (pd_no va)) [
        | yes same ↦
            let e : pde_of pd vb ≡ pde_of pd va = omega (arith, at, at', same) in
            let now = created_entry in
            let some_entry : (entry_of p 7 == 0) ≡ false = ne→== (entry_of p 7) 0 (omega arith) in
            let empty : created.words (entry_at (entry_of p 7) vb) ≡ 0 =
              rw named (empty_table (pt_no vb) (pt_no-lt vb)) in
            rw (e, now, some_entry, eq→== (s.words (pde_of pd va)) 0 missing) empty
        | no differ ↦
            let now : created.words (pde_of pd vb) ≡ f =
              ap created.words at' ∙ old_entry (pd_no vb) inside' differ ∙ ap s.words (sym at') in
            elim (ℕ_discrete f 0) [
              | yes z ↦ rw (now, eq→== f 0 z) refl
              | no nz ↦
                  let there : pde pd s.words (pd_no vb) ≢ 0 = rw at' at nz in
                  let apart = rw (← at') at ((free.0).no_table (pd_no vb) inside' there) in
                  let no_dir = rw (← at') at (v.no_directory (pd_no vb) inside' there) in
                  rw (now, ne→== f 0 nz)
                    (created_word (page_in f) (pt_no vb) (omega arith) (pt_no-lt vb) apart (
                      rw at (
                        apart_words (page_in f) pd (pt_no vb) (pd_no va) (omega arith)
                          (v.place).aligned (pt_no-lt vb) (omega arith) no_dir)))
            ]
      ]

  pub create_table_lem :
      create_table (pde_of pd va) va s ≡ some (some (entry_at (entry_of p 7) va), created)
  unfolding create_table created
  create_table_lem =
      let (at, inside) = pde_of_lem pd va user in
      let page = (free.0).page in
      let now = created_entry in
      let found =
        pte_in_lem (pde_of pd va) va created (rw now (omega (arith, page.aligned, page.above)))
          (rw now (omega (arith, page.aligned, page.below))) in
      ap (λ l. add_table (pde_of pd va) va s (take_page l s.words)) given
      ∙ rw (pde_create_lem p page) refl
      ∙ found
      ∙ rw now refl
