-- ===== src/Inode/Again.antt =====
-- A sector that was allocated for a position of a file is found there again.
use projectmod.Base.{
  ℕ, ◌*◌, ◌/◌, ◌≤◌, ◌<◌, ◌≡◌, refl, inl, inr, Bool, true, false, none, some, arith, Bool-cases,
  Option-cases, leb, eq→==, subst, ◌∙◌,
}
use projectmod.Inode.{
  Table, Store, Result, update, check_allocate_and_get_sector, lookup_index, lookup_indirect,
  pos_to_real_sector, indirect_main_idx, indirect_inner_idx,
}
use projectmod.Inode.Route.{indirect_lem}
use projectmod.Inode.Lookup.{IsSound, Got, Ensures, GotAt, check-Got, recheck}

update_self : (f : ℕ → Table) (b : ℕ) (t : Table) → update f b t b ≡ t
update_self f b t = ground (arith, eq→== b b refl)

-- A later lookup of the same place finds the sector.
abbrev FoundAgain : (Table → Store → Result) → ℕ → Table → Store → Type 0
FoundAgain lookup sector main st =
    (st'' : Store) × (lookup main st ≡ some (some sector, main, st''))

module _ (written written' : Bool) where
  module _ (rel : ℕ) (main : Table) (st : Store) (sound : IsSound st) where
    direct_again :
        rel < 79
        → Ensures
            (FoundAgain (λ m s. check_allocate_and_get_sector written' false 79 false m rel s))
            (check_allocate_and_get_sector written true 79 false main rel st)
    direct_again h =
        elim (Option-cases (check_allocate_and_get_sector written true 79 false main rel st)) [
          | inl e ↦ rw e tt
          | inr ((none, t, s), e) ↦ rw e tt
          | inr ((some sector, t, s), e) ↦
              let got : Got rel sector t st s =
                subst (Ensures (GotAt written rel main st sound)) e
                  (check-Got written rel main st sound 79 false) in
              rw e (s, recheck written' 79 rel false t s h got.real ∙ rw got.stored refl)
        ]

  -- The lookup in the index block, once its entry in the main table is there.
  module _ (rel block : ℕ) (main : Table) (st0 st : Store) (fits : indirect_main_idx rel < 79)
      (inside : indirect_inner_idx rel < 64)
      (got : Got (indirect_main_idx rel) block main st0 st) where
    index_again :
        Ensures
          (FoundAgain (λ m s. lookup_indirect written' false rel m s))
          (lookup_index written true block (indirect_inner_idx rel) main st)
    unfolding lookup_index lookup_indirect
    index_again =
        let inner = indirect_inner_idx rel in
        elim (Bool-cases (st.is_index_block block)) [
          | inr bad ↦ rw bad tt
          | inl fine ↦
              rw fine
                (elim (Option-cases
                  (check_allocate_and_get_sector written true 64 false (st.index block) inner st)) [
                    | inl e ↦ rw e tt
                    | inr ((none, t, s), e) ↦ rw e tt
                    | inr ((some sector, t, s), e) ↦
                        let got' : Got inner sector t st s =
                          subst (Ensures (GotAt written inner (st.index block) st got.sound)) e
                            (check-Got written inner (st.index block) st got.sound 64 false) in
                        let after : Store = record s { index = update s.index block t } in
                        let last : Store = record after { index = update after.index block t } in
                        rw e (
                          last,
                          rw
                              (
                                recheck written' 79 (indirect_main_idx rel) true main after fits
                                    got.real,
                                got.stored,
                                got'.kept block fine,
                                update_self s.index block t,
                                recheck written' 64 inner false t after inside got'.real,
                                got'.stored,
                              )
                              refl,
                        )
                  ])
        ]

  module _ (rel : ℕ) (main : Table) (st : Store) (sound : IsSound st) (above : 10 < rel)
      (below : rel ≤ 4170) where
    indirect_again :
        Ensures
          (FoundAgain (λ m s. lookup_indirect written' false rel m s))
          (lookup_indirect written true rel main st)
    unfolding lookup_indirect
    indirect_again =
        let entry = indirect_main_idx rel in
        let (low, high, inside, back) = indirect_lem rel above below in
        elim (Option-cases (check_allocate_and_get_sector written true 79 true main entry st)) [
          | inl e ↦ rw e tt
          | inr ((none, t, s), e) ↦ rw e tt
          | inr ((some block, t, s), e) ↦
              let got : Got entry block t st s =
                subst (Ensures (GotAt written entry main st sound)) e
                  (check-Got written entry main st sound 79 true) in
              rw e (index_again rel block t st s (omega (arith, high)) inside got)
        ]

-- A lookup that may allocate, and returns a sector for a position in the first 4171 sectors of a
-- file, leaves the index so that a lookup of that position that allocates nothing returns the same
-- sector. The device has fewer sectors than the number SECTOR_ERROR and its free map is valid; the
-- writes of the free map may fail or not.
pub found_again :
    (written written' : Bool) (pos sector : ℕ) (main : Table) (st : Store) {main' : Table}
    {st' : Store}
    → IsSound st
    → pos < 4171 * 512
    → pos_to_real_sector written pos true main st ≡ some (some sector, main', st')
    → (st'' : Store) × (pos_to_real_sector written' pos false main' st'
        ≡ some (some sector, main', st''))
unfolding pos_to_real_sector
found_again written written' pos sector main st {main'} {st'} sound h e =
    let rel = pos / 512 in
    elim (Bool-cases (leb rel 10)) [
      | inl low ↦ rw low (
          subst
            (Ensures
              (FoundAgain (λ m s. check_allocate_and_get_sector written' false 79 false m rel s)))
            (rw low at e) (direct_again written written' rel main st sound (ground (arith, low))))
      | inr high ↦
          let below : leb rel 4170 ≡ true = ground arith in
          rw (high, below)
            (subst (Ensures (FoundAgain (λ m s. lookup_indirect written' false rel m s)))
              (rw (high, below) at e)
              (indirect_again written written' rel main st sound (ground (arith, high))
                (omega arith)))
    ]
