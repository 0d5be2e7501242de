-- ===== src/Inode/Lookup.antt =====
-- What a call that allocates leaves in a table when it returns a sector, and a second look at it.
use projectmod.Base.{
  ℕ, ◌≤◌, ◌<◌, ◌≡◌, refl, ◌≢◌, inl, inr, Bool, true, false, none, some, arith, Bool-cases,
  Option-cases, List, ◌==◌, ltb, ◌>>=◌, lt→ltb, ne→==, subst,
}
use projectmod.FreeMap.{FreeMap, allocate}
use projectmod.FreeMap.Laws.{in_use, Allocated, Outcome, allocated, allocate_lem}
use projectmod.Bitmap.Bits.{IsValid}
use projectmod.Inode.{
  Table, Store, Result, update, sector_error, check_allocate_and_get_sector, allocate_entry, entry,
  allocate_new_block, allocate_new_index_inode,
}

-- The free map is valid, the device has no sector with the number SECTOR_ERROR, and the index
-- blocks are in use.
pub record IsSound (st : Store) : Type 0 where
  pub map : IsValid st.free_map.map
  pub small : st.free_map.map.bit_cnt ≤ sector_error
  pub owned : (b : ℕ) → st.is_index_block b ≡ true → in_use st.free_map b ≡ true

-- What is known when a call that allocates returns a sector for entry `idx`.
pub record Got (idx sector : ℕ) (table' : Table) (st st' : Store) : Type 0 where
  pub real : table' idx ≢ sector_error
  pub stored : table' idx ≡ sector
  pub sound : IsSound st'
  pub kept : (b : ℕ) → st.is_index_block b ≡ true → st'.is_index_block b ≡ true

abbrev pub Ensures : (ℕ → Table → Store → Type 0) → Result → Type 0
Ensures P none = Unit
Ensures P (some (none, table, st)) = Unit
Ensures P (some (some sector, table, st)) = P sector table st

-- A sector that the free map hands out.
module _ (written : Bool) (st : Store) (sound : IsSound st) (sector : ℕ) (fm : FreeMap)
    (e : allocate 1 written st.free_map ≡ some (some sector, fm)) where
  handed_out : Allocated 1 sector st.free_map fm
  handed_out =
      allocated written (
        subst (Outcome 1 written st.free_map) e
          (allocate_lem 1 written {s = st.free_map} sound.map))

  handed_out-ne : sector ≢ sector_error
  handed_out-ne = omega (arith, handed_out.first_fit.within, sound.small)

  -- It was free, so that it was no index block.
  handed_out-fresh : (b : ℕ) → st.is_index_block b ≡ true → b ≢ sector
  handed_out-fresh b k same =
      let free = handed_out.first_fit.group b (omega (arith, same)) (omega (arith, same)) in
      ground (arith, free, sound.owned b k)

  handed_out-owned :
      (flag : Bool) (b : ℕ) → update st.is_index_block sector flag b ≡ true → in_use fm b ≡ true
  handed_out-owned flag b k =
      let now = handed_out.taken.bits b in ground (arith, now, sound.owned b, k)

  handed_out-IsSound :
      (flag : Bool) (index : ℕ → Table) (bytes : ℕ → List ℕ)
      → IsSound (record {
        free_map = fm;
        index = index;
        is_index_block = update st.is_index_block sector flag;
        bytes = bytes;
      })
  handed_out-IsSound flag index bytes = record {
    map = handed_out.taken.valid;
    small = omega (arith, handed_out.taken.size, sound.small);
    owned = handed_out-owned flag;
  }

module _ (written : Bool) (idx : ℕ) (table : Table) (st : Store) (sound : IsSound st) where
  abbrev pub GotAt : ℕ → Table → Store → Type 0
  GotAt sector table' st' = Got idx sector table' st st'

  allocate_block-Got : Ensures GotAt (allocate_new_block written table idx st)
  unfolding allocate_new_block
  allocate_block-Got = elim (Option-cases (allocate 1 written st.free_map)) [
    | inl e ↦ rw e tt
    | inr ((none, fm), e) ↦ rw e tt
    | inr ((some sector, fm), e) ↦
        let ne = handed_out-ne written st sound sector fm e in
        rw e (record {
          real = ground (arith, ne);
          stored = ground arith;
          sound = handed_out-IsSound written st sound sector fm e false _ _;
          kept = λ b k.
              let ne' = handed_out-fresh written st sound sector fm e b k in ground (arith, k, ne');
        })
  ]

  allocate_index-Got : Ensures GotAt (allocate_new_index_inode written table idx st)
  unfolding allocate_new_index_inode
  allocate_index-Got = elim (Option-cases (allocate 1 written st.free_map)) [
    | inl e ↦ rw e tt
    | inr ((none, fm), e) ↦ rw e tt
    | inr ((some sector, fm), e) ↦
        let ne = handed_out-ne written st sound sector fm e in
        rw e (record {
          real = ground (arith, ne);
          stored = ground arith;
          sound = handed_out-IsSound written st sound sector fm e true _ _;
          kept = λ b k. ground (arith, k);
        })
  ]

  allocate_entry-Got :
      (is_index : Bool) → Ensures GotAt (allocate_entry written is_index table idx st)
  unfolding allocate_entry
  allocate_entry-Got true = allocate_index-Got
  allocate_entry-Got false = allocate_block-Got

  -- The entry that the macro reads after an allocation is the sector that was stored.
  then_entry-Got :
      (r : Result)
      → Ensures GotAt r
      → Ensures GotAt (
          r >>= λ (found, table', st'). elim found [
            | none ↦ some (none, table', st')
            | some sector ↦ entry true table' idx st'
          ])
  unfolding entry
  then_entry-Got none g = tt
  then_entry-Got (some (none, table', st')) g = tt
  then_entry-Got (some (some sector, table', st')) g = record {
    real = g.real;
    stored = refl;
    sound = g.sound;
    kept = g.kept;
  }

  pub check-Got :
      (size : ℕ) (is_index : Bool)
      → Ensures GotAt (check_allocate_and_get_sector written true size is_index table idx st)
  unfolding check_allocate_and_get_sector
  check-Got size is_index = elim (Bool-cases (ltb idx size)) [
    | inl inside ↦ rw inside (elim (Bool-cases (table idx == sector_error)) [
      | inl missing ↦ rw missing (
          then_entry-Got (allocate_entry written is_index table idx st)
            (allocate_entry-Got is_index))
      | inr there ↦
          rw there
            (record { real = ground (arith, there); stored = refl; sound = sound; kept = λ b k. k })
    ])
    | inr outside ↦ rw outside tt
  ]

-- A lookup that allocates nothing finds an entry that is there.
pub recheck :
    (written : Bool) (size idx : ℕ) (is_index : Bool) (table : Table) (st : Store)
    → idx < size
    → table idx ≢ sector_error
    → check_allocate_and_get_sector written false size is_index table idx st
      ≡ some (some (table idx), table, st)
unfolding check_allocate_and_get_sector
recheck written size idx is_index table st inside real =
    rw (lt→ltb idx size inside, ne→== (table idx) sector_error real)
