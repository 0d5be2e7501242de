-- ===== src/Directory/Calls.antt =====
-- `dir_add` and `dir_remove` on a directory as a map from names.
use projectmod.Base.{
  ℕ, zero, suc, ◌≤◌, ◌≡◌, ◌≢◌, refl, ◌⊎◌, inl, inr, Bool, true, false, Option, none, some, List, [],
  ◌∷◌, arith, if◌then◌else◌, length, take, Bool-cases, Option-cases, ap,
}
use projectmod.Directory.{
  Entry, Dir, name_max, same_name, lookup, free_slot, write_entry, new_entry, has_room, put_entry,
  dir_add,
}
use projectmod.Directory.Names.{meaning, IsUnique, lookup-none}
use projectmod.Directory.Add.{added-IsUnique, meaning-added}
use projectmod.Directory.Remove.{unlinked, lookup-some}

take_le : (n : ℕ) (s : List ℕ) → length s ≤ n → take n s ≡ s
take_le zero [] h = refl
take_le zero (c ∷ s) h = absurd (omega arith)
take_le (suc n) [] h = refl
take_le (suc n) (c ∷ s) h = ap (◌∷◌ c) (take_le n s (omega arith))

has_room-le : (name : List ℕ) → has_room name ≡ true → length name ≤ name_max
unfolding has_room
has_room-le name h = ground (arith, h)

-- A directory of which the caller does not hold the lock, with one entry for each name.
pub record IsOpen (d : Dir) : Type 0 where
  pub unlocked : d.locked ≡ false
  pub unique : IsUnique d.entries

-- Directory `d'` is open, and differs from `d` in what `name` means.
pub record Changes (name : List ℕ) (to : Option (ℕ × Bool)) (d d' : Dir) : Type 0 where
  pub valid : IsOpen d'
  pub means :
      (n : List ℕ) → meaning n d'.entries ≡ (if same_name n name then to else meaning n d.entries)

-- `dir_add` of a name of 1 to 63 characters to an open directory with one entry for each name: the name
-- that is there already, and a write that fails, give false and change nothing. Else the name, and no
-- other, gets a new meaning, and the directory still has one entry for each name.
pub dir_add_lem :
    (written : Bool) (name : List ℕ) (sector : ℕ) (is_dir : Bool) (d : Dir)
    → IsOpen d
    → has_room name ≡ true
    → ((meaning name d.entries ≢ none) × (dir_add written name sector is_dir d ≡ some (false, d)))
      ⊎ ((written ≡ false) × (dir_add written name sector is_dir d ≡ some (false, d)))
      ⊎ ((meaning name d.entries ≡ none)
          × ((d' : Dir) × (dir_add written name sector is_dir d ≡ some (true, d'))
              × Changes name (some (sector, is_dir)) d d'))
unfolding dir_add put_entry
dir_add_lem written name sector is_dir d dir room =
    let new = new_entry name sector is_dir in
    let whole : take name_max name ≡ name = take_le name_max name (has_room-le name room) in
    elim (Option-cases (lookup name d.entries)) [
      | inr ((e, i), found) ↦
          let (m, k) = lookup-some name d.entries e i found in
          inl (λ z. ground (arith, m, z), rw (dir.unlocked, room, found) refl)
      | inl absent ↦ elim (Bool-cases written) [
        | inr fails ↦ inr (inl (fails, rw (dir.unlocked, room, absent, fails) refl))
        | inl writes ↦ inr (
            inr (
              lookup-none name d.entries absent,
              (
                record d { entries = write_entry (free_slot d.entries) new d.entries },
                rw (dir.unlocked, room, absent, writes) refl,
                record {
                  valid = record {
                    unlocked = dir.unlocked;
                    unique = added-IsUnique name new refl whole d.entries absent dir.unique;
                  };
                  means = λ n. meaning-added name new refl whole n d.entries absent;
                },
              ),
            ))
      ]
    ]

-- The directory without an entry that `lookup` found.
abbrev without_entry : Dir → Entry → ℕ → Dir
without_entry d e i = record d { entries = write_entry i (unlinked e) d.entries }
