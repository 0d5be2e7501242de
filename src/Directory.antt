-- ===== src/Directory.antt =====
-- filesys/directory.c: the entries of a directory, in the order of its file, and its lock. A name is the
-- list of its bytes before the null. What `inode_write_at`, `inode_open` and `dir_open` return is an
-- argument; `none` is a failed ASSERT or a fault.
mod Names
mod Add
mod Remove
mod Calls
mod Tests
use projectmod.Base.{
  ℕ, zero, suc, ◌+◌, ◌-◌, Bool, true, false, not, ◌&&◌, ◌||◌, Option, none, some, List, [], ◌∷◌,
  ◌++◌, ◌==◌, ltb, if◌then◌else◌, ◌>>=◌, ◌>>◌, assert, length, take, drop, set, get_elem?,
}

-- `struct dir_entry`
pub record Entry : Type 0 where
  pub inode_sector : ℕ
  pub name : List ℕ
  pub in_use : Bool
  pub is_dir : Bool

-- `struct dir` with the entries of its inode; `locked` is that the caller holds `dir_lock`.
pub record Dir : Type 0 where
  pub entries : List Entry
  pub locked : Bool
  pub pos : ℕ

abbrev pub name_max : ℕ
name_max = 63

-- `!strcmp (a, b)`
unfoldable pub same_name : List ℕ → List ℕ → Bool
same_name [] [] = true
same_name [] (b ∷ t) = false
same_name (a ∷ s) [] = false
same_name (a ∷ s) (b ∷ t) = (a == b) && same_name s t

unfoldable pub matches : List ℕ → Entry → Bool
unfolding same_name
matches name e = e.in_use && same_name name e.name

-- `lookup`: the entry, and its index for `*ofsp`.
unfoldable pub lookup : List ℕ → List Entry → Option (Entry × ℕ)
lookup name [] = none
lookup name (e ∷ rest) =
    let later = lookup name rest in
    if matches name e then some (e, 0) else (later >>= λ (f, i). some (f, i + 1))

-- The first slot that is not in use, or the end.
unfoldable pub free_slot : List Entry → ℕ
free_slot [] = 0
free_slot (e ∷ rest) = if not e.in_use then 0 else suc (free_slot rest)

-- `inode_write_at` of one entry, at the end or before it.
unfoldable pub write_entry : ℕ → Entry → List Entry → List Entry
write_entry i e [] = e ∷ []
write_entry zero e (f ∷ rest) = e ∷ rest
write_entry (suc i) e (f ∷ rest) = f ∷ write_entry i e rest

abbrev pub new_entry : List ℕ → ℕ → Bool → Entry
new_entry name sector is_dir = record {
  inode_sector = sector;
  name = take name_max name;
  in_use = true;
  is_dir = is_dir;
}

unfoldable pub has_room : List ℕ → Bool
has_room name = not ((length name == 0) || ltb name_max (length name))

-- The end of `dir_add`, by what `lookup` found; `written` is whether the write succeeds.
unfoldable pub put_entry : (written : Bool) → Entry → Option (Entry × ℕ) → Dir → Bool × Dir
unfolding write_entry free_slot
put_entry written new (some found) d = (false, d)
put_entry written new none d =
    if written
    then (true, record d { entries = write_entry (free_slot d.entries) new d.entries })
    else (false, d)

-- `dir_add`: its result, and the directory.
unfoldable pub dir_add :
    (written : Bool) → List ℕ → (inode_sector : ℕ) (is_dir : Bool) → Dir → Option (Bool × Dir)
dir_add written name inode_sector is_dir d =
    assert (not d.locked)
    >> (if has_room name
        then some (put_entry written (new_entry name inode_sector is_dir) (lookup name d.entries) d)
        else some (false, record d { locked = true }))

-- `dir_is_empty`
unfoldable pub dir_is_empty : List Entry → Bool
dir_is_empty [] = true
dir_is_empty (e ∷ rest) = not e.in_use && dir_is_empty rest

-- The part of `struct inode` that `dir_remove` changes.
pub record OpenInode : Type 0 where
  pub open_cnt : ℕ
  pub removed : Bool

-- `inode_close`: one opener less. At none the inode is freed, and to close it again is a fault. The
-- sectors that the last opener of a removed inode releases are left out.
unfoldable pub close_inode : OpenInode → Option OpenInode
close_inode inode =
    assert (ltb 0 inode.open_cnt) >> some (record inode { open_cnt = inode.open_cnt - 1 })

-- The calls of `dir_close`, where a directory was opened, and of `inode_close` at its end: both close
-- the one inode.
unfoldable pub close_both : (is_dir : Bool) → OpenInode → Option OpenInode
unfolding close_inode
close_both is_dir inode =
    (if is_dir then close_inode inode else some inode) >>= λ inode'. close_inode inode'

-- Whether it goes on: a file is removed, a directory if it is empty. `child` is what `dir_open` returns
-- for a directory, its entries; without memory it returns the null pointer, and the ASSERT of
-- `dir_is_empty` fails.
unfoldable pub may_remove : (is_dir : Bool) (child : Option (List Entry)) → Option Bool
may_remove false child = some true
may_remove true child = child >>= λ entries. some (dir_is_empty entries)

-- The end of `dir_remove` once the inode is open: the entry is erased and the inode marked, if the write
-- succeeds, and all is closed.
unfoldable pub erase_entry :
    (written : Bool) (child : Option (List Entry))
    → Entry
    → ℕ
    → OpenInode
    → Dir
    → Option (Bool × Option OpenInode × Dir)
unfolding write_entry close_both may_remove
erase_entry written child e i inode d = may_remove e.is_dir child >>= λ goes.
    if goes && written
    then (close_both e.is_dir (record inode { removed = true }) >>= λ inode'. some (
      true,
      some inode',
      record d { entries = write_entry i (record e { in_use = false }) d.entries },
    ))
    else (close_both e.is_dir inode >>= λ inode'. some (false, some inode', d))

-- By what `lookup` found and what `inode_open` returns, with its new opener.
unfoldable pub remove_found :
    (written : Bool) (child : Option (List Entry))
    → Option (Entry × ℕ)
    → Option OpenInode
    → Dir
    → Option (Bool × Option OpenInode × Dir)
unfolding erase_entry
remove_found written child none opened d = some (false, none, d)
remove_found written child (some (e, i)) none d = some (false, none, d)
remove_found written child (some (e, i)) (some inode) d = erase_entry written child e i inode d

-- `dir_remove`: its result, the inode that it opened, and the directory.
unfoldable pub dir_remove :
    (opened : Option OpenInode) (written : Bool) (child : Option (List Entry))
    → List ℕ
    → Dir
    → Option (Bool × Option OpenInode × Dir)
unfolding remove_found
dir_remove opened written child name d =
    assert (not d.locked) >> remove_found written child (lookup name d.entries) opened d

-- `dir_readdir` with the entries from `pos` on: the name, and how far it has read.
unfoldable pub next_name : List Entry → ℕ → Option (List ℕ) × ℕ
next_name [] pos = (none, pos)
next_name (e ∷ rest) pos =
    let later = next_name rest (pos + 1) in
    if e.in_use then (some (take name_max e.name), pos + 1) else later

unfoldable pub dir_readdir : Dir → Option (List ℕ) × Dir
unfolding next_name
dir_readdir d = let r = next_name (drop d.pos d.entries) d.pos in (r.0, record d { pos = r.1 })
