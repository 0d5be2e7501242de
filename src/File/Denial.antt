-- ===== src/File/Denial.antt =====
-- The counts of an inode agree with the files that are open on it, and its ASSERTs hold.
use projectmod.Base.{
  ℕ, zero, suc, ◌+◌, ◌-◌, ◌≤◌, ◌≡◌, ◌↔◌, refl, inl, inr, true, false, some, List, [], ◌∷◌, ◌++◌,
  arith, ltb, leb, ◌==◌, if◌then◌else◌, Bool-cases, length, length-append, get_elem?,
}
use projectmod.File.{
  File, Counts, inode_open, inode_reopen, inode_close, inode_deny_write, inode_allow_write,
  file_open, file_reopen, file_deny_write, file_allow_write, file_close, writable,
}

-- How many of the files deny writes.
abbrev pub denials : List File → ℕ
denials [] = 0
denials (f ∷ files) = (if f.deny_write then 1 else 0) + denials files

denials-append : (xs ys : List File) → denials (xs ++ ys) ≡ denials xs + denials ys
denials-append [] ys = omega arith
denials-append (x ∷ xs) ys = omega (arith, denials-append xs ys)

denials-le : (files : List File) → denials files ≤ length files
denials-le [] = omega arith
denials-le (f ∷ files) = ground (arith, denials-le files)

-- `files` are all the files that are open on the inode.
pub record IsValid (files : List File) (inode : Counts) : Type 0 where
  pub openers : inode.open_cnt ≡ length files
  pub deniers : inode.deny_write_cnt ≡ denials files

-- The first file of an inode that was just opened, and a file that is opened again.
pub open_lem :
    (files : List File) {inode : Counts}
    → IsValid files inode
    → IsValid (file_open ∷ []) inode_open
      × IsValid ((file_reopen inode).0 ∷ files) (file_reopen inode).1
unfolding file_open inode_open file_reopen inode_reopen
open_lem files valid = (
  record { openers = refl; deniers = refl },
  record { openers = omega (arith, valid.openers); deniers = omega (arith, valid.deniers) },
)

module _ (before : List File) (file : File) (rest : List File) {inode : Counts}
    (valid : IsValid (before ++ file ∷ rest) inode) where
  openers_sum : inode.open_cnt ≡ length before + suc (length rest)
  openers_sum = omega (arith, valid.openers, length-append before (file ∷ rest))

  deniers_sum :
      inode.deny_write_cnt ≡ denials before + ((if file.deny_write then 1 else 0) + denials rest)
  deniers_sum = omega (arith, valid.deniers, denials-append before (file ∷ rest))

  IsValid-with :
      (file' : File) (inode' : Counts)
      → inode'.open_cnt ≡ inode.open_cnt
      → inode'.deny_write_cnt + (if file.deny_write then 1 else 0)
        ≡ inode.deny_write_cnt + (if file'.deny_write then 1 else 0)
      → IsValid (before ++ file' ∷ rest) inode'
  IsValid-with file' inode' o d = record {
    openers = omega (arith, openers_sum, o, length-append before (file' ∷ rest));
    deniers = omega (arith, deniers_sum, d, denials-append before (file' ∷ rest));
  }

  -- With the counts right, denying writes through any of the files open on an inode does not fail an ASSERT, sets the flag
  -- of that file, and keeps the counts right, also if it denied them before.
  pub file_deny_write_lem :
      (inode' : Counts) × (file_deny_write file inode
        ≡ some (record file { deny_write = true }, inode'))
      × IsValid (before ++ record file { deny_write = true } ∷ rest) inode'
  unfolding file_deny_write inode_deny_write
  file_deny_write_lem = elim (Bool-cases file.deny_write) [
    | inl denies ↦ rw denies (
      inode,
      refl,
      IsValid-with (record file { deny_write = true }) inode refl (ground (arith, denies)),
    )
    | inr allows ↦
        let room : leb (inode.deny_write_cnt + 1) inode.open_cnt ≡ true =
          ground (arith, openers_sum, deniers_sum, allows, denials-le before, denials-le rest) in
        let inode' : Counts = record inode { deny_write_cnt = inode.deny_write_cnt + 1 } in
        rw (allows, room)
          (
            inode',
            refl,
            IsValid-with (record file { deny_write = true }) inode' refl (ground (arith, allows)),
          )
  ]

  -- With the counts right, allowing writes again through any of the files open on an inode does not fail an ASSERT, clears
  -- the flag of that file, and keeps the counts right, also if it did not deny them.
  pub file_allow_write_lem :
      (inode' : Counts) × (file_allow_write file inode
        ≡ some (record file { deny_write = false }, inode'))
      × IsValid (before ++ record file { deny_write = false } ∷ rest) inode'
  unfolding file_allow_write inode_allow_write
  file_allow_write_lem = elim (Bool-cases file.deny_write) [
    | inr allows ↦ rw allows (
      inode,
      refl,
      IsValid-with (record file { deny_write = false }) inode refl (ground (arith, allows)),
    )
    | inl denies ↦
        let some_deny : ltb 0 inode.deny_write_cnt ≡ true = ground (arith, deniers_sum, denies) in
        let few : leb inode.deny_write_cnt inode.open_cnt ≡ true =
          ground (arith, openers_sum, deniers_sum, denials-le before, denials-le rest) in
        let inode' : Counts = record inode { deny_write_cnt = inode.deny_write_cnt - 1 } in
        rw (denies, some_deny, few)
          (
            inode',
            refl,
            IsValid-with (record file { deny_write = false }) inode' refl
                (ground (arith, denies, some_deny)),
          )
  ]

-- With the counts right, closing any of the files open on an inode does not fail an ASSERT, even if the file denies writes,
-- and keeps the counts right for the files that are left; the inode is freed exactly if none is.
pub file_close_lem :
    (before : List File) (file : File) (rest : List File) {inode : Counts}
    → IsValid (before ++ file ∷ rest) inode
    → (inode' : Counts) × (file_close file inode ≡ some (length (before ++ rest) == 0, inode'))
      × IsValid (before ++ rest) inode'
unfolding file_close inode_close
file_close_lem before file rest {inode} valid =
    let (inode', ok, valid') = file_allow_write_lem before file rest valid in
    let openers = openers_sum before (record file { deny_write = false }) rest valid' in
    let deniers = deniers_sum before (record file { deny_write = false }) rest valid' in
    let left : inode'.open_cnt - 1 ≡ length (before ++ rest) =
      omega (arith, openers, length-append before rest) in
    (
      record inode' { open_cnt = inode'.open_cnt - 1 },
      rw (ok, left) refl,
      record { openers = left; deniers = omega (arith, deniers, denials-append before rest) },
    )

no_denials :
    (files : List File) (k : ℕ) (f : File)
    → denials files ≡ 0
    → get_elem? files k ≡ some f
    → f.deny_write ≡ false
no_denials [] k f none_denies e = cc
no_denials (x ∷ files) zero f none_denies e = ground (arith, none_denies, e)
no_denials (x ∷ files) (suc k) f none_denies e = no_denials files k f (omega (arith, none_denies)) e

all_allow :
    (files : List File)
    → ((k : ℕ) (f : File) → get_elem? files k ≡ some f → f.deny_write ≡ false)
    → denials files ≡ 0
all_allow [] all = refl
all_allow (x ∷ files) all =
    let rest = all_allow files (λ k f e. all (suc k) f e) in ground (arith, all zero x refl, rest)

-- With the counts right, the inode can be written exactly if none of the files that are open on it denies writes.
pub writable_lem :
    (files : List File) {inode : Counts}
    → IsValid files inode
    → (writable inode ≡ true)
      ↔ ((k : ℕ) (f : File) → get_elem? files k ≡ some f → f.deny_write ≡ false)
unfolding writable
writable_lem files {inode} valid = (
  λ w k f e. no_denials files k f (ground (arith, valid.deniers, w)) e,
  λ all. ground (arith, valid.deniers, all_allow files all),
)
