-- ===== src/File/Tests.antt =====
-- filesys/file.c: three files that are open on one inode, of which the second denies writes.
use projectmod.Base.{refl, true, false, [], ◌∷◌}
use projectmod.File.{File, Counts}
use projectmod.File.Denial.{IsValid}

abbrev plain : File
plain = record { pos = 5; deny_write = false }

abbrev denying : File
denying = record { pos = 0; deny_write = true }

abbrev shared : Counts
shared = record { open_cnt = 3; deny_write_cnt = 1 }

shared-IsValid : IsValid (plain ∷ denying ∷ plain ∷ []) shared
shared-IsValid = record { openers = refl; deniers = refl }
