-- ===== src/File.antt =====
-- filesys/file.c, and of filesys/inode.c the counts of openers and of denials: open files that share
-- an inode. The files are values and the inode they share is passed from call to call. The calls of
-- `calloc` succeed, and fewer than 2^31 files are open, so that the counts do not overflow. `none` is
-- a failed ASSERT.
pub mod Denial
mod Tests
use projectmod.Base.{
  ℕ, zero, suc, ◌+◌, ◌-◌, Bool, true, false, Option, none, some, ltb, leb, ◌==◌, if◌then◌else◌,
  ◌>>=◌, ◌>>◌, assert,
}

-- `struct file` without the pointer to the inode.
pub record File : Type 0 where
  pub pos : ℕ
  pub deny_write : Bool

-- The counts of `struct inode`.
pub record Counts : Type 0 where
  pub open_cnt : ℕ
  pub deny_write_cnt : ℕ

-- The counts in a new inode of `inode_open`.
unfoldable pub inode_open : Counts
inode_open = record { open_cnt = 1; deny_write_cnt = 0 }

unfoldable pub inode_reopen : Counts → Counts
inode_reopen inode = record inode { open_cnt = inode.open_cnt + 1 }

-- `inode_close`, with whether this was the last opener, so that the inode is freed. It is called by
-- an opener, so that the count is positive.
unfoldable pub inode_close : Counts → Bool × Counts
inode_close inode =
    let open_cnt = inode.open_cnt - 1 in (open_cnt == 0, record inode { open_cnt = open_cnt })

unfoldable pub inode_deny_write : Counts → Option Counts
inode_deny_write inode =
    assert (leb (inode.deny_write_cnt + 1) inode.open_cnt)
    >> some (record inode { deny_write_cnt = inode.deny_write_cnt + 1 })

unfoldable pub inode_allow_write : Counts → Option Counts
inode_allow_write inode =
    assert (ltb 0 inode.deny_write_cnt)
    >> assert (leb inode.deny_write_cnt inode.open_cnt)
    >> some (record inode { deny_write_cnt = inode.deny_write_cnt - 1 })

-- `file_open` on an inode that the caller has opened.
unfoldable pub file_open : File
file_open = record { pos = 0; deny_write = false }

unfoldable pub file_reopen : Counts → File × Counts
file_reopen inode = (file_open, inode_reopen inode)

unfoldable pub file_deny_write : File → Counts → Option (File × Counts)
file_deny_write file inode =
    if file.deny_write
    then some (file, inode)
    else (inode_deny_write inode >>= λ inode'. some (record file { deny_write = true }, inode'))

unfoldable pub file_allow_write : File → Counts → Option (File × Counts)
file_allow_write file inode =
    if file.deny_write
    then (inode_allow_write inode >>= λ inode'. some (record file { deny_write = false }, inode'))
    else some (file, inode)

unfoldable pub file_close : File → Counts → Option (Bool × Counts)
file_close file inode = file_allow_write file inode >>= λ (file', inode'). some (inode_close inode')

-- `file_read` and `file_write`: what `inode_read_at` or `inode_write_at` returns for a position is an
-- argument.
unfoldable pub file_read : (ℕ → ℕ) → File → ℕ × File
file_read inode_read_at file =
    let bytes_read = inode_read_at file.pos in
    (bytes_read, record file { pos = file.pos + bytes_read })

unfoldable pub file_write : (ℕ → ℕ) → File → ℕ × File
file_write inode_write_at file =
    let bytes_written = inode_write_at file.pos in
    (bytes_written, record file { pos = file.pos + bytes_written })

unfoldable pub file_seek : ℕ → File → File
file_seek new_pos file = record file { pos = new_pos }

unfoldable pub file_tell : File → ℕ
file_tell file = file.pos

-- The test with which a round of `inode_write_at` begins.
unfoldable pub writable : Counts → Bool
writable inode = inode.deny_write_cnt == 0
