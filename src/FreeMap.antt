-- ===== src/FreeMap.antt =====
-- filesys/free-map.c: the bitmap of the sectors in use, with a copy of it in a file. The outcome of
-- each `bitmap_write` to that file is an argument, and `none` is a PANIC, a failed ASSERT or a
-- fault.
pub mod Laws
mod Tests
use projectmod.Base.{
  ℕ, zero, suc, ◌+◌, ◌%◌, ◌^◌, Bool, true, false, not, ◌&&◌, Option, none, some, List, [], ◌∷◌,
  ◌==◌, if◌then◌else◌, ◌>>=◌, ◌>>◌, assert,
}
use projectmod.Bitmap.{Bitmap, bitmap_error, create, mark, set_multiple, all, scan_and_flip}

abbrev pub free_map_sector : ℕ
free_map_sector = 0

abbrev pub root_dir_sector : ℕ
root_dir_sector = 1

-- `free_map`, and whether `free_map_file` is not null.
pub record FreeMap : Type 0 where
  pub map : Bitmap
  pub file_open : Bool

-- `free_map_init` on a device of `size` sectors; the first two arguments are what `malloc` returns.
unfoldable pub init : Bool → Option (List ℕ) → ℕ → Option FreeMap
init got_struct storage size = create got_struct storage size >>= λ created. created >>= λ b.
    mark b free_map_sector >>= λ b'.
    mark b' root_dir_sector >>= λ b''. some (record { map = b''; file_open = false })

-- `free_map_allocate`: `written` is the outcome of `bitmap_write`. The inner option is the boolean
-- result with `*sectorp`.
unfoldable pub allocate : ℕ → Bool → FreeMap → Option (Option ℕ × FreeMap)
allocate cnt written s = scan_and_flip s.map 0 cnt false >>= λ (sector, m).
    if sector == bitmap_error
    then some (none, record s { map = m })
    else if s.file_open && not written
    then (set_multiple m sector cnt false >>= λ m'. some (none, record s { map = m' }))
    else some (some sector, record s { map = m })

-- `while (cnt > 0) { bc_remove (sector); sector++; cnt--; }`: the sectors that are dropped from
-- the buffer cache, in order.
unfoldable pub removed : ℕ → ℕ → List ℕ
removed sector zero = []
removed sector (suc cnt) = sector ∷ removed ((sector + 1) % 2 ^ 32) cnt

-- `free_map_release`, which faults in `file_write_at` if the file is not open, with the sectors that it drops from the buffer cache.
unfoldable pub release : ℕ → ℕ → FreeMap → Option (List ℕ × FreeMap)
release sector cnt s = do
  in_use ← all s.map sector cnt
  assert in_use
  m ← set_multiple s.map sector cnt false
  assert s.file_open
  some (removed sector cnt, record s { map = m })
