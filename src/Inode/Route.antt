-- ===== src/Inode/Route.antt =====
-- The arithmetic of the index: which entry of which table a sector of the file stands at.
use projectmod.Base.{ℕ, ◌+◌, ◌-◌, ◌*◌, ◌/◌, ◌≤◌, ◌<◌, ◌≡◌, arith}
use projectmod.Inode.{indirect_main_idx, indirect_inner_idx, round_up_to_sector_boundary}

-- The sectors from 11 to 4170 of a file are those of the indirect tables: each stands at an entry
-- from 11 to 75 of the main table and an entry below 64 of the index block there, and the sector is
-- got back from the two, so that no two sectors share an entry.
pub indirect_lem :
    (rel : ℕ)
    → 10 < rel
    → rel ≤ 4170
    → (11 ≤ indirect_main_idx rel)
      × (indirect_main_idx rel ≤ 75)
      × (indirect_inner_idx rel < 64)
      × (11 + 64 * (indirect_main_idx rel - 11) + indirect_inner_idx rel ≡ rel)
unfolding indirect_main_idx indirect_inner_idx
indirect_lem rel h k = (omega arith, omega arith, omega arith, omega arith)

-- Every entry of the 65 indirect tables serves a sector of the file.
pub indirect_onto :
    (main inner : ℕ)
    → 11 ≤ main
    → main ≤ 75
    → inner < 64
    → (rel : ℕ) × (10 < rel)
      × (rel ≤ 4170)
      × (indirect_main_idx rel ≡ main)
      × (indirect_inner_idx rel ≡ inner)
unfolding indirect_main_idx indirect_inner_idx
indirect_onto main inner h k l =
    (11 + 64 * (main - 11) + inner, omega arith, omega arith, omega arith, omega arith)

-- Rounding up to a sector boundary gives the least multiple of the sector size that is no less.
pub round_up_lem :
    (bytes : ℕ)
    → (bytes ≤ round_up_to_sector_boundary bytes)
      × (round_up_to_sector_boundary bytes < bytes + 512)
      × ((round_up_to_sector_boundary bytes / 512) * 512 ≡ round_up_to_sector_boundary bytes)
unfolding round_up_to_sector_boundary
round_up_lem bytes = (omega arith, omega arith, omega arith)
