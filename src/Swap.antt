-- ===== src/Swap.antt =====
-- vm/swap.c: page slots on the swap device, with a bitmap in which a set bit is a free slot. The
-- device is a map from sectors to their contents, a page the contents of its eight sectors. `none`
-- is a failed ASSERT or a fault. The locks make each function one step.
pub mod Laws
mod Tests
use projectmod.Base.{
  ℕ, zero, suc, ◌+◌, ◌-◌, ◌*◌, ◌/◌, ◌%◌, ◌^◌, Bool, true, false, Option, none, some, List, ◌==◌,
  if◌then◌else◌, ◌>>=◌,
}
use projectmod.Bitmap.{Bitmap, bitmap_error, create, set_all, flip, scan_and_flip}

-- The 512 bytes of a sector.
abbrev pub Sector : Type 0
Sector = List ℕ

abbrev pub sectors_per_page : ℕ
sectors_per_page = 8

-- SWAP_ERROR, as the `size_t` that it is returned as.
abbrev pub swap_error : ℕ
swap_error = 2 ^ 32 - 1

pub record Swap : Type 0 where
  pub bm : Bitmap
  pub device : ℕ → Sector

abbrev pub Page : Type 0
Page = ℕ → Sector

-- One entry of a map replaced.
abbrev pub update : (ℕ → Sector) → ℕ → Sector → ℕ → Sector
update f i v j = if j == i then v else f j

-- The address of a sector on the device, `block_sector_t` being 32 bits wide.
abbrev pub sector_at : ℕ → ℕ → ℕ
sector_at addr iter = (addr + iter) % 2 ^ 32

-- The first sector of a slot.
abbrev pub slot_addr : ℕ → ℕ
slot_addr slot = slot * sectors_per_page % 2 ^ 32

-- The loop of `swap_out`: sectors `iter` and up, `n` of them, go to the device.
unfoldable pub write_loop : (n iter addr : ℕ) → Page → (ℕ → Sector) → ℕ → Sector
write_loop zero iter addr pg device = device
write_loop (suc n) iter addr pg device =
    write_loop n (iter + 1) addr pg (update device (sector_at addr iter) (pg iter))

-- The loop of `swap_in`.
unfoldable pub read_loop : (n iter addr : ℕ) → (ℕ → Sector) → Page → Page
read_loop zero iter addr device pg = pg
read_loop (suc n) iter addr device pg =
    read_loop n (iter + 1) addr device (update pg iter (device (sector_at addr iter)))

-- `swap_init` on a device of `size` sectors; the first two arguments are what `malloc` returns.
unfoldable pub init : Bool → Option (List ℕ) → ℕ → (ℕ → Sector) → Option Swap
init got_struct storage size device =
    create got_struct storage (size / sectors_per_page) >>= λ created.
    created >>= λ bm. set_all bm true >>= λ bm'. some (record { bm = bm'; device = device })

-- `swap_free`
unfoldable pub free : ℕ → Swap → Option Swap
free st s = flip s.bm st >>= λ bm. some (record s { bm = bm })

-- `swap_out`: the slot, or SWAP_ERROR, and the new state.
unfoldable pub swap_out : Page → Swap → Option (ℕ × Swap)
swap_out pg s = scan_and_flip s.bm 0 1 true >>= λ (slot, bm).
    if slot == bitmap_error
    then some (swap_error, record s { bm = bm })
    else some (
      slot,
      record { bm = bm; device = write_loop sectors_per_page 0 (slot_addr slot) pg s.device },
    )

-- `swap_in` into the memory `pg`: the memory afterwards and the new state.
unfoldable pub swap_in : ℕ → Page → Swap → Option (Page × Swap)
swap_in slot pg s =
    free slot s >>= λ s'. some (read_loop sectors_per_page 0 (slot_addr slot) s.device pg, s')
