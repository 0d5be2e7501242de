-- ===== src/Inode.antt =====
-- filesys/inode.c: the index of an inode, from a position in a file to a sector of the device. An
-- index table is a map from its entries to sectors; an access outside a table, which C does not check,
-- a failed ASSERT and a PANIC are `none`. Index blocks are read and written where they stand, as the
-- open inode that all users share. The calls of `malloc` and `calloc` succeed.
pub mod Route
pub mod Lookup
pub mod Again
mod Tests
use projectmod.Base.{
  ℕ, zero, suc, ◌+◌, ◌-◌, ◌*◌, ◌/◌, ◌%◌, ◌^◌, Bool, true, false, not, ◌&&◌, Option, none, some,
  List, ◌==◌, ltb, leb, if◌then◌else◌, ◌>>=◌, ◌>>◌, assert, replicate,
}
use projectmod.FreeMap.{FreeMap, allocate}

abbrev pub block_sector_size : ℕ
block_sector_size = 512

abbrev pub sector_error : ℕ
sector_error = 6666666

abbrev pub direct_blocks : ℕ
direct_blocks = 11

abbrev pub indirect_blocks : ℕ
indirect_blocks = 65

abbrev pub index_main_entries : ℕ
index_main_entries = 79

abbrev pub index_block_entries : ℕ
index_block_entries = 64

-- INODE_ACCESS_DIRECT, INODE_ACCESS_INDIRECT and INODE_ACCESS_MAX
abbrev pub access_direct : ℕ
access_direct = 10

abbrev pub access_indirect : ℕ
access_indirect = 4170

abbrev pub access_max : ℕ
access_max = 16383

abbrev pub Table : Type 0
Table = ℕ → ℕ

abbrev pub update : {A : Type 0} → (ℕ → A) → ℕ → A → ℕ → A
update f i v j = if j == i then v else f j

-- The device as this module sees it: the free map, the index blocks, which sectors are index blocks
-- (a block of zeros is none), and the bytes of the others.
pub record Store : Type 0 where
  pub free_map : FreeMap
  pub index : ℕ → Table
  pub is_index_block : ℕ → Bool
  pub bytes : ℕ → List ℕ

-- What the functions on a table return: a sector, or `none` for SECTOR_ERROR, and the table and the
-- device as they are then.
abbrev pub Result : Type 0
Result = Option (Option ℕ × Table × Store)

-- `size * BLOCK_SECTOR_SIZE` and DIV_ROUND_UP (size, BLOCK_SECTOR_SIZE)
unfoldable pub sectors_to_bytes : ℕ → ℕ
sectors_to_bytes size = size * block_sector_size

unfoldable pub bytes_to_sectors : ℕ → ℕ
bytes_to_sectors size = (size + block_sector_size - 1) / block_sector_size

unfoldable pub round_up_to_sector_boundary : ℕ → ℕ
unfolding sectors_to_bytes bytes_to_sectors
round_up_to_sector_boundary bytes = sectors_to_bytes (bytes_to_sectors bytes)

-- DIV_ROUND_UP (x, step)
abbrev pub div_round_up : ℕ → ℕ → ℕ
div_round_up x step = (x + step - 1) / step

-- The static array of zeros in `allocate_new_block`.
unfoldable pub zeros : List ℕ
zeros = replicate block_sector_size 0

-- `allocate_new_block`; `written` is the outcome of writing the free map.
unfoldable pub allocate_new_block : Bool → Table → ℕ → Store → Result
allocate_new_block written table idx st = allocate 1 written st.free_map >>= λ (found, fm).
    elim found [
      | none ↦ some (none, table, record st { free_map = fm })
      | some sector ↦ some (
        some sector,
        update table idx sector,
        record st {
          free_map = fm;
          bytes = update st.bytes sector zeros;
          is_index_block = update st.is_index_block sector false;
        },
      )
    ]

-- `allocate_new_index_inode`, with the part of `inode_create` that makes an index block.
unfoldable pub allocate_new_index_inode : Bool → Table → ℕ → Store → Result
allocate_new_index_inode written table idx st = allocate 1 written st.free_map >>= λ (found, fm).
    elim found [
      | none ↦ some (none, table, record st { free_map = fm })
      | some sector ↦ some (
        some sector,
        update table idx sector,
        record st {
          free_map = fm;
          index = update st.index sector (λ i. sector_error);
          is_index_block = update st.is_index_block sector true;
        },
      )
    ]

-- The last part of the macro: the entry, unless it is SECTOR_ERROR in a lookup.
unfoldable pub entry : Bool → Table → ℕ → Store → Result
entry allocate_new table idx st =
    if not allocate_new && (table idx == sector_error)
    then some (none, table, st)
    else some (some (table idx), table, st)

-- The allocation that the macro makes for an entry, of the kind that `is_index` says.
unfoldable pub allocate_entry : Bool → Bool → Table → ℕ → Store → Result
allocate_entry written is_index table idx st =
    if is_index
    then allocate_new_index_inode written table idx st
    else allocate_new_block written table idx st

-- CHECK_ALLOCATE_AND_GET_SECTOR on a table of `size` entries; the source has no check of the index, and
-- an access outside the table, which is undefined, is `none` here.
unfoldable pub check_allocate_and_get_sector :
    Bool → Bool → (size : ℕ) → Bool → Table → ℕ → Store → Result
unfolding entry allocate_entry
check_allocate_and_get_sector written allocate_new size is_index table idx st =
    assert (ltb idx size)
    >> (if allocate_new && (table idx == sector_error)
        then (allocate_entry written is_index table idx st >>= λ (found, table', st'). elim found [
          | none ↦ some (none, table', st')
          | some sector ↦ entry allocate_new table' idx st'
        ])
        else entry allocate_new table idx st)

-- The indices of a sector of the file in the indirect tables.
unfoldable pub indirect_main_idx : ℕ → ℕ
indirect_main_idx rel = div_round_up (rel - access_direct) index_block_entries + access_direct

unfoldable pub indirect_inner_idx : ℕ → ℕ
unfolding indirect_main_idx
indirect_inner_idx rel =
    let start = direct_blocks in
    rel - (start + index_block_entries * (indirect_main_idx rel - start))

-- The first index in the doubly indirect tables.
unfoldable pub doubly_main_idx : ℕ → ℕ
doubly_main_idx rel =
    div_round_up (rel - access_indirect) (index_block_entries * index_block_entries)
    + access_indirect

-- The lookup behind the entry for an index block: `block` is its sector.
unfoldable pub lookup_index : Bool → Bool → (block inner : ℕ) → Table → Store → Result
lookup_index written allocate_new block inner main st =
    assert (st.is_index_block block)
    >> (check_allocate_and_get_sector written allocate_new index_block_entries false
          (st.index block) inner st
        >>= λ (found, table, st').
            some (found, main, record st' { index = update st'.index block table }))

unfoldable pub lookup_indirect : Bool → Bool → ℕ → Table → Store → Result
unfolding indirect_main_idx indirect_inner_idx lookup_index
lookup_indirect written allocate_new rel main st =
    check_allocate_and_get_sector written allocate_new index_main_entries true main
      (indirect_main_idx rel) st
    >>= λ (found, main', st'). elim found [
      | none ↦ some (none, main', st')
      | some block ↦ lookup_index written allocate_new block (indirect_inner_idx rel) main' st'
    ]

-- The other indices of the doubly indirect tables, as the code computes them.
unfoldable pub doubly_inner_idx : ℕ → ℕ
unfolding doubly_main_idx
doubly_inner_idx rel =
    let start = direct_blocks + indirect_blocks * index_block_entries in
    rel - (start + index_block_entries * index_block_entries * (doubly_main_idx rel - start))

unfoldable pub doubly_d_inner_idx : ℕ → ℕ
unfolding doubly_main_idx
doubly_d_inner_idx rel =
    let start = direct_blocks + indirect_blocks * index_block_entries in
    rel - (start + index_block_entries * (doubly_main_idx rel - start))

-- The part of the doubly indirect lookup behind the entry of the main table.
unfoldable pub lookup_doubly_index : Bool → Bool → (block rel : ℕ) → Table → Store → Result
unfolding doubly_inner_idx doubly_d_inner_idx lookup_index
lookup_doubly_index written allocate_new block rel main st =
    assert (st.is_index_block block)
    >> (check_allocate_and_get_sector written allocate_new index_block_entries true (st.index block)
          (doubly_inner_idx rel) st
        >>= λ (found, table, st').
            let st'' : Store = record st' { index = update st'.index block table } in
            elim found [
              | none ↦ some (none, main, st'')
              | some d_block ↦
                  lookup_index written allocate_new d_block (doubly_d_inner_idx rel) main st''
            ])

unfoldable pub lookup_doubly : Bool → Bool → ℕ → Table → Store → Result
unfolding lookup_doubly_index
lookup_doubly written allocate_new rel main st =
    check_allocate_and_get_sector written allocate_new index_main_entries true main
      (doubly_main_idx rel) st
    >>= λ (found, main', st'). elim found [
      | none ↦ some (none, main', st')
      | some block ↦ lookup_doubly_index written allocate_new block rel main' st'
    ]

-- `inode_pos_to_real_sector` for the byte at `pos`, `main` being the main table of the inode.
unfoldable pub pos_to_real_sector : Bool → ℕ → Bool → Table → Store → Result
pos_to_real_sector written pos allocate_new main st =
    let rel = pos / block_sector_size in
    if leb rel access_direct
    then check_allocate_and_get_sector written allocate_new index_main_entries false main rel st
    else if leb rel access_indirect
    then lookup_indirect written allocate_new rel main st
    else if leb rel access_max
    then lookup_doubly written allocate_new rel main st
    else none
