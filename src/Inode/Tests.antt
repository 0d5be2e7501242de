-- ===== src/Inode/Tests.antt =====
-- filesys/inode.c: positions in a file whose index is empty.
use projectmod.Base.{◌+◌, ◌*◌, ◌/◌, ◌≤◌, ◌<◌, ◌≡◌, true, false, some, refl, [], ◌∷◌, arith}
use projectmod.Bitmap.{
  elem_cnt, scan_and_flip, scan, scan_loop, contains, contains_loop, set_multiple, set_loop, set,
  mark, test, update as update_word,
}
use projectmod.FreeMap.{allocate}
use projectmod.Inode.Lookup.{IsSound}
use projectmod.Inode.Again.{found_again}
use projectmod.Inode.{
  lookup_indirect, lookup_index, check_allocate_and_get_sector, allocate_new_index_inode,
  allocate_new_block, zeros, update, Table, Store, sector_error, indirect_main_idx,
  indirect_inner_idx, pos_to_real_sector, round_up_to_sector_boundary,
}
use projectmod.Inode.Route.{round_up_lem}

abbrev no_entries : Table
no_entries i = sector_error

-- A device of eight sectors, the first two of them in use, and no index block.
abbrev device : Store
device = record {
  free_map = record { map = record { bit_cnt = 8; bits = 3 ∷ [] }; file_open = false };
  index = λ i. no_entries;
  is_index_block = λ i. false;
  bytes = λ i. [];
}

round_up_lem_example :
    (700 ≤ round_up_to_sector_boundary 700)
    × (round_up_to_sector_boundary 700 < 700 + 512)
    × ((round_up_to_sector_boundary 700 / 512) * 512 ≡ round_up_to_sector_boundary 700)
round_up_lem_example = round_up_lem 700

device-IsSound : IsSound device
unfolding elem_cnt
device-IsSound = record {
  map = record { room = refl; fits = omega arith };
  small = omega arith;
  owned = λ b k. ground (arith, k);
}

-- The device after an index block, sector 2, and a block, sector 3, were allocated.
abbrev entries : Table
entries = update no_entries 11 2

abbrev used : Store
used = record {
  free_map = record { map = record { bit_cnt = 8; bits = 15 ∷ [] }; file_open = false };
  index = update (update device.index 2 no_entries) 2 (update no_entries 0 3);
  is_index_block = update (update device.is_index_block 2 true) 3 false;
  bytes = update device.bytes 3 zeros;
}

device-lookup :
    pos_to_real_sector true (11 * 512) true no_entries device ≡ some (some 3, entries, used)
unfolding pos_to_real_sector lookup_indirect lookup_index indirect_main_idx indirect_inner_idx
    check_allocate_and_get_sector allocate_new_index_inode allocate_new_block allocate scan_and_flip
    scan scan_loop contains contains_loop set_multiple set_loop set mark test update_word
device-lookup = refl

found_again_example :
    (st'' : Store) × (pos_to_real_sector true (11 * 512) false entries used
      ≡ some (some 3, entries, st''))
found_again_example =
    found_again true true (11 * 512) 3 no_entries device {main' = entries} {st' = used}
      device-IsSound (omega arith) device-lookup
