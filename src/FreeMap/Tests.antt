-- ===== src/FreeMap/Tests.antt =====
-- filesys/free-map.c: a device of eight sectors, the first two of them in use.
use projectmod.Base.{ℕ, List, length, get_elem?, ◌+◌, ◌<◌, ◌≡◌, refl, true, some, [], ◌∷◌, arith}
use projectmod.Bitmap.{
  elem_cnt, scan_and_flip, scan, scan_loop, contains, contains_loop, set_multiple, set_loop, set,
  mark, test, update,
}
use projectmod.Bitmap.Bits.{IsValid}
use projectmod.FreeMap.{FreeMap, allocate, release}
use projectmod.FreeMap.Laws.{SameUse, release-allocate}

abbrev fresh : FreeMap
fresh = record { map = record { bit_cnt = 8; bits = 3 ∷ [] }; file_open = true }

fresh-IsValid : IsValid fresh.map
unfolding elem_cnt
fresh-IsValid = record { room = refl; fits = omega arith }

abbrev after : FreeMap
after = record { map = record { bit_cnt = 8; bits = 15 ∷ [] }; file_open = true }

fresh-allocate : allocate 2 true fresh ≡ some (some 2, after)
unfolding allocate scan_and_flip scan scan_loop contains contains_loop set_multiple set_loop set
    mark test update
fresh-allocate = refl

release-allocate_example :
    (dropped : List ℕ) × (s'' : FreeMap) × (release 2 2 after ≡ some (dropped, s''))
    × (length dropped ≡ 2)
    × ((j : ℕ) → j < 2 → get_elem? dropped j ≡ some (2 + j))
    × SameUse fresh s''
release-allocate_example =
    release-allocate 2 2 {s = fresh} {s' = after} fresh-IsValid refl fresh-allocate

room_for_eight : 1 ≡ elem_cnt 8
unfolding elem_cnt
room_for_eight = refl
