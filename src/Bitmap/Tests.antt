-- ===== src/Bitmap/Tests.antt =====
-- lib/kernel/bitmap.c: a bitmap of five bits, the first two of them set.
use projectmod.Base.{ℕ, some, ◌≡◌, ◌≢◌, ◌⊎◌, refl, false, [], ◌∷◌, arith}
use projectmod.Bitmap.{Bitmap, scan_and_flip, elem_cnt}
use projectmod.Bitmap.Bits.{IsValid}
use projectmod.Bitmap.Scan.{Flipped, scan_and_flip_lem}

abbrev five : Bitmap
five = record { bit_cnt = 5; bits = 3 ∷ [] }

five-IsValid : IsValid five
unfolding elem_cnt
five-IsValid = record { room = refl; fits = omega arith }

abbrev two : ℕ
two = 2

scan_and_flip_lem_example :
    Flipped five 1 2 false (scan_and_flip five 1 2 false)
    × ((two ≢ 0) ⊎ ((b' : Bitmap) × (scan_and_flip five 1 2 false ≡ some (1, b'))))
scan_and_flip_lem_example = scan_and_flip_lem five-IsValid 1 2 false (omega arith)

room_for_five : 1 ≡ elem_cnt 5
unfolding elem_cnt
room_for_five = refl
