-- ===== src/Palloc/Tests.antt =====
-- The theorems on 300 pages of memory.
use projectmod.Base.{ℕ, ◌+◌, ◌-◌, ◌*◌, ◌<◌, ◌≡◌, refl, false, some, [], ◌∷◌, length, arith}
use projectmod.Bitmap.{
  elem_cnt, byte_cnt, scan_and_flip, scan, scan_loop, contains, contains_loop, set_multiple,
  set_loop, set, mark, test, update,
}
use projectmod.Bitmap.Bits.{bit, IsValid as IsValidMap}
use projectmod.Palloc.{Pools, bm_pages, bitmap_buf_size, init, get_multiple, free_multiple}
use projectmod.Palloc.Get.{IsValid}
use projectmod.Palloc.Free.{SameUse, free-get}
use projectmod.Palloc.Start.{palloc_init_lem}

-- Six pages in the kernel's pool, of which the first is in use, and four in the user pool.
abbrev pools : Pools
pools = record {
  kernel = record { used_map = record { bit_cnt = 6; bits = 1 ∷ [] }; base = 3222278144 };
  user = record { used_map = record { bit_cnt = 4; bits = 0 ∷ [] }; base = 3222306816 };
  memory = λ a. 5;
}

small_map :
    (cnt word : ℕ) → 0 < cnt → cnt < 10 → IsValidMap (record { bit_cnt = cnt; bits = word ∷ [] })
unfolding elem_cnt
small_map cnt word p q = record { room = omega arith; fits = omega arith }

pools-IsValid : IsValid pools
pools-IsValid = record {
  kernel = record {
    map = small_map 6 1 (omega arith) (omega arith);
    aligned = omega arith;
    above_zero = omega arith;
    fits = omega arith;
  };
  user = record {
    map = small_map 4 0 (omega arith) (omega arith);
    aligned = omega arith;
    above_zero = omega arith;
    fits = omega arith;
  };
  apart = omega arith;
}

abbrev after : Pools
after = record {
  kernel = record { used_map = record { bit_cnt = 6; bits = 7 ∷ [] }; base = 3222278144 };
  user = record { used_map = record { bit_cnt = 4; bits = 0 ∷ [] }; base = 3222306816 };
  memory = λ a. 5;
}

pools-get : get_multiple 0 2 pools ≡ some (3222282240, after)
unfolding get_multiple scan_and_flip scan scan_loop contains contains_loop set_multiple set_loop set
    mark test update
pools-get = refl

free-get_example : (s : Pools) × (free_multiple 3222282240 2 after ≡ some s) × SameUse pools s
free-get_example =
    free-get 0 2 3222282240 {s = pools} {s' = after} pools-IsValid (omega arith) pools-get
      (λ e. omega (arith, e))

kernel_room : length {A = ℕ} (0 ∷ 0 ∷ []) ≡ elem_cnt (34 - bm_pages 34)
unfolding elem_cnt bm_pages bitmap_buf_size byte_cnt
kernel_room = refl

user_room : length {A = ℕ} (0 ∷ []) ≡ elem_cnt (10 - bm_pages 10)
unfolding elem_cnt bm_pages bitmap_buf_size byte_cnt
user_room = refl

palloc_init_lem_example :
    (s : Pools) × (init 300 10 (0 ∷ 0 ∷ []) (0 ∷ []) (λ a. 5) ≡ some s)
    × IsValid s
    × ((i : ℕ) → i < s.kernel.used_map.bit_cnt → bit s.kernel.used_map i ≡ false)
    × ((i : ℕ) → i < s.user.used_map.bit_cnt → bit s.user.used_map i ≡ false)
    × (s.user.base + 4096 * s.user.used_map.bit_cnt ≡ 3222454272)
palloc_init_lem_example =
    palloc_init_lem 300 10 (0 ∷ 0 ∷ []) (0 ∷ []) (λ a. 5) (omega arith) (omega arith) (omega arith)
      kernel_room user_room
