-- ===== src/Swap/Tests.antt =====
-- vm/swap.c: a device of four slots, all of them free but the first.
use projectmod.Base.{ℕ, ◌≡◌, refl, some, [], ◌∷◌, arith, ltb, if◌then◌else◌}
use projectmod.Bitmap.{
  elem_cnt, scan_and_flip, scan, scan_loop, contains, contains_loop, set_multiple, set_loop, set,
  reset, test, update,
}
use projectmod.Swap.{Page, Swap, swap_in, swap_out, write_loop}
use projectmod.Swap.Laws.{IsSound, is_free, swap_in-swap_out}

abbrev slots : Swap
slots = record { bm = record { bit_cnt = 4; bits = 14 ∷ [] }; device = λ i. [] }

slots-IsSound : IsSound slots
unfolding elem_cnt
slots-IsSound = record { map = record { room = refl; fits = omega arith }; fits = omega arith }

abbrev numbered : Page
numbered k = k ∷ []

abbrev taken : Swap
taken = record {
  bm = record { bit_cnt = 4; bits = 12 ∷ [] };
  device = write_loop 8 0 8 numbered slots.device;
}

slots-swap_out : swap_out numbered slots ≡ some (1, taken)
unfolding swap_out scan_and_flip scan scan_loop contains contains_loop set_multiple set_loop set
    reset test update
slots-swap_out = refl

swap_in-swap_out_example :
    (mem' : Page) × (s'' : Swap) × (swap_in 1 (λ k. []) taken ≡ some (mem', s''))
    × ((k : ℕ) → mem' k ≡ (if ltb k 8 then numbered k else []))
    × ((i : ℕ) → is_free s'' i ≡ is_free slots i)
swap_in-swap_out_example =
    swap_in-swap_out numbered (λ k. []) 1 slots {s' = taken} slots-IsSound slots-swap_out
      (omega arith)
