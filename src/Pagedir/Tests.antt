-- ===== src/Pagedir/Tests.antt =====
-- A directory at 0xc0001000 with one table, for the page at 0.
use projectmod.Base.{ℕ, ◌+◌, ◌*◌, ◌^◌, ◌<◌, ◌≡◌, ◌⊎◌, refl, true, false, some, [], ◌∷◌, arith}
use projectmod.Pagedir.{Tables, pagedir_set_page, pagedir_clear_page, has_flag}
use projectmod.Pagedir.Entries.{IsPage}
use projectmod.Pagedir.Valid.{IsValid, IsFree, pte_of}
use projectmod.Pagedir.Clear.{Cleared, pagedir_clear_page_lem}
use projectmod.Pagedir.Calls.{Maps, pagedir_set_page_lem}

abbrev directory : ℕ
directory = 0xc0001000

-- Nothing is mapped, and two pages are left.
abbrev empty : Tables
empty = record { words = λ a. 0; pages = 0xc0002000 ∷ 0xc0003000 ∷ [] }

page : (n : ℕ) → n < 100 → IsPage (0xc0000000 + 2 ^ 12 * n)
page n h = record { aligned = omega arith; above = omega arith; below = omega arith }

empty-IsFree : (n : ℕ) → 1 < n → n < 100 → IsFree directory (λ a. 0) (0xc0000000 + 2 ^ 12 * n)
empty-IsFree n h k = record {
  page = page n k;
  no_directory = omega arith;
  no_table = λ i p nz. absurd (nz refl);
}

empty-IsValid : IsValid directory empty
empty-IsValid = record {
  place = page 1 (omega arith);
  entries = λ i h nz. absurd (nz refl);
  no_directory = λ i h nz. absurd (nz refl);
  apart = λ i j h k ne nz nz'. absurd (nz refl);
  free = (
    empty-IsFree 2 (omega arith) (omega arith),
    (omega arith, tt),
    (empty-IsFree 3 (omega arith) (omega arith), tt, tt),
  );
}

pagedir_set_page_lem_example :
    ((s' : Tables) × (pagedir_set_page 1024 directory 0x8048000 0xc0005000 true empty
        ≡ some (true, s'))
      × Maps directory 0x8048000 0xc0005000 true empty s')
    ⊎ ((empty.pages ≡ [])
        × (pagedir_set_page 1024 directory 0x8048000 0xc0005000 true empty ≡ some (false, empty)))
unfolding pte_of has_flag
pagedir_set_page_lem_example =
    pagedir_set_page_lem 1024 0x8048000 0xc0005000 true empty-IsValid refl (omega arith)
      (page 5 (omega arith)) (omega arith) refl

pagedir_clear_page_lem_example :
    (s' : Tables) × (pagedir_clear_page directory 0x8048000 empty ≡ some s')
    × Cleared directory 0x8048000 empty s'
pagedir_clear_page_lem_example = pagedir_clear_page_lem 0x8048000 empty-IsValid refl (omega arith)
