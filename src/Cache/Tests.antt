-- ===== src/Cache/Tests.antt =====
-- The cache's theorems on a device of four sectors.
use projectmod.Base.{
  ℕ, ◌<◌, ◌≡◌, refl, Bool, true, false, none, some, [], ◌∷◌, arith, ◌==◌, if◌then◌else◌, length,
  replicate,
}
use projectmod.Cache.{
  Device, Cache, empty_sector, init, block_read_cached, block_write_cached, flush_all, daemon_flush,
  remove, find_from, get_entry_by_sector,
}
use projectmod.Cache.View.{IsValid, view}
use projectmod.Cache.Agree.{HasFree, get_free_entry_lem}
use projectmod.Cache.Calls.{IsAlone, write-read}
use projectmod.Cache.Flush.{flush_all_lem, remove-daemon_flush}

abbrev disk : Device
disk = record { size = 4; sectors = λ s. replicate 512 s }

abbrev started : Cache
started = init (λ i. replicate 512 0) disk

started-IsValid : IsValid started
unfolding init
started-IsValid = record {
  unique = λ i j p q same ne. absurd (ne refl);
  inside = λ i p ne. absurd (ne refl);
  clean = λ i p ne d. absurd (ne refl);
  size = omega arith;
}

started_free : (started.entries 63).readers ≡ 0
unfolding init
started_free = refl

started_unread : (i : ℕ) → (started.entries i).sector ≡ 3 → (started.entries i).readers ≡ 0
unfolding init
started_unread i e = refl

started_size : 3 < started.device.size
unfolding init
started_size = omega arith

started_block : length (view started 3) ≡ 512
unfolding view init get_entry_by_sector find_from
started_block = refl

-- Entry 0 has sector 2, which was written to; the others are empty.
abbrev dirty : Cache
dirty = record {
  entries = λ i. record {
    sector = if i == 0 then 2 else empty_sector;
    contents = replicate 512 9;
    is_in_second_chance = false;
    is_dirty = i == 0;
    readers = 0;
  };
  device = disk;
}

dirty-IsValid : IsValid dirty
dirty-IsValid = record {
  unique = λ i j p q same ne. ground (arith, same, ne);
  inside = λ i p ne. ground (arith, ne);
  clean = λ i p ne d. ground (arith, ne, d);
  size = omega arith;
}

abbrev idle : ℕ → ℕ → Bool
idle round i = false

alone : IsAlone idle (λ c. c)
alone = record { free = λ r i. refl; still = λ c. refl }

get_free_entry_lem_example : HasFree idle dirty
get_free_entry_lem_example =
    get_free_entry_lem idle {c = dirty} 63 dirty-IsValid (omega arith) refl (λ r. refl)

write-read_example :
    (c' : Cache) × (c'' : Cache) × (block_write_cached false idle
        (λ c. c)
        3
        100
        (7 ∷ 8 ∷ [])
        started
      ≡ some (true, c'))
    × (block_read_cached idle (λ c. c) 3 100 2 c' ≡ some (7 ∷ 8 ∷ [], c''))
write-read_example =
    write-read idle idle (λ c. c) (λ c. c) {c = started} 3 100 (7 ∷ 8 ∷ []) 63 started-IsValid
      started_size (omega arith) started_block (omega arith) started_free started_unread alone alone

flush_all_lem_example :
    (c' : Cache) × (flush_all dirty ≡ some c')
    × IsValid c'
    × ((s : ℕ) → s < 4 → c'.device.sectors s ≡ view dirty s)
    × ((s : ℕ) → s < 4 → view c' s ≡ view dirty s)
flush_all_lem_example = flush_all_lem {c = dirty} dirty-IsValid

remove-daemon_flush_example : daemon_flush (remove 2 dirty) ≡ none
remove-daemon_flush_example =
    remove-daemon_flush {c = dirty} 0 dirty-IsValid (omega arith) (λ e. omega (arith, e)) refl
