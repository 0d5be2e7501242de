-- ===== src/Malloc/Tests.antt =====
-- A heap with an arena of 64-byte blocks at 0x2000, of which one block is free.
use projectmod.Base.{ℕ, ◌+◌, ◌<◌, ◌≤◌, ◌≡◌, refl, none, some, [], ◌∷◌, arith, ◌==◌, if◌then◌else◌}
use projectmod.Palloc.{page_size}
use projectmod.Malloc.{
  Desc, Arena, Heap, arena_bytes, malloc_init, find_desc, arena_to_block, block_to_arena, malloc,
  free, calloc_size,
}
use projectmod.Malloc.Blocks.{HasArena, init_descs-IsDesc, block_to_arena-arena_to_block}
use projectmod.Malloc.Calls.{SameHeap, free-malloc}

abbrev small_blocks : Desc
small_blocks = record { block_size = 64; blocks_per_arena = 63 }

abbrev one_free : Arena
one_free = record { desc = some 2; free_cnt = 1 }

abbrev one_arena : Heap
one_arena = record {
  free_list = λ k. if k == 2 then 0x204c ∷ [] else [];
  arenas = λ p. if p == 0x2000 then some one_free else none;
}

one_arena-HasArena : HasArena malloc_init 2 small_blocks 0x2000 one_free one_arena
unfolding malloc_init
one_arena-HasArena = record {
  desc = refl;
  valid = init_descs-IsDesc 10 16 2 (omega arith) refl;
  owner = refl;
  there = refl;
  aligned = refl;
  above = omega arith;
}

block_to_arena-arena_to_block_example :
    (b : ℕ) × (arena_to_block small_blocks 0x2000 5 ≡ some b)
    × (block_to_arena malloc_init b one_arena ≡ some (0x2000, one_free, some small_blocks))
    × (0x2000 + arena_bytes ≤ b)
    × (b + 64 ≤ 0x2000 + page_size)
    × ((j c : ℕ) → 5 < j → arena_to_block small_blocks 0x2000 j ≡ some c → b + 64 ≤ c)
block_to_arena-arena_to_block_example =
    block_to_arena-arena_to_block 5 one_arena-HasArena (omega arith)

free-malloc_example :
    (h' h'' : Heap) × (malloc malloc_init 0 0 50 one_arena ≡ some (some 0x204c, h'))
    × (free malloc_init 0x204c h' ≡ some h'')
    × SameHeap one_arena h''
unfolding malloc_init find_desc
free-malloc_example =
    free-malloc {a = one_free} 0 0 50 1 [] (omega arith) refl one_arena-HasArena (omega arith) refl
      (omega arith) (omega arith)

-- 65537 * 65537 bytes do not fit in 32 bits, and 131073 are asked for.
overflows : calloc_size 65537 65537 ≡ some 131073
unfolding calloc_size
overflows = refl
