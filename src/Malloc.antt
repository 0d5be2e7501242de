-- ===== src/Malloc.antt =====
-- threads/malloc.c: descriptors, arenas and blocks by their addresses. What the page allocator returns is
-- an argument, 0 for the null pointer; the contents of blocks and the descriptors' locks are left out.
mod Blocks
mod Calls
mod Tests
use projectmod.Base.{
  ℕ, zero, suc, ◌+◌, ◌-◌, ◌*◌, ◌/◌, ◌%◌, ◌^◌, Bool, true, false, not, ◌&&◌, ◌||◌, Option, none,
  some, List, [], ◌∷◌, ◌++◌, ◌==◌, ltb, leb, if◌then◌else◌, ◌>>=◌, ◌>>◌, assert, get_elem?,
}
use projectmod.Palloc.{page_size, pg_ofs}

-- `struct desc` less its free list.
pub record Desc : Type 0 where
  pub block_size : ℕ
  pub blocks_per_arena : ℕ

-- `struct arena`, with the descriptor's index; it has 12 bytes. Only a page with an arena has the magic
-- number.
pub record Arena : Type 0 where
  pub desc : Option ℕ
  pub free_cnt : ℕ

abbrev pub arena_bytes : ℕ
arena_bytes = 12

-- The loop of `malloc_init` from a size on, with fuel for the ten descriptors that there is room for.
unfoldable pub init_descs : (room block_size : ℕ) → List Desc
init_descs zero block_size = []
init_descs (suc n) block_size = elim (ltb block_size (page_size / 2)) [
  | true ↦
      record { block_size = block_size; blocks_per_arena = (page_size - arena_bytes) / block_size }
      ∷ init_descs n (block_size * 2)
  | false ↦ []
]

unfoldable pub malloc_init : List Desc
unfolding init_descs
malloc_init = init_descs 10 16

-- The free lists of the descriptors, and the arenas by their pages.
pub record Heap : Type 0 where
  pub free_list : ℕ → List ℕ
  pub arenas : ℕ → Option Arena

abbrev pub put_list : ℕ → List ℕ → (ℕ → List ℕ) → ℕ → List ℕ
put_list k l lists i = if i == k then l else lists i

abbrev pub put_arena : ℕ → Option Arena → (ℕ → Option Arena) → ℕ → Option Arena
put_arena p a arenas q = if q == p then a else arenas q

-- The smallest descriptor for a size, and its index.
unfoldable pub find_desc : (size k : ℕ) → List Desc → Option (ℕ × Desc)
find_desc size k [] = none
find_desc size k (d ∷ rest) =
    let later = find_desc size (k + 1) rest in if leb size d.block_size then some (k, d) else later

-- `arena_to_block` in an arena of a descriptor.
unfoldable pub arena_to_block : (d : Desc) (a idx : ℕ) → Option ℕ
arena_to_block d a idx =
    assert (not (a == 0))
    >> (assert (ltb idx d.blocks_per_arena) >> some (a + arena_bytes + idx * d.block_size))

-- The descriptor of an arena, `none` inside for a big block.
unfoldable pub desc_of : List Desc → Option ℕ → Option (Option Desc)
desc_of descs none = some none
desc_of descs (some k) = get_elem? descs k >>= λ d. some (some d)

-- The alignment that `block_to_arena` asks for.
unfoldable pub is_aligned : Option Desc → ℕ → Bool
is_aligned none b = pg_ofs b == arena_bytes
is_aligned (some d) b = (pg_ofs b - arena_bytes) % d.block_size == 0

-- `block_to_arena`: the page, the arena there, and its descriptor.
unfoldable pub block_to_arena : List Desc → ℕ → Heap → Option (ℕ × Arena × Option Desc)
unfolding desc_of is_aligned
block_to_arena descs b h =
    let p = b - pg_ofs b in
    assert (not (p == 0))
    >> (h.arenas p >>= λ a. desc_of descs a.desc >>= λ d. assert (is_aligned d b) >> some (p, a, d))

-- The blocks of a new arena from index `i` on.
unfoldable pub arena_blocks : (n i : ℕ) → Desc → ℕ → List ℕ
arena_blocks zero i d a = []
arena_blocks (suc n) i d a = (a + arena_bytes + i * d.block_size) ∷ arena_blocks n (i + 1) d a

-- The free list with blocks, from a new arena if it has none; `none` if there is no page for one.
unfoldable pub fill_list : (page k : ℕ) → Desc → List ℕ → Heap → Option Heap
unfolding arena_blocks
fill_list page k d (b ∷ rest) h = some h
fill_list page k d [] h =
    if page == 0
    then none
    else some (record {
      free_list = put_list k (arena_blocks d.blocks_per_arena 0 d page) h.free_list;
      arenas =
          put_arena page (some (record { desc = some k; free_cnt = d.blocks_per_arena })) h.arenas;
    })

-- The first block of a free list.
unfoldable pub pop_block : List Desc → ℕ → List ℕ → Heap → Option (Option ℕ × Heap)
unfolding block_to_arena
pop_block descs k [] h = none
pop_block descs k (b ∷ rest) h = block_to_arena descs b h >>= λ (p, a, d). some (
  some b,
  record {
    free_list = put_list k rest h.free_list;
    arenas = put_arena p (some (record a { free_cnt = a.free_cnt - 1 })) h.arenas;
  },
)

-- `malloc`: the block, `none` inside for the null pointer. `page` and `pages` are what palloc_get_page
-- and palloc_get_multiple return.
unfoldable pub take_block : (page k : ℕ) → List Desc → Desc → Heap → Option (Option ℕ × Heap)
unfolding fill_list pop_block
take_block page k descs d h = elim (fill_list page k d (h.free_list k) h) [
  | none ↦ some (none, h)
  | some h' ↦ pop_block descs k (h'.free_list k) h'
]

unfoldable pub big_block : (pages size : ℕ) → Heap → Option ℕ × Heap
big_block pages size h =
    let page_cnt = ((size + arena_bytes) % 2 ^ 32 + page_size - 1) % 2 ^ 32 / page_size in
    if pages == 0 then (none, h) else (
      some (pages + arena_bytes),
      record h {
        arenas = put_arena pages (some (record { desc = none; free_cnt = page_cnt })) h.arenas;
      },
    )

unfoldable pub malloc : List Desc → (page pages size : ℕ) → Heap → Option (Option ℕ × Heap)
unfolding find_desc take_block big_block
malloc descs page pages size h =
    if size == 0 then some (none, h) else elim (find_desc size 0 descs) [
      | none ↦ some (big_block pages size h)
      | some (k, d) ↦ take_block page k descs d h
    ]

-- The bytes that `calloc` asks `malloc` for, or `none` for the null pointer.
unfoldable pub calloc_size : ℕ → ℕ → Option ℕ
calloc_size a b = let size = a * b % 2 ^ 32 in if ltb size a || ltb size b then none else some size

-- `list_remove` of the blocks of an arena.
unfoldable pub without_arena : (a : ℕ) → List ℕ → List ℕ
without_arena a [] = []
without_arena a (b ∷ rest) = let r = without_arena a rest in if b - pg_ofs b == a then r else b ∷ r

-- `free` of a block of a descriptor: the arena is given up when all of its blocks are free.
unfoldable pub free_block : (p k b : ℕ) → Arena → Desc → Heap → Option Heap
unfolding without_arena
free_block p k b a d h =
    let l = b ∷ h.free_list k in
    let cnt = a.free_cnt + 1 in
    if leb d.blocks_per_arena cnt
    then (assert (cnt == d.blocks_per_arena)
        >> some (record {
          free_list = put_list k (without_arena p l) h.free_list;
          arenas = put_arena p none h.arenas;
        }))
    else some (record {
      free_list = put_list k l h.free_list;
      arenas = put_arena p (some (record a { free_cnt = cnt })) h.arenas;
    })

unfoldable pub free_in_arena : (p b : ℕ) → Arena → Option ℕ → Option Desc → Heap → Option Heap
unfolding free_block
free_in_arena p b a none d h = some (record h { arenas = put_arena p none h.arenas })
free_in_arena p b a (some k) none h = none
free_in_arena p b a (some k) (some d) h = free_block p k b a d h

-- `free` of a block that is not null.
unfoldable pub free : List Desc → ℕ → Heap → Option Heap
unfolding block_to_arena free_in_arena
free descs b h = block_to_arena descs b h >>= λ (p, a, d). free_in_arena p b a a.desc d h
