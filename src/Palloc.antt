-- ===== src/Palloc.antt =====
-- threads/palloc.c: pages for the kernel and for user programs, from two pools with a bitmap each. The
-- lock of a pool makes each call one step. Addresses have 32 bits, and 0 is the null pointer; `none` is
-- a PANIC or a failed ASSERT. memset is that of lib/string.c.
pub mod Fill
pub mod Get
mod Free
mod Start
mod Tests
use projectmod.Base.{
  ℕ, zero, suc, ◌+◌, ◌-◌, ◌*◌, ◌/◌, ◌%◌, ◌^◌, Bool, true, false, not, ◌&&◌, ◌||◌, Option, none,
  some, List, bit_and, ◌==◌, ltb, leb, if◌then◌else◌, ◌>>=◌, ◌>>◌, assert,
}
use projectmod.Bitmap.{Bitmap, bitmap_error, byte_cnt, set_all, set_multiple, all, scan_and_flip}

-- PGSIZE, and LOADER_PHYS_BASE
abbrev pub page_size : ℕ
page_size = 4096

abbrev pub phys_base : ℕ
phys_base = 3221225472

abbrev pub address : ℕ → ℕ
address n = n % 2 ^ 32

abbrev pub pg_no : ℕ → ℕ
pg_no va = va / 2 ^ 12

abbrev pub pg_ofs : ℕ → ℕ
pg_ofs va = va % 2 ^ 12

-- `enum palloc_flags`
abbrev pub pal_assert : ℕ
pal_assert = 1

abbrev pub pal_zero : ℕ
pal_zero = 2

abbrev pub pal_user : ℕ
pal_user = 4

-- `flags & flag`
abbrev pub has : ℕ → ℕ → Bool
has flags flag = not (bit_and flags flag == 0)

-- `struct pool`
pub record Pool : Type 0 where
  pub used_map : Bitmap
  pub base : ℕ

-- `kernel_pool`, `user_pool`, and the bytes of the memory.
pub record Pools : Type 0 where
  pub kernel : Pool
  pub user : Pool
  pub memory : ℕ → ℕ

-- `size` bytes of `value` from `dst` on
unfoldable pub memset : (size dst value : ℕ) → (ℕ → ℕ) → ℕ → ℕ
memset zero dst value memory = memory
memset (suc size) dst value memory =
    memset size (address (dst + 1)) value (λ a. if a == dst then value else memory a)

abbrev pub pool_of : Bool → Pools → Pool
pool_of user s = if user then s.user else s.kernel

abbrev pub put_map : Bool → Bitmap → Pools → Pools
put_map user m s =
    if user
    then record s { user = record { used_map = m; base = s.user.base } }
    else record s { kernel = record { used_map = m; base = s.kernel.base } }

-- `palloc_get_multiple`: the address of the first page, and the pools.
unfoldable pub get_multiple : (flags page_cnt : ℕ) → Pools → Option (ℕ × Pools)
get_multiple flags page_cnt s =
    let user = has flags pal_user in
    let pool = pool_of user s in
    if page_cnt == 0
    then some (0, s)
    else (scan_and_flip pool.used_map 0 page_cnt false >>= λ (page_idx, m).
        let s' = put_map user m s in
        let pages =
          if page_idx == bitmap_error then 0 else address (pool.base + page_size * page_idx) in
        if pages == 0
        then (assert (not (has flags pal_assert)) >> some (0, s'))
        else if has flags pal_zero
        then some (pages, record s' { memory = memset (page_size * page_cnt) pages 0 s'.memory })
        else some (pages, s'))

unfoldable pub get_page : ℕ → Pools → Option (ℕ × Pools)
unfolding get_multiple
get_page flags s = get_multiple flags 1 s

unfoldable pub page_from_pool : Pool → ℕ → Bool
page_from_pool pool page =
    let start_page = pg_no pool.base in
    let end_page = address (start_page + pool.used_map.bit_cnt) in
    leb start_page (pg_no page) && ltb (pg_no page) end_page

-- The end of `palloc_free_multiple`, in the pool that has the pages.
unfoldable pub free_in : Bool → (pages page_cnt : ℕ) → Pools → Option Pools
free_in user pages page_cnt s =
    let pool = pool_of user s in
    let page_idx = pg_no pages - pg_no pool.base in
    all pool.used_map page_idx page_cnt >>= λ used.
    assert used
    >> (set_multiple pool.used_map page_idx page_cnt false >>= λ m.
        some
          (record (put_map user m s) { memory = memset (page_size * page_cnt) pages 204 s.memory }))

unfoldable pub free_multiple : (pages page_cnt : ℕ) → Pools → Option Pools
unfolding page_from_pool free_in
free_multiple pages page_cnt s =
    assert (pg_ofs pages == 0)
    >> (if (pages == 0) || (page_cnt == 0)
        then some s
        else if page_from_pool s.kernel pages
        then free_in false pages page_cnt s
        else if page_from_pool s.user pages
        then free_in true pages page_cnt s
        else none)

unfoldable pub free_page : ℕ → Pools → Option Pools
unfolding free_multiple
free_page page s = free_multiple page 1 s

-- `bitmap_buf_size` and `bitmap_create_in_buf` of lib/kernel/bitmap.c, with the words in the buffer.
unfoldable pub bitmap_buf_size : ℕ → ℕ
bitmap_buf_size bit_cnt = address (8 + byte_cnt bit_cnt)

unfoldable pub create_in_buf : (bit_cnt : ℕ) → List ℕ → (block_size : ℕ) → Option Bitmap
unfolding bitmap_buf_size
create_in_buf bit_cnt words block_size =
    assert (leb (bitmap_buf_size bit_cnt) block_size)
    >> set_all (record { bit_cnt = bit_cnt; bits = words }) false

-- The pages for the bitmap of a pool: DIV_ROUND_UP (bitmap_buf_size (page_cnt), PGSIZE)
unfoldable pub bm_pages : ℕ → ℕ
unfolding bitmap_buf_size
bm_pages page_cnt = address (bitmap_buf_size page_cnt + page_size - 1) / page_size

unfoldable pub init_pool : (base page_cnt : ℕ) → List ℕ → Option Pool
unfolding bm_pages create_in_buf
init_pool base page_cnt words =
    let bm = bm_pages page_cnt in
    assert (leb bm page_cnt)
    >> (create_in_buf (page_cnt - bm) words (bm * page_size) >>= λ m.
        some (record { used_map = m; base = address (base + bm * page_size) }))

unfoldable pub ptov : ℕ → Option ℕ
ptov paddr = assert (ltb paddr phys_base) >> some (address (paddr + phys_base))

-- `palloc_init` with `init_ram_pages` of memory; the lists are the words where the bitmaps will be.
unfoldable pub init :
    (init_ram_pages user_page_limit : ℕ)
    → (kernel_words user_words : List ℕ) → (ℕ → ℕ)
    → Option Pools
unfolding ptov init_pool
init init_ram_pages user_page_limit kernel_words user_words memory =
    ptov (1024 * 1024) >>= λ free_start. ptov (address (init_ram_pages * page_size)) >>= λ free_end.
    let free_pages = (free_end - free_start) / page_size in
    let user_pages =
      if ltb user_page_limit (free_pages / 2) then user_page_limit else free_pages / 2 in
    let kernel_pages = free_pages - user_pages in
    init_pool free_start kernel_pages kernel_words >>= λ kernel.
    init_pool (address (free_start + kernel_pages * page_size)) user_pages user_words >>= λ user.
    some (record { kernel = kernel; user = user; memory = memory })
