-- ===== src/Palloc/Start.antt =====
-- `init_pool` and `palloc_init`.
use projectmod.Base.{
  ℕ, ◌+◌, ◌-◌, ◌*◌, ◌/◌, ◌%◌, ◌≤◌, ◌<◌, ◌^◌, ◌≡◌, refl, true, false, some, List, length, arith, ltb,
  le→leb, lt→ltb, if◌then◌else◌,
}
use projectmod.Bitmap.{byte_cnt, elem_cnt}
use projectmod.Bitmap.Bits.{bit}
use projectmod.Bitmap.Range.{set_all_lem}
use projectmod.Palloc.{
  Pool, Pools, bitmap_buf_size, bm_pages, create_in_buf, init_pool, init, ptov, address,
}
use projectmod.Palloc.Get.{IsValidPool, IsValid}

-- The bitmap of `cnt` pages fits in its pages, of which there are not more.
bm_pages_lem :
    (cnt : ℕ)
    → 0 < cnt
    → cnt ≤ 2 ^ 20
    → (bm_pages cnt ≤ cnt) × (bitmap_buf_size (cnt - bm_pages cnt) ≤ bm_pages cnt * 4096)
unfolding bm_pages bitmap_buf_size byte_cnt elem_cnt
bm_pages_lem cnt pos small = (omega arith, omega arith)

-- A pool of fresh pages: they end where the memory given to the pool does, and none is marked.
pub record Fresh (base page_cnt : ℕ) (p : Pool) : Type 0 where
  pub valid : IsValidPool p
  pub above : base ≤ p.base
  pub ends : p.base + 4096 * p.used_map.bit_cnt ≡ base + 4096 * page_cnt
  pub clear : (i : ℕ) → i < p.used_map.bit_cnt → bit p.used_map i ≡ false

pub init_pool_lem :
    (base cnt : ℕ) (words : List ℕ)
    → 0 < base
    → base % 4096 ≡ 0
    → 0 < cnt
    → base + 4096 * cnt < 2 ^ 32
    → length words ≡ elem_cnt (cnt - bm_pages cnt)
    → (p : Pool) × (init_pool base cnt words ≡ some p) × Fresh base cnt p
unfolding init_pool create_in_buf
init_pool_lem base cnt words pos aligned some_pages fits room =
    let (enough, buffer) = bm_pages_lem cnt some_pages (omega arith) in
    let (m, ok, sets) =
      set_all_lem {b = record { bit_cnt = cnt - bm_pages cnt; bits = words }} false
        (record { room = room; fits = omega arith }) in
    let no_wrap : address (base + bm_pages cnt * 4096) ≡ base + bm_pages cnt * 4096 = omega arith in
    rw
      (
        le→leb (bm_pages cnt) cnt enough,
        le→leb (bitmap_buf_size (cnt - bm_pages cnt)) (bm_pages cnt * 4096) buffer,
        ok,
      )
      (
        _,
        refl,
        record {
          valid = record {
            map = sets.valid;
            aligned = omega (arith, sets.size);
            above_zero = omega arith;
            fits = omega (arith, sets.size);
          };
          above = omega arith;
          ends = omega (arith, sets.size);
          clear = λ i h. ground (arith, sets.bits i, sets.size, h);
        },
      )

-- The pages of the user pool, with `ram` pages of memory.
abbrev pub user_cnt : ℕ → ℕ → ℕ
user_cnt ram limit =
    let free_pages = ram - 256 in if ltb limit (free_pages / 2) then limit else free_pages / 2

-- With more than 1 MB + 1 page and less than 1 GB of memory, and a user pool that may have a page,
-- `palloc_init` makes two valid pools that do not overlap and in which no page is marked; the user pool
-- ends where the memory does.
pub palloc_init_lem :
    (ram limit : ℕ) (kernel_words user_words : List ℕ) (memory : ℕ → ℕ)
    → 257 < ram
    → ram < 2 ^ 18
    → 0 < limit
    → length kernel_words
      ≡ elem_cnt (ram - 256 - user_cnt ram limit - bm_pages (ram - 256 - user_cnt ram limit))
    → length user_words ≡ elem_cnt (user_cnt ram limit - bm_pages (user_cnt ram limit))
    → (s : Pools) × (init ram limit kernel_words user_words memory ≡ some s)
      × IsValid s
      × ((i : ℕ) → i < s.kernel.used_map.bit_cnt → bit s.kernel.used_map i ≡ false)
      × ((i : ℕ) → i < s.user.used_map.bit_cnt → bit s.user.used_map i ≡ false)
      × (s.user.base + 4096 * s.user.used_map.bit_cnt ≡ 3221225472 + 4096 * ram)
unfolding init ptov
palloc_init_lem ram limit kernel_words user_words memory large small some_limit kernel_room
      user_room =
    let u = user_cnt ram limit in
    let k = ram - 256 - u in
    let ram_bytes : address (ram * 4096) ≡ ram * 4096 = omega arith in
    let in_map : ltb (ram * 4096) 3221225472 ≡ true =
      lt→ltb (ram * 4096) 3221225472 (omega arith) in
    let pages : (address (ram * 4096 + 3221225472) - address (1024 * 1024 + 3221225472)) / 4096
        ≡ ram - 256 =
      omega arith in
    let u_pos : 0 < u = ground arith in
    let u_le : 2 * u ≤ ram - 256 = ground arith in
    let next : address (address (1024 * 1024 + 3221225472) + k * 4096) ≡ 3222274048 + k * 4096 =
      omega arith in
    let (kernel, ok, fresh) =
      init_pool_lem 3222274048 k kernel_words (omega arith) (omega arith) (omega arith)
        (omega arith) kernel_room in
    let (user, ok', fresh') =
      init_pool_lem (3222274048 + k * 4096) u user_words (omega arith) (omega arith) u_pos
        (omega arith) user_room in
    rw (ram_bytes, in_map, pages, next, ok, ok')
      (
        _,
        refl,
        record {
          kernel = fresh.valid;
          user = fresh'.valid;
          apart = omega (arith, fresh.ends, fresh'.above);
        },
        fresh.clear,
        fresh'.clear,
        omega (arith, fresh'.ends),
      )
