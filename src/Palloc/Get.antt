-- ===== src/Palloc/Get.antt =====
-- `palloc_get_multiple` on valid pools.
use projectmod.Base.{
  ℕ, ◌+◌, ◌*◌, ◌%◌, ◌≤◌, ◌<◌, ◌^◌, ◌≡◌, refl, ◌⊎◌, inl, inr, Bool, true, false, not, ◌&&◌, Option,
  none, some, arith, ◌==◌, ne→==, if◌then◌else◌, Bool-cases,
}
use projectmod.Bitmap.{Bitmap, bitmap_error}
use projectmod.Bitmap.Bits.{IsValid as IsValidMap}
use projectmod.Bitmap.Range.{SetsRange}
use projectmod.Bitmap.Scan.{FirstFit, NoFit, flipped_lem}
use projectmod.Palloc.{
  Pool, Pools, pool_of, put_map, has, pal_assert, pal_zero, pal_user, get_multiple, address,
}
use projectmod.Palloc.Fill.{in_block, memset_lem}

-- A pool stands at the start of a page, not the first, and ends in the address space.
pub record IsValidPool (p : Pool) : Type 0 where
  pub map : IsValidMap p.used_map
  pub aligned : p.base % 4096 ≡ 0
  pub above_zero : 0 < p.base
  pub fits : p.base + 4096 * p.used_map.bit_cnt ≤ 2 ^ 32

-- The user pool begins where the kernel pool has ended.
pub record IsValid (s : Pools) : Type 0 where
  pub kernel : IsValidPool s.kernel
  pub user : IsValidPool s.user
  pub apart : s.kernel.base + 4096 * s.kernel.used_map.bit_cnt ≤ s.user.base

pub pool_of-IsValidPool : {s : Pools} (user : Bool) → IsValid s → IsValidPool (pool_of user s)
pool_of-IsValidPool true valid = valid.user
pool_of-IsValidPool false valid = valid.kernel

-- The pools after `cnt` pages from index `idx` on of one of them were marked.
pub record Marks (user : Bool) (idx cnt : ℕ) (v : Bool) (s s' : Pools) : Type 0 where
  pub sets : SetsRange (pool_of user s).used_map idx cnt v (pool_of user s').used_map
  pub base : (pool_of user s').base ≡ (pool_of user s).base
  pub other : pool_of (not user) s' ≡ pool_of (not user) s

pub put_map-Marks :
    {s : Pools} (user : Bool) (idx cnt : ℕ) (v : Bool) {m : Bitmap} (memory : ℕ → ℕ)
    → SetsRange (pool_of user s).used_map idx cnt v m
    → Marks user idx cnt v s (record (put_map user m s) { memory = memory })
put_map-Marks true idx cnt v memory sets = record { sets = sets; base = refl; other = refl }
put_map-Marks false idx cnt v memory sets = record { sets = sets; base = refl; other = refl }

-- A pool with as many pages at the same place is as valid.
moved-IsValidPool :
    {p q : Pool}
    → IsValidPool p
    → IsValidMap q.used_map
    → q.used_map.bit_cnt ≡ p.used_map.bit_cnt
    → q.base ≡ p.base
    → IsValidPool q
moved-IsValidPool {p} {q} valid map cnt base = record {
  map = map;
  aligned = rw base valid.aligned;
  above_zero = rw base valid.above_zero;
  fits = rw (base, cnt) valid.fits;
}

pub Marks-IsValid :
    {s s' : Pools} (user : Bool) {idx cnt : ℕ} {v : Bool}
    → IsValid s
    → Marks user idx cnt v s s'
    → IsValid s'
Marks-IsValid true valid marks = record {
  kernel = rw marks.other valid.kernel;
  user = moved-IsValidPool valid.user marks.sets.valid marks.sets.size marks.base;
  apart = rw (marks.other, marks.base) valid.apart;
}
Marks-IsValid false valid marks = record {
  kernel = moved-IsValidPool valid.kernel marks.sets.valid marks.sets.size marks.base;
  user = rw marks.other valid.user;
  apart = rw (marks.other, marks.base, marks.sets.size) valid.apart;
}

-- The address of page `idx` of a pool.
abbrev pub page_at : Bool → Pools → ℕ → ℕ
page_at user s idx = (pool_of user s).base + 4096 * idx

-- Pages that were given: the first run of free ones of the pool, now marked; they are zeroed if the
-- flag says so, and no other byte of the memory changes.
pub record Given (flags cnt idx pages : ℕ) (s s' : Pools) : Type 0 where
  pub first_fit : FirstFit (pool_of (has flags pal_user) s).used_map 0 cnt false idx
  pub marks : Marks (has flags pal_user) idx cnt true s s'
  pub valid : IsValid s'
  pub place : pages ≡ page_at (has flags pal_user) s idx
  pub bytes :
      (a : ℕ)
      → s'.memory a
        ≡ (if has flags pal_zero && in_block pages (4096 * cnt) a then 0 else s.memory a)

-- What a request returns: pages, or, if there is no such run, nothing, which is a PANIC with the flag.
abbrev pub Got : ℕ → ℕ → Pools → Option (ℕ × Pools) → Type 0
Got flags cnt s r =
    ((idx : ℕ) × (pages : ℕ) × (s' : Pools) × (r ≡ some (pages, s'))
      × Given flags cnt idx pages s s')
    ⊎ (NoFit (pool_of (has flags pal_user) s).used_map 0 cnt false
        × (r ≡ (if has flags pal_assert then none else some (0, s))))

put_map_same : (user : Bool) (s : Pools) → put_map user (pool_of user s).used_map s ≡ s
put_map_same true s = refl
put_map_same false s = refl

put_map-memory : (user : Bool) (m : Bitmap) (s : Pools) → (put_map user m s).memory ≡ s.memory
put_map-memory true m s = refl
put_map-memory false m s = refl

-- The pages of a run that was found.
module _ {s : Pools} (flags cnt : ℕ) (valid : IsValid s) (pos : 0 < cnt) (idx : ℕ) (m : Bitmap)
    (fit : FirstFit (pool_of (has flags pal_user) s).used_map 0 cnt false idx)
    (sets : SetsRange (pool_of (has flags pal_user) s).used_map idx cnt true m) where
  given :
      (memory : ℕ → ℕ)
      → ((a : ℕ)
          → memory a ≡ (
              if has flags pal_zero && in_block (page_at (has flags pal_user) s idx) (4096 * cnt) a
              then 0
              else s.memory a))
      → Given flags cnt idx
          (page_at (has flags pal_user) s idx)
          s
          (record (put_map (has flags pal_user) m s) { memory = memory })
  given memory bytes =
      let marks = put_map-Marks {s = s} (has flags pal_user) idx cnt true memory sets in
      record {
        first_fit = fit;
        marks = marks;
        valid = Marks-IsValid (has flags pal_user) valid marks;
        place = refl;
        bytes = bytes;
      }

-- A request of pages from valid pools, not for zero pages: it gives the first run of free pages of the
-- pool that the flags name, zeroed if they say so, and changes nothing else; if there is none it
-- returns a null pointer and changes nothing, or panics if the flags say so.
pub get_multiple_lem :
    (flags cnt : ℕ) {s : Pools} → IsValid s → 0 < cnt → Got flags cnt s (get_multiple flags cnt s)
unfolding get_multiple
get_multiple_lem flags cnt {s} valid pos =
    let user = has flags pal_user in
    let pool = pool_of-IsValidPool {s = s} user valid in
    let some_pages : (cnt == 0) ≡ false = ground (arith, pos) in
    elim (flipped_lem pool.map 0 cnt false (omega arith)) [
      | inr (e, no_fit) ↦ rw (some_pages, e) (inr (no_fit, rw (put_map_same user s) (ground arith)))
      | inl (i, m, e, ne, fit, sets) ↦
          let pages = page_at user s i in
          let no_wrap : address pages ≡ pages = omega (arith, pool.fits, fit.within, pos) in
          let not_null : (pages == 0) ≡ false = ground (arith, pool.above_zero) in
          let ends : pages + 4096 * cnt ≤ 2 ^ 32 = omega (arith, pool.fits, fit.within) in
          rw (some_pages, e, ne→== i bitmap_error ne, no_wrap, not_null)
            (elim (Bool-cases (has flags pal_zero)) [
              | inl zeros ↦ rw zeros (
                  inl (
                    i,
                    pages,
                    _,
                    refl,
                    given flags cnt valid pos i m fit sets _ (λ a.
                        rw (zeros, put_map-memory user m s)
                          (memset_lem (4096 * cnt) pages 0 s.memory a ends)),
                  ))
              | inr plain ↦ rw plain (
                  inl (
                    i,
                    pages,
                    _,
                    refl,
                    given flags cnt valid pos i m fit sets _
                        (λ a. rw (plain, put_map-memory user m s) refl),
                  ))
            ])
    ]
