-- ===== src/Palloc/Free.antt =====
-- `palloc_free_multiple` on valid pools, and after `palloc_get_multiple`.
use projectmod.Base.{
  ℕ, ◌+◌, ◌-◌, ◌*◌, ◌≤◌, ◌<◌, ◌^◌, ◌≡◌, refl, ◌≢◌, ◌⊎◌, inl, inr, Bool, true, false, ◌&&◌, Option,
  none, some, arith, ◌==◌, leb, ltb, if◌then◌else◌, ◌∙◌, sym, ap, subst,
}
use projectmod.Bitmap.Bits.{bit}
use projectmod.Bitmap.Range.{AllAre, set_multiple_lem}
use projectmod.Bitmap.Queries.{all_lem}
use projectmod.Palloc.{
  Pool, Pools, pool_of, has, pal_user, get_multiple, free_multiple, free_in, page_from_pool, memset,
  pg_no, pg_ofs, address,
}
use projectmod.Palloc.Fill.{in_block, memset_lem}
use projectmod.Palloc.Get.{
  IsValidPool, IsValid, pool_of-IsValidPool, Marks, put_map-Marks, Marks-IsValid, page_at, Given,
  Got, get_multiple_lem,
}

-- `page_from_pool` compares page numbers, which is the same as comparing addresses.
page_from_pool_lem :
    {p : Pool} (page : ℕ)
    → IsValidPool p
    → page_from_pool p page ≡ (leb p.base page && ltb page (p.base + 4096 * p.used_map.bit_cnt))
unfolding page_from_pool
page_from_pool_lem {p} page valid =
    let no_wrap : address (pg_no p.base + p.used_map.bit_cnt) ≡ pg_no p.base + p.used_map.bit_cnt =
      omega (arith, valid.fits, valid.aligned, valid.above_zero) in
    rw no_wrap (ground (arith, valid.fits, valid.aligned))

-- Pages that were freed: they were all marked, their marks are off, and their bytes are 0xcc.
pub record Freed (user : Bool) (cnt idx pages : ℕ) (s s' : Pools) : Type 0 where
  pub used : AllAre (pool_of user s).used_map idx cnt true
  pub marks : Marks user idx cnt false s s'
  pub valid : IsValid s'
  pub bytes : (a : ℕ) → s'.memory a ≡ (if in_block pages (4096 * cnt) a then 204 else s.memory a)

abbrev pub Frees : Bool → ℕ → ℕ → ℕ → Pools → Option Pools → Type 0
Frees user cnt idx pages s r =
    ((s' : Pools) × (r ≡ some s') × Freed user cnt idx pages s s')
    ⊎ ((r ≡ none)
        × ((j : ℕ) × (idx ≤ j) × (j < idx + cnt) × (bit (pool_of user s).used_map j ≡ false)))

module _ {s : Pools} (valid : IsValid s) (user : Bool) (idx cnt : ℕ)
    (inside : idx + cnt ≤ (pool_of user s).used_map.bit_cnt) where
  free_in_lem : Frees user cnt idx (page_at user s idx) s (free_in user (page_at user s idx) cnt s)
  unfolding free_in
  free_in_lem =
      let pool = pool_of-IsValidPool {s = s} user valid in
      let pages = page_at user s idx in
      let index : pg_no pages - pg_no (pool_of user s).base ≡ idx = omega arith in
      let ends : pages + 4096 * cnt ≤ 2 ^ 32 = omega (arith, pool.fits) in
      rw index (elim (all_lem pool.map idx cnt inside) [
        | inr (e, found) ↦ rw e (inr (refl, found))
        | inl (e, used) ↦
            let (m, ok, cleared) = set_multiple_lem pool.map idx cnt inside false in
            let marks =
              put_map-Marks {s = s} user idx cnt false (memset (4096 * cnt) pages 204 s.memory)
                cleared in
            rw (e, ok)
              (inl (
                _,
                refl,
                record {
                  used = used;
                  marks = marks;
                  valid = Marks-IsValid user valid marks;
                  bytes = λ a. memset_lem (4096 * cnt) pages 204 s.memory a ends;
                },
              ))
      ])

-- Which pool `palloc_free_multiple` finds.
find_pool :
    {s : Pools} (user : Bool) (idx cnt : ℕ)
    → IsValid s
    → 0 < cnt
    → idx + cnt ≤ (pool_of user s).used_map.bit_cnt
    → free_multiple (page_at user s idx) cnt s ≡ free_in user (page_at user s idx) cnt s
unfolding free_multiple
find_pool {s} user idx cnt valid pos inside =
    let pool = pool_of-IsValidPool {s = s} user valid in
    let aligned : (pg_ofs (page_at user s idx) == 0) ≡ true = ground (arith, pool.aligned) in
    let not_null : (page_at user s idx == 0) ≡ false = ground (arith, pool.above_zero) in
    let some_pages : (cnt == 0) ≡ false = ground (arith, pos) in
    rw (aligned, not_null, some_pages) (go user valid inside)
  where
    go :
        (user : Bool)
        → IsValid s
        → idx + cnt ≤ (pool_of user s).used_map.bit_cnt
        → (if page_from_pool s.kernel (page_at user s idx)
            then free_in false (page_at user s idx) cnt s
            else if page_from_pool s.user (page_at user s idx)
            then free_in true (page_at user s idx) cnt s
            else none)
          ≡ free_in user (page_at user s idx) cnt s
    go false v h =
        let found : page_from_pool s.kernel (page_at false s idx) ≡ true =
          page_from_pool_lem (page_at false s idx) v.kernel ∙ ground (arith, h, pos) in
        rw found refl
    go true v h =
        let missed : page_from_pool s.kernel (page_at true s idx) ≡ false =
          page_from_pool_lem (page_at true s idx) v.kernel ∙ ground (arith, h, pos, v.apart) in
        let found : page_from_pool s.user (page_at true s idx) ≡ true =
          page_from_pool_lem (page_at true s idx) v.user ∙ ground (arith, h, pos) in
        rw (missed, found) refl

-- Freeing a run of pages within a pool of valid pools: if all of them were marked, their marks go off,
-- their bytes become 0xcc and nothing else changes; if one was free, the kernel panics.
pub free_multiple_lem :
    {s : Pools} (user : Bool) (idx cnt : ℕ)
    → IsValid s
    → 0 < cnt
    → idx + cnt ≤ (pool_of user s).used_map.bit_cnt
    → Frees user cnt idx (page_at user s idx) s (free_multiple (page_at user s idx) cnt s)
free_multiple_lem {s} user idx cnt valid pos inside =
    rw (find_pool user idx cnt valid pos inside) (free_in_lem valid user idx cnt inside)

-- Two states mark the same pages.
pub record SameUse (s s' : Pools) : Type 0 where
  pub valid : IsValid s'
  pub kernel : (i : ℕ) → bit s'.kernel.used_map i ≡ bit s.kernel.used_map i
  pub user : (i : ℕ) → bit s'.user.used_map i ≡ bit s.user.used_map i

undo-SameUse :
    {s t s' : Pools} (user : Bool) (idx cnt : ℕ)
    → AllAre (pool_of user s).used_map idx cnt false
    → Marks user idx cnt true s t
    → Marks user idx cnt false t s'
    → IsValid s'
    → SameUse s s'
undo-SameUse true idx cnt free on off valid = record {
  valid = valid;
  kernel = λ i. rw (off.other, on.other) refl;
  user = λ i. rw (off.sets.bits i, on.sets.bits i) (ground (arith, free i));
}
undo-SameUse false idx cnt free on off valid = record {
  valid = valid;
  user = λ i. rw (off.other, on.other) refl;
  kernel = λ i. rw (off.sets.bits i, on.sets.bits i) (ground (arith, free i));
}

-- What a successful request has returned.
given_by :
    (flags cnt pages : ℕ) {s s' : Pools}
    → pages ≢ 0
    → Got flags cnt s (some (pages, s'))
    → (idx : ℕ) × Given flags cnt idx pages s s'
given_by flags cnt pages {s} {s'} ne (inl (idx, p, t, e, g)) =
    let same_pages : p ≡ pages = cc in
    let same_state : t ≡ s' = cc in
    (
      idx,
      subst (λ k. Given flags cnt idx k s s') same_pages
          (subst (λ u. Given flags cnt idx p s u) same_state g),
    )
given_by flags cnt pages ne (inr (no_fit, e)) = absurd (ground (arith, e, ne))

-- Pages, one or more, that `palloc_get_multiple` gave from valid pools can be freed at once; afterwards the same pages are marked as
-- before the request, and the pools are valid.
pub free-get :
    (flags cnt pages : ℕ) {s s' : Pools}
    → IsValid s
    → 0 < cnt
    → get_multiple flags cnt s ≡ some (pages, s')
    → pages ≢ 0
    → (s'' : Pools) × (free_multiple pages cnt s' ≡ some s'') × SameUse s s''
free-get flags cnt pages {s} {s'} valid pos e ne =
    let user = has flags pal_user in
    let (idx, g) =
      given_by flags cnt pages ne
        (subst (Got flags cnt s) e (get_multiple_lem flags cnt valid pos)) in
    let place : pages ≡ page_at user s' idx =
      g.place ∙ ap (λ b. b + 4096 * idx) (sym g.marks.base) in
    elim (free_multiple_lem {s = s'} user idx cnt g.valid pos
      (omega (arith, g.first_fit.within, g.marks.sets.size))) [
        | inl (s'', ok, f) ↦
            (s'', rw place ok, undo-SameUse user idx cnt g.first_fit.group g.marks f.marks f.valid)
        | inr (none_e, (j, p, q, free)) ↦ absurd (ground (arith, g.marks.sets.bits j, p, q, free))
      ]
