-- ===== src/FreeMap/Laws.antt =====
-- Allocation and release of sectors, sector by sector.
use projectmod.Base.{
  ℕ, zero, suc, ◌%◌, get_elem?, ap, ◌+◌, ◌^◌, ◌≤◌, ◌<◌, ◌≡◌, refl, ◌⊎◌, inl, inr, Bool, true, false,
  not, ◌&&◌, Option, none, some, List, arith, Bool-cases, ◌∙◌, ne→==, length, ltb, subst,
}
use projectmod.Bitmap.{Bitmap, bitmap_error, elem_cnt}
use projectmod.Bitmap.Bits.{bit, IsValid, mark_lem}
use projectmod.Bitmap.Range.{AllAre, SetsRange, set_multiple_lem}
use projectmod.Bitmap.Queries.{all_lem, create_lem}
use projectmod.Bitmap.Scan.{FirstFit, NoFit, flipped_lem}
use projectmod.FreeMap.{FreeMap, init, allocate, release, removed}

-- Sector `i` is in use.
abbrev pub in_use : FreeMap → ℕ → Bool
in_use s i = bit s.map i

-- Two maps of one device mark the same sectors.
pub record SameUse (s s' : FreeMap) : Type 0 where
  pub size : s'.map.bit_cnt ≡ s.map.bit_cnt
  pub valid : IsValid s'.map
  pub use_of : (i : ℕ) → in_use s' i ≡ in_use s i

-- `cnt` free sectors from `sector` on, the first such run, were taken, and nothing else changed.
pub record Allocated (cnt sector : ℕ) (s s' : FreeMap) : Type 0 where
  pub first_fit : FirstFit s.map 0 cnt false sector
  pub taken : SetsRange s.map sector cnt true s'.map
  pub file : s'.file_open ≡ s.file_open

-- The outcomes of an allocation.
abbrev pub Outcome : ℕ → Bool → FreeMap → Option (Option ℕ × FreeMap) → Type 0
Outcome cnt written s r =
    ((sector : ℕ) × (s' : FreeMap) × (r ≡ some (some sector, s')) × Allocated cnt sector s s')
    ⊎ ((s' : FreeMap) × (r ≡ some (none, s'))
        × SameUse s s'
        × (NoFit s.map 0 cnt false ⊎ ((s.file_open && not written) ≡ true)))

-- Clearing what a scan has set gives back the map.
undo :
    {s s' : FreeMap} (sector cnt : ℕ) {m : Bitmap}
    → AllAre s.map sector cnt false
    → SetsRange s.map sector cnt true m
    → SetsRange m sector cnt false s'.map
    → SameUse s s'
undo sector cnt free taken cleared = record {
  size = cleared.size ∙ taken.size;
  valid = cleared.valid;
  use_of = λ i. rw (cleared.bits i, taken.bits i) (ground (arith, free i));
}

-- An allocation on a valid map returns. Either it takes the first run of free sectors and
-- nothing else changes, or it fails and no sector changes hands; it fails only if there is no such
-- run or the map could not be written to its open file.
pub allocate_lem :
    (cnt : ℕ) (written : Bool) {s : FreeMap}
    → IsValid s.map
    → Outcome cnt written s (allocate cnt written s)
unfolding allocate
allocate_lem cnt written {s} valid = elim (flipped_lem valid 0 cnt false (omega arith)) [
  | inl (i, m, e, ne, fit, sets) ↦
      rw (e, ne→== i bitmap_error ne)
        (elim (Bool-cases (s.file_open && not written)) [
          | inl failed ↦
              let (m', ok, cleared) =
                set_multiple_lem sets.valid i cnt (omega (arith, fit.within, sets.size)) false in
              rw (failed, ok)
                (inr (record s { map = m' }, refl, undo i cnt fit.group sets cleared, inr refl))
          | inr fine ↦ rw fine (
              inl (
                i,
                record s { map = m },
                refl,
                record { first_fit = fit; taken = sets; file = refl },
              ))
        ])
  | inr (e, no_fit) ↦ rw e (
      inr (
        record s { map = s.map },
        refl,
        record { size = refl; valid = valid; use_of = λ i. refl },
        inl no_fit,
      ))
]

-- The outcomes of a release.
abbrev pub Released : ℕ → ℕ → FreeMap → Option (List ℕ × FreeMap) → Type 0
Released sector cnt s r =
    (AllAre s.map sector cnt true
      × ((s' : FreeMap) × (r ≡ some (removed sector cnt, s'))
          × SetsRange s.map sector cnt false s'.map
          × (s'.file_open ≡ s.file_open)))
    ⊎ ((r ≡ none) × ((j : ℕ) × (sector ≤ j) × (j < sector + cnt) × (in_use s j ≡ false)))

-- With the map valid and its file open, a release of a run of sectors within the map frees exactly those sectors and drops each from the
-- buffer cache, if all of them were in use; if one was not, it stops at its ASSERT.
pub release_lem :
    (sector cnt : ℕ) {s : FreeMap}
    → IsValid s.map
    → s.file_open ≡ true
    → sector + cnt ≤ s.map.bit_cnt
    → Released sector cnt s (release sector cnt s)
unfolding release
release_lem sector cnt {s} valid is_open h = elim (all_lem valid sector cnt h) [
  | inl (e, used) ↦
      let (m, ok, cleared) = set_multiple_lem valid sector cnt h false in
      inl (used, (record s { map = m }, rw (e, ok, is_open), cleared, refl))
  | inr (e, found) ↦ inr (rw e, found)
]

pub allocated :
    {cnt sector : ℕ} (written : Bool) {s s' : FreeMap}
    → Outcome cnt written s (some (some sector, s'))
    → Allocated cnt sector s s'
allocated {cnt} {sector} written {s} {s'} (inl (i, t, e, a)) =
    let same_sector : i ≡ sector = cc in
    let same_state : t ≡ s' = cc in
    subst (λ k. Allocated cnt k s s') same_sector (subst (λ u. Allocated cnt i s u) same_state a)
allocated written (inr (t, e, same, why)) = cc

-- The bits of a range that was set.
all_set : {b b' : Bitmap} (start cnt : ℕ) → SetsRange b start cnt true b' → AllAre b' start cnt true
all_set start cnt sets = λ j p q. rw (sets.bits j) (ground arith)

length-removed : (sector cnt : ℕ) → length (removed sector cnt) ≡ cnt
unfolding removed
length-removed sector zero = refl
length-removed sector (suc cnt) = ap suc (length-removed ((sector + 1) % 2 ^ 32) cnt)

-- Where the numbers do not wrap, the sectors that are dropped are those of the run, in order.
removed_lem :
    (cnt sector j : ℕ)
    → sector + cnt < 2 ^ 32
    → j < cnt
    → get_elem? (removed sector cnt) j ≡ some (sector + j)
unfolding removed
removed_lem zero sector j h k = absurd (omega arith)
removed_lem (suc cnt) sector zero h k = ap some (omega arith)
removed_lem (suc cnt) sector (suc j) h k =
    let next : (sector + 1) % 2 ^ 32 ≡ sector + 1 = omega arith in
    rw next (removed_lem cnt (sector + 1) j (omega arith) (omega arith) ∙ ap some (omega arith))

-- With the map valid and its file open, releasing what was just allocated returns, drops
-- each of those sectors, in order, from the buffer cache, and marks the same sectors in use as before the allocation.
pub release-allocate :
    (cnt sector : ℕ) {s s' : FreeMap}
    → IsValid s.map
    → s.file_open ≡ true
    → allocate cnt true s ≡ some (some sector, s')
    → (dropped : List ℕ) × (s'' : FreeMap) × (release sector cnt s' ≡ some (dropped, s''))
      × (length dropped ≡ cnt)
      × ((j : ℕ) → j < cnt → get_elem? dropped j ≡ some (sector + j))
      × SameUse s s''
release-allocate cnt sector {s} {s'} valid is_open e =
    let a : Allocated cnt sector s s' =
      allocated true (subst (Outcome cnt true s) e (allocate_lem cnt true valid)) in
    let fit = a.first_fit in
    let sets = a.taken in
    elim (release_lem sector cnt {s = s'} sets.valid (a.file ∙ is_open)
      (omega (arith, fit.within, sets.size))) [
        | inl (used, (s'', ok, cleared, file)) ↦ (
          removed sector cnt,
          s'',
          ok,
          length-removed sector cnt,
          λ j. removed_lem cnt sector j (omega (arith, fit.within, valid.fits)),
          undo sector cnt fit.group sets cleared,
        )
        | inr (e', (j, p, q, free)) ↦
            let set_j = all_set sector cnt sets j p q in absurd (ground (arith, set_j, free))
      ]

-- The map that `free_map_init` makes, on a device of at least two sectors whose number does not
-- wrap, when memory is there: the sectors of the free map and of the
-- root directory are in use and every other one is free.
pub init_lem :
    (bits : List ℕ) (size : ℕ)
    → length bits ≡ elem_cnt size
    → size + 31 < 2 ^ 32
    → 2 ≤ size
    → (s : FreeMap) × (init true (some bits) size ≡ some s)
      × IsValid s.map
      × (s.map.bit_cnt ≡ size)
      × ((i : ℕ) → i < size → in_use s i ≡ ltb i 2)
unfolding init
init_lem bits size room fits two =
    let (b, ok, valid, count, clear) = create_lem bits size room fits in
    let (b', ok', one) = mark_lem valid 0 (omega (arith, count)) in
    let (b'', ok'', two') = mark_lem one.valid 1 (omega (arith, count, one.size)) in
    (
      record { map = b''; file_open = false },
      rw (ok, ok', ok''),
      two'.valid,
      two'.size ∙ one.size ∙ count,
      λ i h. rw (two'.bits i, one.bits i, clear i h) (ground arith),
    )
