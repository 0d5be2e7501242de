-- ===== src/Cache/Flush.antt =====
-- `bc_flush_all`, and `bc_remove` followed by the daemon's flush.
use projectmod.Base.{
  ℕ, zero, suc, ◌+◌, ◌≤◌, ◌<◌, ◌≡◌, refl, ◌≢◌, ◌⊎◌, inl, inr, true, false, not, ◌&&◌, Option, none,
  some, List, arith, ◌==◌, ltb, if◌then◌else◌, Bool-cases, ◌∙◌, sym,
}
use native.Mathlib.Decide.{ℕ_discrete}
use projectmod.Cache.{
  Entry, Cache, empty_sector, check_sector, block_write, flush, flush_loop, flush_all, daemon_loop,
  daemon_flush, remove,
}
use projectmod.Cache.View.{IsValid, view, Shows, Shows-view, view-Shows, get_entry_by_sector_lem}
use projectmod.Cache.Agree.{Agrees, Agrees-refl, Agrees-trans, flush_lem}

-- Entry `j` needs no flush.
abbrev IsFlushed : Entry → Type 0
IsFlushed e = (e.sector ≡ empty_sector) ⊎ (e.is_dirty ≡ false)

-- From entry `i` on, all are flushed, and those that were stay so.
abbrev HasFlushed : ℕ → Cache → Option Cache → Type 0
HasFlushed i c r =
    (c' : Cache) × (r ≡ some c')
    × Agrees c c'
    × ((j : ℕ) → i ≤ j → j < 64 → IsFlushed (c'.entries j))
    × ((j : ℕ) → IsFlushed (c.entries j) → IsFlushed (c'.entries j))

-- One entry.
flush_if :
    {c : Cache} (i : ℕ)
    → IsValid c
    → i < 64
    → (c' : Cache) × ((if not ((c.entries i).sector == empty_sector) && (c.entries i).is_dirty
          then flush i c
          else some c)
        ≡ some c')
      × Agrees c c'
      × IsFlushed (c'.entries i)
      × ((j : ℕ) → IsFlushed (c.entries j) → IsFlushed (c'.entries j))
flush_if {c} i valid h = elim (Bool-cases ((c.entries i).sector == empty_sector)) [
  | inl empty ↦ rw empty (c, refl, Agrees-refl valid, inl (ground (arith, empty)), λ j p. p)
  | inr full ↦ elim (Bool-cases (c.entries i).is_dirty) [
    | inr is_clean ↦ rw (full, is_clean) (c, refl, Agrees-refl valid, inr is_clean, λ j p. p)
    | inl dirty ↦
        let (c', ok, agrees, is_clean, others) = flush_lem valid i h (ground (arith, full)) in
        rw (full, dirty)
          (
            c',
            ok,
            agrees,
            inr is_clean,
            λ j p. elim p [ inl empty ↦ inl (agrees.sectors j ∙ empty) | inr q ↦ inr (others j q) ],
          )
  ]
]

flush_loop_lem : (n i : ℕ) {c : Cache} → IsValid c → n + i ≡ 64 → HasFlushed i c (flush_loop n i c)
unfolding flush_loop
flush_loop_lem zero i {c} valid h =
    (c, refl, Agrees-refl valid, λ j p q. absurd (omega arith), λ j p. p)
flush_loop_lem (suc n) i {c} valid h =
    let (c1, ok1, agrees1, now, kept1) = flush_if i valid (omega arith) in
    let (c2, ok2, agrees2, rest, kept2) = flush_loop_lem n (i + 1) agrees1.valid (omega arith) in
    rw (ok1, flush_loop)
      (
        c2,
        ok2,
        Agrees-trans agrees1 agrees2,
        λ j p q. elim (ℕ_discrete j i) [
          | yes same ↦ rw same (kept2 i now)
          | no ne ↦ rest j (omega arith) q
        ],
        λ j p. kept2 j (kept1 j p),
      )

-- Where nothing is dirty, the device has what the cache shows.
flushed_device :
    {c : Cache} (s : ℕ) (x : List ℕ)
    → IsValid c
    → s ≢ empty_sector
    → ((j : ℕ) → j < 64 → IsFlushed (c.entries j))
    → Shows c s x
    → c.device.sectors s ≡ x
flushed_device {c} s x valid ne clean shows = elim (get_entry_by_sector_lem s c.entries) [
  | inr (e, away) ↦ shows.stored (λ i p. away i (omega arith) p)
  | inl (j, e, p, q, at) ↦ elim (clean j q) [
    | inl empty ↦ absurd (ne (sym at ∙ empty))
    | inr d ↦
        let bytes = rw at at (valid.clean j q (λ z. ne (sym at ∙ z)) d) in
        sym bytes ∙ shows.cached j q at
  ]
]

-- `bc_flush_all` succeeds on a valid cache; afterwards the device itself has what the cache showed in
-- each sector before, the cache still shows it, and it is valid.
pub flush_all_lem :
    {c : Cache}
    → IsValid c
    → (c' : Cache) × (flush_all c ≡ some c')
      × IsValid c'
      × ((s : ℕ) → s < c.device.size → c'.device.sectors s ≡ view c s)
      × ((s : ℕ) → s < c.device.size → view c' s ≡ view c s)
unfolding flush_all
flush_all_lem {c} valid =
    let (c', ok, agrees, clean, kept) = flush_loop_lem 64 0 valid refl in
    let in_range : (s : ℕ) → s < c.device.size → s ≢ empty_sector =
      λ s p e. omega (arith, valid.size, p, e) in
    let shows : (s : ℕ) → s < c.device.size → Shows c' s (view c s) =
      λ s p. agrees.shows s (view c s) (in_range s p) (Shows-view s valid (in_range s p)) in
    (
      c',
      ok,
      agrees.valid,
      λ s p.
          flushed_device s (view c s) agrees.valid (in_range s p) (λ j q. clean j (omega arith) q)
            (shows s p),
      λ s p. view-Shows s (view c s) (shows s p),
    )

-- A dirty entry without a sector makes the daemon's flush fail.
daemon_loop_lem :
    (n i j : ℕ) (c : Cache)
    → i ≤ j
    → j < i + n
    → (c.entries j).is_dirty ≡ true
    → (c.entries j).sector ≡ empty_sector
    → c.device.size ≤ empty_sector
    → daemon_loop n i c ≡ none
unfolding daemon_loop flush block_write check_sector
daemon_loop_lem zero i j c p q dirty empty size = absurd (omega arith)
daemon_loop_lem (suc n) i j c p q dirty empty size = elim (ℕ_discrete i j) [
  | yes same ↦
      let out : ltb (c.entries j).sector c.device.size ≡ false = ground (arith, empty, size) in
      rw (same, dirty, daemon_loop) (rw out refl)
  | no ne ↦ elim (Bool-cases (c.entries i).is_dirty) [
    | inr is_clean ↦
        rw (is_clean, daemon_loop)
          (daemon_loop_lem n (i + 1) j c (omega arith) (omega arith) dirty empty size)
    | inl d ↦ elim (Bool-cases (ltb (c.entries i).sector c.device.size)) [
      | inr out ↦ rw (d, daemon_loop) (rw out refl)
      | inl inside ↦
          rw (d, daemon_loop)
            (rw (inside, daemon_loop)
              (daemon_loop_lem n (i + 1) j _ (omega arith) (omega arith) (ground (arith, ne, dirty))
                (ground (arith, ne, empty)) size))
    ]
  ]
]

-- In a valid cache, `bc_remove` of a sector whose entry is dirty leaves an entry that is dirty and empty: the daemon's
-- next flush writes to no sector of the device, and panics.
pub remove-daemon_flush :
    {c : Cache} (i : ℕ)
    → IsValid c
    → i < 64
    → (c.entries i).sector ≢ empty_sector
    → (c.entries i).is_dirty ≡ true
    → daemon_flush (remove (c.entries i).sector c) ≡ none
unfolding daemon_flush remove
remove-daemon_flush {c} i valid h ne dirty =
    elim (get_entry_by_sector_lem (c.entries i).sector c.entries) [
      | inr (e, away) ↦ absurd (away i (omega arith) h refl)
      | inl (j, e, p, q, at) ↦
          let one : j ≡ i = valid.unique j i q h at (λ z. ne (sym at ∙ z)) in
          rw (e, remove)
            (daemon_loop_lem 64 0 j _ (omega arith) (omega arith) (ground (arith, one, dirty))
              (ground arith) valid.size)
    ]
