-- ===== src/Cache/View.antt =====
-- What the file system sees through the cache: for each sector the bytes of its entry, or else those
-- of the device.
use projectmod.Base.{
  ℕ, zero, suc, ◌+◌, ◌≤◌, ◌<◌, ◌≡◌, refl, ◌≢◌, ◌⊎◌, inl, inr, false, Option, none, some, List,
  arith, ◌==◌, if◌then◌else◌, Bool-cases, ◌∙◌, sym, ap,
}
use native.Mathlib.Decide.{ℕ_discrete}
use projectmod.Cache.{Entry, Cache, empty_sector, find_from, get_entry_by_sector}

-- No sector has two entries; those that are cached are on the device, and a clean entry has its bytes.
pub record IsValid (c : Cache) : Type 0 where
  pub unique :
      (i j : ℕ)
      → i < 64
      → j < 64
      → (c.entries i).sector ≡ (c.entries j).sector
      → (c.entries i).sector ≢ empty_sector
      → i ≡ j
  pub inside :
      (i : ℕ) → i < 64 → (c.entries i).sector ≢ empty_sector → (c.entries i).sector < c.device.size
  pub clean :
      (i : ℕ)
      → i < 64
      → (c.entries i).sector ≢ empty_sector
      → (c.entries i).is_dirty ≡ false
      → (c.entries i).contents ≡ c.device.sectors (c.entries i).sector
  pub size : c.device.size ≤ empty_sector

unfoldable pub view : Cache → ℕ → List ℕ
view c s = elim (get_entry_by_sector s c.entries) [
  | some i ↦ (c.entries i).contents
  | none ↦ c.device.sectors s
]

-- The outcome of the search for a sector.
abbrev pub Sought : ℕ → ℕ → ℕ → (ℕ → Entry) → Option ℕ → Type 0
Sought n i s f r =
    ((j : ℕ) × (r ≡ some j) × (i ≤ j) × (j < i + n) × ((f j).sector ≡ s))
    ⊎ ((r ≡ none) × ((j : ℕ) → i ≤ j → j < i + n → (f j).sector ≢ s))

find_from_lem : (n i s : ℕ) (f : ℕ → Entry) → Sought n i s f (find_from n i s f)
unfolding find_from
find_from_lem zero i s f = inr (refl, λ j p q. absurd (omega arith))
find_from_lem (suc n) i s f = elim (Bool-cases ((f i).sector == s)) [
  | inl hit ↦ rw hit (inl (i, refl, omega arith, omega arith, ground (arith, hit)))
  | inr miss ↦ rw miss (elim (find_from_lem n (i + 1) s f) [
    | inl (j, e, p, q, at) ↦ inl (j, e, omega arith, omega arith, at)
    | inr (e, away) ↦ inr (
      e,
      λ j p q. elim (ℕ_discrete j i) [
        | yes same ↦ rw same (ground (arith, miss))
        | no ne ↦ away j (omega arith) (omega arith)
      ],
    )
  ])
]

pub get_entry_by_sector_lem : (s : ℕ) (f : ℕ → Entry) → Sought 64 0 s f (get_entry_by_sector s f)
unfolding get_entry_by_sector
get_entry_by_sector_lem s f = find_from_lem 64 0 s f

-- Sector `s` reads as `x`: in each entry that has it, and on the device if none has.
pub record Shows (c : Cache) (s : ℕ) (x : List ℕ) : Type 0 where
  pub cached : (i : ℕ) → i < 64 → (c.entries i).sector ≡ s → (c.entries i).contents ≡ x
  pub stored : ((i : ℕ) → i < 64 → (c.entries i).sector ≢ s) → c.device.sectors s ≡ x

pub Shows-view : {c : Cache} (s : ℕ) → IsValid c → s ≢ empty_sector → Shows c s (view c s)
unfolding view
Shows-view {c} s valid ne = elim (get_entry_by_sector_lem s c.entries) [
  | inl (j, e, p, q, at) ↦
      rw (e, view)
        (record {
          cached = λ i h same.
              let one : i ≡ j = valid.unique i j h q (same ∙ sym at) (ground (arith, same, ne)) in
              ap (λ k. (c.entries k).contents) one;
          stored = λ away. absurd (away j q at);
        })
  | inr (e, away) ↦
      rw (e, view)
        (record {
          cached = λ i h same. absurd (away i (omega arith) h same);
          stored = λ none_has. refl;
        })
]

pub view-Shows : {c : Cache} (s : ℕ) (x : List ℕ) → Shows c s x → view c s ≡ x
unfolding view
view-Shows {c} s x shows = elim (get_entry_by_sector_lem s c.entries) [
  | inl (j, e, p, q, at) ↦ rw (e, view) (shows.cached j q at)
  | inr (e, away) ↦ rw (e, view) (shows.stored (λ i h. away i (omega arith) h))
]

-- Entry `i` of a valid cache, if it is the one of the sector of `e` or can be given up, is replaced
-- by `e`.
module _ {c : Cache} (valid : IsValid c) (i : ℕ) (e : Entry) (g : ℕ → Entry) (i_lt : i < 64)
    (at : (j : ℕ) → g j ≡ (if j == i then e else c.entries j))
    (in_device : e.sector < c.device.size)
    (only : (j : ℕ) → j < 64 → (c.entries j).sector ≡ e.sector → j ≡ i)
    (clean : e.is_dirty ≡ false → e.contents ≡ c.device.sectors e.sector)
    (old : ((c.entries i).sector ≡ e.sector)
      ⊎ (((c.entries i).sector ≡ empty_sector) ⊎ ((c.entries i).is_dirty ≡ false))) where
  abbrev after : Cache
  after = record { entries = g; device = c.device }

  pub put-IsValid : IsValid after
  put-IsValid = record {
    unique =
        λ j k p q same ne. ground (arith, at j, at k, valid.unique j k, only j, only k, same, ne);
    inside = λ j p ne. ground (arith, at j, valid.inside j, in_device, ne);
    clean = λ j p ne d. ground (arith, at j, valid.clean j, clean, ne, d);
    size = valid.size;
  }

  pub put-Shows_self : Shows after e.sector e.contents
  put-Shows_self = record {
    cached = λ j p same. ground (arith, at j, only j, same);
    stored = λ away. absurd (away i i_lt (ground (arith, at i)));
  }

  -- What the device has for the old sector of entry `i`, if that is not empty.
  on_device :
      (s : ℕ) (x : List ℕ)
      → s ≢ empty_sector
      → s ≢ e.sector
      → Shows c s x
      → (c.entries i).sector ≡ s
      → c.device.sectors s ≡ x
  on_device s x ne other shows here = elim old [
    | inl same ↦ absurd (other (sym here ∙ same))
    | inr (inl empty) ↦ absurd (ne (sym here ∙ empty))
    | inr (inr is_clean) ↦
        let left = λ (q : (c.entries i).sector ≡ empty_sector). ne (sym here ∙ q) in
        let bytes = rw here at (valid.clean i i_lt left is_clean) in
        sym bytes ∙ shows.cached i i_lt here
  ]

  pub put-Shows :
      (s : ℕ) (x : List ℕ) → s ≢ empty_sector → s ≢ e.sector → Shows c s x → Shows after s x
  put-Shows s x ne other shows = record {
    cached = λ j p same. ground (arith, at j, shows.cached j, same);
    stored = λ away. elim (ℕ_discrete (c.entries i).sector s) [
      | yes here ↦ on_device s x ne other shows here
      | no not_here ↦ shows.stored (λ j p same. elim (ℕ_discrete j i) [
        | yes one ↦ not_here (ap (λ k. (c.entries k).sector) (sym one) ∙ same)
        | no others ↦ away j p (ground (arith, at j, same, others))
      ])
    ];
  }
