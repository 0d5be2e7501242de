-- ===== src/Cache/Fetch.antt =====
-- The entry that `bc_get_and_lock_entry` gives to a sector, until its block is read or overwritten.
use projectmod.Base.{
  ℕ, ◌<◌, ◌≡◌, refl, ◌≢◌, ◌⊎◌, inl, inr, Bool, true, false, some, List, arith, ◌==◌, if◌then◌else◌,
  ◌∙◌, sym, ap, subst,
}
use projectmod.Cache.{Entry, Cache, empty_sector, set_entry, get_and_lock_entry}
use projectmod.Cache.View.{
  IsValid, view, Shows, Shows-view, get_entry_by_sector_lem, put-IsValid, put-Shows, put-Shows_self,
}
use projectmod.Cache.Agree.{Agrees, Agrees-refl, Free, get_free_entry_lem}

-- Entry `i` is the one of sector `s` in `c'`, and the others are those of a cache that agrees with `c`.
pub record Held (c base : Cache) (s i : ℕ) (c' : Cache) : Type 0 where
  pub agrees : Agrees c base
  pub inside : i < 64
  pub only : (j : ℕ) → j < 64 → (base.entries j).sector ≡ s → j ≡ i
  pub old :
      ((base.entries i).sector ≡ s)
      ⊎ (((base.entries i).sector ≡ empty_sector) ⊎ ((base.entries i).is_dirty ≡ false))
  pub others : (j : ℕ) → c'.entries j ≡ (if j == i then c'.entries i else base.entries j)
  pub device : c'.device ≡ base.device
  pub here : (c'.entries i).sector ≡ s

-- Entry `i` gets other contents, or flags.
pub Held-set :
    {c base c' : Cache} {s i : ℕ} (e : Entry)
    → Held c base s i c'
    → e.sector ≡ s
    → Held c base s i (record c' { entries = set_entry c'.entries i e })
Held-set {c} {base} {c'} {s} {i} e h at = record {
  agrees = h.agrees;
  inside = h.inside;
  only = h.only;
  old = h.old;
  others = λ j. ground (arith, h.others j);
  device = h.device;
  here = ground (arith, at);
}

-- Once the contents of the entry are right, the cache is.
module _ {c base c' : Cache} {s i : ℕ} (h : Held c base s i c') (in_device : s < c.device.size)
    (clean : (c'.entries i).is_dirty ≡ false
      → (c'.entries i).contents ≡ base.device.sectors s) where
  same : c' ≡ record { entries = c'.entries; device = base.device }
  same = rw h.device refl

  in_base : (c'.entries i).sector < base.device.size
  in_base = rw (h.here, h.agrees.size) in_device

  abbrev only_here : (j : ℕ) → j < 64 → (base.entries j).sector ≡ (c'.entries i).sector → j ≡ i
  only_here j p q = h.only j p (q ∙ h.here)

  clean_here :
      (c'.entries i).is_dirty ≡ false
      → (c'.entries i).contents ≡ base.device.sectors (c'.entries i).sector
  clean_here d = clean d ∙ ap base.device.sectors (sym h.here)

  old_here :
      ((base.entries i).sector ≡ (c'.entries i).sector)
      ⊎ (((base.entries i).sector ≡ empty_sector) ⊎ ((base.entries i).is_dirty ≡ false))
  old_here = elim h.old [ inl q ↦ inl (q ∙ sym h.here) | inr q ↦ inr q ]

  pub Held-IsValid : IsValid c'
  Held-IsValid = rw same (
      put-IsValid h.agrees.valid i (c'.entries i) c'.entries h.inside h.others in_base only_here
        clean_here old_here)

  pub Held-Shows_self : Shows c' s (c'.entries i).contents
  Held-Shows_self =
      let shows =
        put-Shows_self h.agrees.valid i (c'.entries i) c'.entries h.inside h.others in_base
          only_here clean_here old_here in
      rw same (
        subst
          (λ t.
            Shows (record { entries = c'.entries; device = base.device }) t (c'.entries i).contents)
          h.here shows)

  pub Held-Shows : (t : ℕ) (x : List ℕ) → t ≢ empty_sector → t ≢ s → Shows c t x → Shows c' t x
  Held-Shows t x full other shows = rw same (
      put-Shows h.agrees.valid i (c'.entries i) c'.entries h.inside h.others in_base only_here
        clean_here old_here t x full (λ e. other (e ∙ h.here)) (h.agrees.shows t x full shows))

-- On a hit the entry has the contents of the sector; on a miss they are on the device, and no one
-- reads the entry.
pub record Got (c : Cache) (s : ℕ) (miss : Bool) (i : ℕ) (c' : Cache) : Type 0 where
  pub base : Cache
  pub held : Held c base s i c'
  pub hit : miss ≡ false → (c'.entries i).contents ≡ view c s
  pub clean :
      miss ≡ false
      → (c'.entries i).is_dirty ≡ false
      → (c'.entries i).contents ≡ base.device.sectors s
  pub stored : miss ≡ true → base.device.sectors s ≡ view c s
  pub unread : (((c.entries i).sector ≡ s) → (c.entries i).readers ≡ 0) → (c'.entries i).readers ≡ 0
  pub readers : (c'.entries i).readers ≡ (c.entries i).readers

abbrev pub HasGot : (ℕ → ℕ → Bool) → ℕ → Cache → Type 0
HasGot busy s c =
    (miss : Bool) × (i : ℕ) × (c' : Cache) × (get_and_lock_entry busy s c ≡ some (miss, i, c'))
    × Got c s miss i c'

module _ {c : Cache} (s : ℕ) (valid : IsValid c) (in_device : s < c.device.size) where
  pub full : s ≢ empty_sector
  full e = omega (arith, valid.size, in_device, e)

  hit-Got : (i : ℕ) → i < 64 → (c.entries i).sector ≡ s → Got c s false i c
  hit-Got i i_lt at = record {
    base = c;
    held = record {
      agrees = Agrees-refl valid;
      inside = i_lt;
      only = λ j p q. valid.unique j i p i_lt (q ∙ sym at) (λ e. full (sym q ∙ e));
      old = inl at;
      others = λ j. ground arith;
      device = refl;
      here = at;
    };
    hit = λ e. (Shows-view s valid full).cached i i_lt at;
    clean = λ e d. valid.clean i i_lt (λ q. full (sym at ∙ q)) d ∙ ap c.device.sectors at;
    stored = λ e. absurd cc;
    unread = λ h. h at;
    readers = refl;
  }

  abbrev given : ℕ → Cache → Cache
  given i c1 = record c1 {
    entries = set_entry c1.entries i (record (c1.entries i) { sector = s; is_dirty = false });
  }

  miss-Got :
      (i : ℕ) (c1 : Cache)
      → Free c i c1
      → ((j : ℕ) → j < 64 → (c.entries j).sector ≢ s)
      → Got c s true i (given i c1)
  miss-Got i c1 free away =
      let away1 = λ (j : ℕ) (p : j < 64) (q : (c1.entries j).sector ≡ s).
        away j p (sym (free.agrees.sectors j) ∙ q) in
      record {
        base = c1;
        held = record {
          agrees = free.agrees;
          inside = free.inside;
          only = λ j p q. absurd (away1 j p q);
          old = inr free.old;
          others = λ j. ground arith;
          device = refl;
          here = ground arith;
        };
        hit = λ e. absurd cc;
        clean = λ e. absurd cc;
        stored = λ e. (free.agrees.shows s (view c s) full (Shows-view s valid full)).stored away1;
        unread = λ h. ground (arith, free.unread, free.agrees.readers i);
        readers = ground (arith, free.agrees.readers i);
      }

  pub get_and_lock_entry_lem :
      (busy : ℕ → ℕ → Bool) (k : ℕ)
      → k < 64
      → (c.entries k).readers ≡ 0
      → ((r i : ℕ) → busy r i ≡ false)
      → HasGot busy s c
  unfolding get_and_lock_entry
  get_and_lock_entry_lem busy k k_lt unread unlocked = elim (get_entry_by_sector_lem s c.entries) [
    | inl (i, e, p, q, at) ↦
        rw (e, unlocked 0 i, get_and_lock_entry) (false, i, c, refl, hit-Got i q at)
    | inr (e, away) ↦
        let (i, c1, ok, free) = get_free_entry_lem busy k valid k_lt unread (λ r. unlocked r k) in
        rw (e, ok, get_and_lock_entry)
          (true, i, given i c1, refl, miss-Got i c1 free (λ j p. away j (omega arith) p))
  ]
