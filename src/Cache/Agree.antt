-- ===== src/Cache/Agree.antt =====
-- What `bc_flush` and `bc_get_free_entry` leave as it was.
use projectmod.Base.{
  ℕ, ◌<◌, ◌≡◌, refl, ◌≢◌, ◌⊎◌, inl, inr, Bool, false, some, List, arith, ◌==◌, lt→ltb, Bool-cases,
  ◌∙◌, sym, ap,
}
use projectmod.Cache.{
  Entry, Cache, empty_sector, set_entry, set_sector, check_sector, block_write, flush,
  get_free_entry, victim_loop,
}
use projectmod.Cache.Victim.{AllKept, Victim, victim_loop_lem}
use projectmod.Cache.View.{IsValid, Shows}

-- The second cache is valid, and shows the same in each sector.
pub record Agrees (c c' : Cache) : Type 0 where
  pub valid : IsValid c'
  pub shows : (s : ℕ) (x : List ℕ) → s ≢ empty_sector → Shows c s x → Shows c' s x
  pub size : c'.device.size ≡ c.device.size
  pub readers : (i : ℕ) → (c'.entries i).readers ≡ (c.entries i).readers
  pub sectors : (i : ℕ) → (c'.entries i).sector ≡ (c.entries i).sector

pub Agrees-refl : {c : Cache} → IsValid c → Agrees c c
Agrees-refl valid = record {
  valid = valid;
  shows = λ s x ne h. h;
  size = refl;
  readers = λ i. refl;
  sectors = λ i. refl;
}

pub Agrees-trans : {a b c : Cache} → Agrees a b → Agrees b c → Agrees a c
Agrees-trans f g = record {
  valid = g.valid;
  shows = λ s x ne h. g.shows s x ne (f.shows s x ne h);
  size = g.size ∙ f.size;
  readers = λ i. g.readers i ∙ f.readers i;
  sectors = λ i. g.sectors i ∙ f.sectors i;
}

Kept-Agrees :
    {c : Cache} {g : ℕ → Entry}
    → IsValid c
    → AllKept c.entries g
    → Agrees c (record c { entries = g })
Kept-Agrees {c} {g} valid kept = record {
  valid = record {
    unique = λ i j p q same ne.
        valid.unique i j p q (sym (kept i).sector ∙ same ∙ (kept j).sector)
          (λ e. ne ((kept i).sector ∙ e));
    inside = λ i p ne. rw (kept i).sector (valid.inside i p (λ e. ne ((kept i).sector ∙ e)));
    clean = λ i p ne d.
        let old = valid.clean i p (λ e. ne ((kept i).sector ∙ e)) (sym (kept i).is_dirty ∙ d) in
        (kept i).contents ∙ old ∙ ap c.device.sectors (sym (kept i).sector);
    size = valid.size;
  };
  shows = λ s x ne h. record {
    cached = λ i p same. (kept i).contents ∙ h.cached i p (sym (kept i).sector ∙ same);
    stored = λ away. h.stored (λ i p same. away i p ((kept i).sector ∙ same));
  };
  size = refl;
  readers = λ i. (kept i).readers;
  sectors = λ i. (kept i).sector;
}

-- The cache after `bc_flush` of entry `i`.
abbrev flushed : ℕ → Cache → Cache
flushed i c =
    let e = c.entries i in
    record {
      entries = set_entry c.entries i (record e { is_dirty = false });
      device = record {
        size = c.device.size;
        sectors = set_sector c.device.sectors e.sector e.contents;
      };
    }

module _ {c : Cache} (valid : IsValid c) (i : ℕ) (i_lt : i < 64)
    (ne : (c.entries i).sector ≢ empty_sector) where
  flush-flushed : flush i c ≡ some (flushed i c)
  unfolding flush block_write check_sector
  flush-flushed = rw (lt→ltb (c.entries i).sector c.device.size (valid.inside i i_lt ne)) refl

  flushed-IsValid : IsValid (flushed i c)
  flushed-IsValid = record {
    unique = λ j k p q same full. ground (arith, valid.unique j k p q, same, full);
    inside = λ j p full. ground (arith, valid.inside j p, full);
    clean = λ j p full d. ground (arith, valid.clean j p, valid.unique j i p i_lt, full, d);
    size = valid.size;
  }

  flushed-Shows : (s : ℕ) (x : List ℕ) → Shows c s x → Shows (flushed i c) s x
  flushed-Shows s x h = record {
    cached = λ j p same. ground (arith, h.cached j p, same);
    stored =
        λ away. ground (arith, h.stored (λ j p same. away j p (ground (arith, same))), away i i_lt);
  }

  pub flush_lem :
      (c' : Cache) × (flush i c ≡ some c')
      × Agrees c c'
      × ((c'.entries i).is_dirty ≡ false)
      × ((j : ℕ) → (c.entries j).is_dirty ≡ false → (c'.entries j).is_dirty ≡ false)
  flush_lem = (
    flushed i c,
    flush-flushed,
    record {
      valid = flushed-IsValid;
      shows = λ s x full. flushed-Shows s x;
      size = refl;
      readers = λ j. ground arith;
      sectors = λ j. ground arith;
    },
    ground arith,
    λ j p. ground (arith, p),
  )

-- What `bc_get_free_entry` returns: an entry that no one reads and that can be given up.
pub record Free (c : Cache) (i : ℕ) (c' : Cache) : Type 0 where
  pub inside : i < 64
  pub unread : (c.entries i).readers ≡ 0
  pub agrees : Agrees c c'
  pub old : ((c'.entries i).sector ≡ empty_sector) ⊎ ((c'.entries i).is_dirty ≡ false)

abbrev pub HasFree : (ℕ → ℕ → Bool) → Cache → Type 0
HasFree busy c = (i : ℕ) × (c' : Cache) × (get_free_entry busy c ≡ some (i, c')) × Free c i c'

-- Its end, when the victim is chosen.
free_end :
    (busy : ℕ → ℕ → Bool) {c : Cache} (i : ℕ) (g : ℕ → Entry)
    → IsValid c
    → victim_loop 512 busy 0 0 c.entries ≡ some (i, g)
    → Victim c.entries i g
    → HasFree busy c
unfolding get_free_entry
free_end busy {c} i g valid found victim =
    let agrees = Kept-Agrees valid victim.kept in
    let unread = sym (victim.kept i).readers ∙ victim.unread in
    elim (Bool-cases ((g i).sector == empty_sector)) [
      | inl empty ↦
          rw (found, empty)
            (
              i,
              record c { entries = g },
              refl,
              record {
                inside = victim.inside;
                unread = unread;
                agrees = agrees;
                old = inl (ground (arith, empty));
              },
            )
      | inr full ↦ elim (Bool-cases (g i).is_dirty) [
        | inr is_clean ↦
            rw (found, full, is_clean)
              (
                i,
                record c { entries = g },
                refl,
                record {
                  inside = victim.inside;
                  unread = unread;
                  agrees = agrees;
                  old = inr is_clean;
                },
              )
        | inl dirty ↦
            let (c', ok, after, is_clean, others) =
              flush_lem agrees.valid i victim.inside (ground (arith, full)) in
            rw (found, full, dirty, ok)
              (
                i,
                c',
                refl,
                record {
                  inside = victim.inside;
                  unread = unread;
                  agrees = Agrees-trans agrees after;
                  old = inr is_clean;
                },
              )
      ]
    ]

-- `bc_get_free_entry` on a valid cache returns if some entry has no
-- readers and a lock that stays free, whichever other locks are held in each round; no sector reads otherwise afterwards, and a dirty victim was written to the device.
pub get_free_entry_lem :
    (busy : ℕ → ℕ → Bool) {c : Cache} (k : ℕ)
    → IsValid c
    → k < 64
    → (c.entries k).readers ≡ 0
    → ((r : ℕ) → busy r k ≡ false)
    → HasFree busy c
get_free_entry_lem busy {c} k valid k_lt unread free =
    let (i, g, ok, victim) =
      victim_loop_lem busy k k_lt free 512 0 0 c.entries (omega arith) unread (omega arith)
        (omega arith) (λ p. absurd (omega arith)) in
    free_end busy i g valid ok victim
