-- ===== src/Cache/Block.antt =====
-- The entry that `bc_block_read` and `bc_block_write` use, and its last value.
use projectmod.Base.{
  ℕ, ◌<◌, ◌≡◌, refl, ◌≢◌, Bool, true, false, some, List, arith, lt→ltb, if◌then◌else◌, ◌∙◌, ap,
  subst,
}
use projectmod.Cache.{Entry, Cache, empty_sector, set_entry, load, block_read, check_sector}
use projectmod.Cache.View.{IsValid, view, Shows, Shows-view, view-Shows}
use projectmod.Cache.Fetch.{Held, Held-set, Held-IsValid, Held-Shows, Held-Shows_self, Got}

-- The entry after `load` on a miss: its block is there.
pub record Loaded (c : Cache) (s i : ℕ) (c' : Cache) : Type 0 where
  pub base : Cache
  pub held : Held c base s i c'
  pub bytes : (c'.entries i).contents ≡ view c s
  pub clean : (c'.entries i).is_dirty ≡ false → (c'.entries i).contents ≡ base.device.sectors s
  pub unread : (((c.entries i).sector ≡ s) → (c.entries i).readers ≡ 0) → (c'.entries i).readers ≡ 0
  pub readers : (c'.entries i).readers ≡ (c.entries i).readers

abbrev pub loaded : ℕ → ℕ → Cache → Cache
loaded s i c' = record c' {
  entries = set_entry c'.entries i (record (c'.entries i) { contents = c'.device.sectors s });
}

module _ {c c' : Cache} {s i : ℕ} (in_device : s < c.device.size) where
  pub hit-Loaded : Got c s false i c' → Loaded c s i c'
  hit-Loaded got = record {
    base = got.base;
    held = got.held;
    bytes = got.hit refl;
    clean = got.clean refl;
    unread = got.unread;
    readers = got.readers;
  }

  pub load_lem :
      Got c s true i c' → (load s i c' ≡ some (loaded s i c')) × Loaded c s i (loaded s i c')
  unfolding load block_read check_sector
  load_lem got =
      let held = got.held in
      let size : s < c'.device.size = rw (held.device, held.agrees.size) in_device in
      let here : c'.device.sectors s ≡ got.base.device.sectors s = rw held.device refl in
      (
        rw (lt→ltb s c'.device.size size) refl,
        record {
          base = got.base;
          held = Held-set (record (c'.entries i) { contents = c'.device.sectors s }) held held.here;
          bytes = ground (arith, here, got.stored refl);
          clean = λ d. ground (arith, here);
          unread = λ h. ground (arith, got.unread h);
          readers = ground (arith, got.readers);
        },
      )

-- A cache that shows what another does, but for sector `s`, which reads as `x`.
pub record Updated (c : Cache) (s : ℕ) (x : List ℕ) (c' : Cache) : Type 0 where
  pub valid : IsValid c'
  pub here : view c' s ≡ x
  pub elsewhere : (t : ℕ) → t < c.device.size → t ≢ s → view c' t ≡ view c t
  pub size : c'.device.size ≡ c.device.size
  pub readers : (j : ℕ) → (c'.entries j).readers ≡ (c.entries j).readers

-- An entry that is held gets its last value.
module _ {c base c' : Cache} {s i : ℕ} (valid : IsValid c) (in_device : s < c.device.size)
    (held : Held c base s i c')
    (same_readers : (c'.entries i).readers ≡ (c.entries i).readers) where
  pub Held-Updated :
      (e : Entry)
      → e.sector ≡ s
      → e.readers ≡ (c.entries i).readers
      → (e.is_dirty ≡ false → e.contents ≡ base.device.sectors s)
      → Updated c s e.contents (record c' { entries = set_entry c'.entries i e })
  Held-Updated e at r clean =
      let c'' : Cache = record c' { entries = set_entry c'.entries i e } in
      let set = Held-set e held at in
      let value : c''.entries i ≡ e = ground arith in
      let clean' : (c''.entries i).is_dirty ≡ false
          → (c''.entries i).contents ≡ base.device.sectors s =
        rw value clean in
      record {
        valid = Held-IsValid set in_device clean';
        here =
            view-Shows s e.contents
              (subst (λ v. Shows c'' s v.contents) value (Held-Shows_self set in_device clean'));
        elsewhere = λ t t_lt other.
            let ne : t ≢ empty_sector = λ q. omega (arith, valid.size, t_lt, q) in
            view-Shows t (view c t)
              (Held-Shows set in_device clean' t (view c t) ne other (Shows-view t valid ne));
        size = ap (λ d. d.size) held.device ∙ held.agrees.size;
        readers = λ j. ground (arith, held.others j, held.agrees.readers j, r);
      }

pub load_if :
    {c c' : Cache} {s i : ℕ} (miss : Bool)
    → s < c.device.size
    → Got c s miss i c'
    → (c'' : Cache) × ((if miss then load s i c' else some c') ≡ some c'') × Loaded c s i c''
load_if {c} {c'} {s} {i} true in_device got =
    let (ok, has) = load_lem in_device got in (loaded s i c', ok, has)
load_if {c} {c'} {s} {i} false in_device got = (c', refl, hit-Loaded in_device got)
