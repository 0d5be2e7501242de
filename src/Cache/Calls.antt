-- ===== src/Cache/Calls.antt =====
-- `bc_block_read` and `bc_block_write` on what the cache shows.
use projectmod.Base.{
  ℕ, zero, suc, ◌+◌, ◌≤◌, ◌<◌, ◌≡◌, refl, inl, inr, Bool, true, false, ◌||◌, Option, some, List, [],
  ◌∷◌, ◌++◌, arith, ltb, le→leb, if◌then◌else◌, Bool-cases, length-replicate, eq→==, ◌∙◌, sym, ap,
  subst, take, drop, length, replicate,
}
use projectmod.Cache.{
  Entry, Cache, set_entry, slice, splice, block_read_cached, block_write_cached, prepare,
}
use projectmod.Cache.View.{IsValid, view}
use projectmod.Cache.Fetch.{Held, Held-set, Got, get_and_lock_entry_lem}
use projectmod.Cache.Block.{Loaded, hit-Loaded, loaded, load_lem, load_if, Updated, Held-Updated}

-- No other thread uses the cache during a call.
pub record IsAlone (busy : ℕ → ℕ → Bool) (other : Cache → Cache) : Type 0 where
  pub free : (r i : ℕ) → busy r i ≡ false
  pub still : (c : Cache) → other c ≡ c

abbrev pub Reads : (ℕ → ℕ → Bool) → (Cache → Cache) → (sector offset size : ℕ) → Cache → Type 0
Reads busy other s offset size c =
    (c' : Cache) × (block_read_cached busy other s offset size c
      ≡ some (slice offset size (view c s), c'))
    × Updated c s (view c s) c'

-- What `bc_block_read` does once it has the block.
module _ {c c' : Cache} {s i : ℕ} (valid : IsValid c) (in_device : s < c.device.size)
    (got : Loaded c s i c') where
  abbrev chance_off : Entry
  chance_off = record (c'.entries i) { is_in_second_chance = false }

  read_end : Updated c s (view c s) (record c' { entries = set_entry c'.entries i chance_off })
  read_end =
      subst (λ x. Updated c s x (record c' { entries = set_entry c'.entries i chance_off }))
        got.bytes
        (Held-Updated valid in_device got.held got.readers chance_off got.held.here got.readers
          got.clean)

-- `bc_block_read` of a sector of the device, on a valid cache, returns the bytes that the sector shows, if the range is in
-- a block and some entry has no readers; the cache stays valid, and no sector reads otherwise after it.
pub block_read_lem :
    (busy : ℕ → ℕ → Bool) (other : Cache → Cache) {c : Cache} (s offset size k : ℕ)
    → IsValid c
    → s < c.device.size
    → offset + size ≤ 512
    → k < 64
    → (c.entries k).readers ≡ 0
    → IsAlone busy other
    → Reads busy other s offset size c
unfolding block_read_cached
block_read_lem busy other {c} s offset size k valid in_device fits k_lt unread alone =
    let (miss, i, c', ok, got) =
      get_and_lock_entry_lem s valid in_device busy k k_lt unread alone.free in
    let (c'', ok'', has) = load_if miss in_device got in
    let d : Cache = record c'' {
      entries = set_entry c''.entries i (record (c''.entries i) { is_in_second_chance = false });
    } in
    rw (le→leb (offset + size) 512 fits, ok, alone.still c', ok'')
      (d, ap (λ b. some (slice offset size b, d)) has.bytes, read_end valid in_device has)

drop_all {ℓ} : {A : Type ℓ} (n : ℕ) (xs : List A) → length xs ≤ n → drop n xs ≡ []
drop_all zero [] h = refl
drop_all zero (x ∷ xs) h = absurd (omega arith)
drop_all (suc n) [] h = refl
drop_all (suc n) (x ∷ xs) h = drop_all n xs (omega arith)

-- Bytes that fill a block leave nothing of it.
splice_full :
    (bytes x y : List ℕ)
    → length bytes ≡ 512
    → length x ≡ 512
    → length y ≡ 512
    → splice 0 bytes x ≡ splice 0 bytes y
splice_full bytes x y h p q =
    ap (λ l. bytes ++ l)
      (drop_all (0 + length bytes) x (omega arith)
        ∙ sym (drop_all (0 + length bytes) y (omega arith)))

-- The entry before it is written to.
record Prepared (c : Cache) (s i offset : ℕ) (bytes : List ℕ) (c' : Cache) : Type 0 where
  base : Cache
  held : Held c base s i c'
  spliced : splice offset bytes (c'.entries i).contents ≡ splice offset bytes (view c s)
  unread : (((c.entries i).sector ≡ s) → (c.entries i).readers ≡ 0) → (c'.entries i).readers ≡ 0
  readers : (c'.entries i).readers ≡ (c.entries i).readers

abbrev HasPrepared : (c : Cache) → ℕ → ℕ → ℕ → List ℕ → Option Cache → Type 0
HasPrepared c s i offset bytes r = (c' : Cache) × (r ≡ some c') × Prepared c s i offset bytes c'

Loaded-Prepared :
    {c c' : Cache} {s i : ℕ} (offset : ℕ) (bytes : List ℕ)
    → Loaded c s i c'
    → Prepared c s i offset bytes c'
Loaded-Prepared offset bytes has = record {
  base = has.base;
  held = has.held;
  spliced = ap (splice offset bytes) has.bytes;
  unread = has.unread;
  readers = has.readers;
}

prepare_if :
    {c c' : Cache} {s i : ℕ} (miss : Bool) (offset : ℕ) (bytes : List ℕ)
    → s < c.device.size
    → offset + length bytes ≤ 512
    → length (view c s) ≡ 512
    → Got c s miss i c'
    → HasPrepared c s i offset bytes
        (if miss then prepare s offset (length bytes) i c' else some c')
unfolding prepare
prepare_if {c} {c'} {s} {i} false offset bytes in_device fits whole got =
    (c', refl, Loaded-Prepared offset bytes (hit-Loaded in_device got))
prepare_if {c} {c'} {s} {i} true offset bytes in_device fits whole got =
    elim (Bool-cases (ltb 0 offset || ltb (length bytes + offset) 512)) [
      | inl part ↦
          let (ok, has) = load_lem in_device got in
          rw part (loaded s i c', ok, Loaded-Prepared offset bytes has)
      | inr all ↦
          let zeros : Entry = record (c'.entries i) { contents = replicate 512 0 } in
          let start : offset ≡ 0 = ground (arith, all) in
          let filled : length bytes ≡ 512 = ground (arith, all) in
          rw all (
            record c' { entries = set_entry c'.entries i zeros },
            refl,
            record {
              base = got.base;
              held = Held-set zeros got.held got.held.here;
              spliced =
                  rw (start, eq→== i i refl)
                    (splice_full bytes (replicate 512 0) (view c s) filled
                      (length-replicate {A = ℕ} 512 0) whole);
              unread = λ h. ground (arith, got.unread h);
              readers = ground (arith, got.readers);
            },
          )
    ]

abbrev pub Writes : (ℕ → ℕ → Bool) → (Cache → Cache) → (sector offset : ℕ) → List ℕ → Cache → Type 0
Writes busy other s offset bytes c =
    (c' : Cache) × (block_write_cached false busy other s offset bytes c ≡ some (true, c'))
    × Updated c s (splice offset bytes (view c s)) c'

-- What `bc_block_write` does with the entry that no one reads.
module _ {c c' : Cache} {s i offset : ℕ} {bytes : List ℕ} (valid : IsValid c)
    (in_device : s < c.device.size) (has : Prepared c s i offset bytes c') where
  abbrev written : Entry
  written = record (c'.entries i) {
    is_in_second_chance = false;
    is_dirty = true;
    contents = splice offset bytes (c'.entries i).contents;
  }

  write_end :
      Updated c s
        (splice offset bytes (view c s))
        (record c' { entries = set_entry c'.entries i written })
  write_end =
      subst (λ x. Updated c s x (record c' { entries = set_entry c'.entries i written }))
        has.spliced
        (Held-Updated valid in_device has.held has.readers written has.held.here has.readers
          (λ e. absurd cc))

-- `bc_block_write` of a sector of the device, on a valid cache, whose range is in a block, whose
-- block has 512 bytes and whose entry no one reads, while some entry has no readers,
-- ends in its first round; the sector then shows its old block with the bytes spliced in, no other
-- sector reads otherwise, and the cache stays valid.
pub block_write_lem :
    (busy : ℕ → ℕ → Bool) (other : Cache → Cache) {c : Cache} (s offset : ℕ) (bytes : List ℕ)
    (k : ℕ)
    → IsValid c
    → s < c.device.size
    → offset + length bytes ≤ 512
    → length (view c s) ≡ 512
    → k < 64
    → (c.entries k).readers ≡ 0
    → ((i : ℕ) → (c.entries i).sector ≡ s → (c.entries i).readers ≡ 0)
    → IsAlone busy other
    → Writes busy other s offset bytes c
unfolding block_write_cached
block_write_lem busy other {c} s offset bytes k valid in_device fits whole k_lt unread no_reader
      alone =
    let (miss, i, c', ok, got) =
      get_and_lock_entry_lem s valid in_device busy k k_lt unread alone.free in
    let (c'', ok'', has) = prepare_if miss offset bytes in_device fits whole got in
    let d : Cache = record c'' {
      entries = set_entry c''.entries i (record (c''.entries i) {
        is_in_second_chance = false;
        is_dirty = true;
        contents = splice offset bytes (c''.entries i).contents;
      });
    } in
    rw
      (
        le→leb (offset + length bytes) 512 fits,
        ok,
        alone.still c',
        ok'',
        eq→== (c''.entries i).readers 0 (has.unread (no_reader i)),
      )
      (d, refl, write_end valid in_device has)

take-append {ℓ} : {A : Type ℓ} (xs ys : List A) → take (length xs) (xs ++ ys) ≡ xs
take-append [] ys = refl
take-append (x ∷ xs) ys = ap (◌∷◌ x) (take-append xs ys)

slice-splice :
    (offset : ℕ) (bytes block : List ℕ)
    → offset ≤ length block
    → slice offset (length bytes) (splice offset bytes block) ≡ bytes
slice-splice offset bytes block h = head offset block (drop (offset + length bytes) block) h
  where
    head :
        (n : ℕ) (xs ys : List ℕ)
        → n ≤ length xs
        → take (length bytes) (drop n (take n xs ++ (bytes ++ ys))) ≡ bytes
    head zero xs ys p = take-append bytes ys
    head (suc n) [] ys p = absurd (omega arith)
    head (suc n) (x ∷ xs) ys p = head n xs ys (omega arith)

-- Bytes that `bc_block_write` has written to a sector of the device, through a valid cache, are what
-- `bc_block_read` of their range returns next, if the range is in a block, the sector shows a block of
-- 512 bytes before, no one reads the sector's entry, some entry has no readers, no other thread uses the cache
-- during the two calls, and the variable `is_allowed`, which `bc_block_write`
-- reads before it sets it, happens to be false.
pub write-read :
    (busy busy' : ℕ → ℕ → Bool) (other other' : Cache → Cache) {c : Cache} (s offset : ℕ)
    (bytes : List ℕ) (k : ℕ)
    → IsValid c
    → s < c.device.size
    → offset + length bytes ≤ 512
    → length (view c s) ≡ 512
    → k < 64
    → (c.entries k).readers ≡ 0
    → ((i : ℕ) → (c.entries i).sector ≡ s → (c.entries i).readers ≡ 0)
    → IsAlone busy other
    → IsAlone busy' other'
    → (c' : Cache) × (c'' : Cache) × (block_write_cached false busy other s offset bytes c
        ≡ some (true, c'))
      × (block_read_cached busy' other' s offset (length bytes) c' ≡ some (bytes, c''))
write-read busy busy' other other' {c} s offset bytes k valid in_device fits whole k_lt unread
      no_reader alone alone' =
    let (c', ok, after) =
      block_write_lem busy other s offset bytes k valid in_device fits whole k_lt unread no_reader
        alone in
    let (c'', ok'', last) =
      block_read_lem busy' other' s offset (length bytes) k after.valid (rw after.size in_device)
        fits k_lt (after.readers k ∙ unread) alone' in
    (
      c',
      c'',
      ok,
      subst (λ b. block_read_cached busy' other' s offset (length bytes) c' ≡ some (b, c''))
          (ap (slice offset (length bytes)) after.here
            ∙ slice-splice offset bytes (view c s) (omega (arith, whole)))
          ok'',
    )
