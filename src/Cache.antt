-- ===== src/Cache.antt =====
-- filesys/cache.c: the buffer cache between the file system and its block device, and the checks of
-- devices/block.c. A call is one step, but for the point in reads and writes at which the cache lock is
-- free while the lock of the entry is held: `other` is what other threads do to the cache there. The
-- locks of entries that they hold, round by round of the search for a victim, are `busy`, and their
-- reads in progress the counts of readers. `none` is a failed ASSERT, a PANIC or a fault, and also that
-- the search waits for a lock.
pub mod Victim
pub mod View
pub mod Agree
pub mod Fetch
pub mod Block
mod Calls
mod Flush
mod Tests
use projectmod.Base.{
  ℕ, zero, suc, ◌+◌, ◌-◌, ◌*◌, ◌^◌, Bool, true, false, not, ◌&&◌, ◌||◌, Option, none, some, List,
  [], ◌∷◌, ◌++◌, ◌==◌, ltb, leb, if◌then◌else◌, ◌>>=◌, ◌>>◌, assert, take, drop, length, replicate,
}

-- MAX_CACHE_SECTORS, EMPTY_SECTOR (SIZE_MAX) and BLOCK_SECTOR_SIZE
abbrev pub max_cache_sectors : ℕ
max_cache_sectors = 64

abbrev pub empty_sector : ℕ
empty_sector = 2 ^ 32 - 1

abbrev pub sector_size : ℕ
sector_size = 512

-- `struct buffer_cache_entry`
pub record Entry : Type 0 where
  pub sector : ℕ
  pub contents : List ℕ
  pub is_in_second_chance : Bool
  pub is_dirty : Bool
  pub readers : ℕ

-- `struct block`: its size in sectors, and the bytes of each. The counts of accesses are left out; the
-- file system's device is not foreign.
pub record Device : Type 0 where
  pub size : ℕ
  pub sectors : ℕ → List ℕ

pub record Cache : Type 0 where
  pub entries : ℕ → Entry
  pub device : Device

abbrev pub set_entry : (ℕ → Entry) → ℕ → Entry → ℕ → Entry
set_entry f i e j = if j == i then e else f j

abbrev pub set_sector : (ℕ → List ℕ) → ℕ → List ℕ → ℕ → List ℕ
set_sector f i v j = if j == i then v else f j

unfoldable pub check_sector : ℕ → Device → Option (Unit {0})
check_sector sector d = assert (ltb sector d.size)

unfoldable pub block_read : ℕ → Device → Option (List ℕ)
unfolding check_sector
block_read sector d = check_sector sector d >> some (d.sectors sector)

unfoldable pub block_write : ℕ → List ℕ → Device → Option Device
unfolding check_sector
block_write sector bytes d =
    check_sector sector d >> some (record d { sectors = set_sector d.sectors sector bytes })

-- The entries after `bc_init`; their contents are left as they are.
unfoldable pub init : (ℕ → List ℕ) → Device → Cache
init contents device = record {
  entries = λ i. record {
    sector = empty_sector;
    contents = contents i;
    is_in_second_chance = false;
    is_dirty = false;
    readers = 0;
  };
  device = device;
}

-- `bc_flush` on entry `i`.
unfoldable pub flush : ℕ → Cache → Option Cache
flush i c =
    let e = c.entries i in
    block_write e.sector e.contents c.device >>= λ d.
    some (record { entries = set_entry c.entries i (record e { is_dirty = false }); device = d })

-- `bc_get_entry_by_sector`: from index `i` on, `n` entries.
unfoldable pub find_from : ℕ → ℕ → ℕ → (ℕ → Entry) → Option ℕ
find_from zero i sector entries = none
find_from (suc n) i sector entries =
    let rest = find_from n (i + 1) sector entries in
    let e = entries i in if e.sector == sector then some i else rest

unfoldable pub get_entry_by_sector : ℕ → (ℕ → Entry) → Option ℕ
get_entry_by_sector sector entries = find_from max_cache_sectors 0 sector entries

-- Whether `bc_get_free_entry` gets the lock of entry `i` in a round at once.
abbrev pub taken : (ℕ → ℕ → Bool) → ℕ → ℕ → Bool
taken busy round i = not (busy round i)

-- Whether it waits for the lock there: up to round 5 it only tries.
abbrev pub halts : (ℕ → ℕ → Bool) → ℕ → ℕ → Bool
halts busy round i = ltb 5 round && busy round i

-- What it does with an entry whose lock it has: whether this is the victim, and the entry.
unfoldable pub visit : ℕ → Entry → Bool × Entry
visit round e =
    if e.readers == 0
    then (if (e.sector == empty_sector) || e.is_in_second_chance
        then (true, e)
        else if not e.is_dirty || ltb 0 round
        then (false, record e { is_in_second_chance = true })
        else (false, e))
    else (false, e)

-- Its loop, with fuel for `n` visits: the victim and the entries. A wait for a lock need not end, as
-- the one who holds it may wait for the cache lock.
unfoldable pub victim_loop :
    ℕ → (ℕ → ℕ → Bool) → (round i : ℕ) → (ℕ → Entry) → Option (ℕ × (ℕ → Entry))
victim_loop zero busy round i entries = none
victim_loop (suc n) busy round i entries =
    let (found, e) = (if taken busy round i then visit round (entries i) else (false, entries i)) in
    let entries' = set_entry entries i e in
    elim (halts busy round i) [
      | true ↦ none
      | false ↦ elim found [
        | true ↦ some (i, entries)
        | false ↦
            let last = i == max_cache_sectors - 1 in
            victim_loop n busy (if last then round + 1 else round) (if last then 0 else i + 1)
              entries'
      ]
    ]

-- Visits that are enough for eight rounds.
abbrev pub victim_fuel : ℕ
victim_fuel = 8 * 64

-- `bc_get_free_entry`
unfoldable pub get_free_entry : (ℕ → ℕ → Bool) → Cache → Option (ℕ × Cache)
get_free_entry busy c = victim_loop victim_fuel busy 0 0 c.entries >>= λ (i, entries).
    let c' : Cache = record c { entries = entries } in
    let e = entries i in
    if not (e.sector == empty_sector) && e.is_dirty
    then (flush i c' >>= λ c''. some (i, c''))
    else some (i, c')

-- `bc_get_and_lock_entry`: whether it was a miss, and the entry. Under the cache lock no entry changes
-- its sector, so that the loop ends in its first round. On a hit it waits for the entry's lock, which need not end.
unfoldable pub get_and_lock_entry : (ℕ → ℕ → Bool) → ℕ → Cache → Option (Bool × ℕ × Cache)
get_and_lock_entry busy sector c = elim (get_entry_by_sector sector c.entries) [
  | some i ↦ assert (not (busy 0 i)) >> some (false, i, c)
  | none ↦ get_free_entry busy c >>= λ (i, c').
      let e = c'.entries i in
      some (
        true,
        i,
        record c' {
          entries = set_entry c'.entries i (record e { sector = sector; is_dirty = false });
        },
      )
]

-- `block_read` into entry `i`.
unfoldable pub load : ℕ → ℕ → Cache → Option Cache
load sector i c = block_read sector c.device >>= λ bytes.
    let e = c.entries i in
    some (record c { entries = set_entry c.entries i (record e { contents = bytes }) })

-- `size` bytes of a block from `offset` on, and a block with bytes written there.
abbrev pub slice : ℕ → ℕ → List ℕ → List ℕ
slice offset size block = take size (drop offset block)

abbrev pub splice : ℕ → List ℕ → List ℕ → List ℕ
splice offset bytes block = take offset block ++ (bytes ++ drop (offset + length bytes) block)

-- `bc_block_read`; the count of readers goes up and down again.
unfoldable pub block_read_cached :
    (busy : ℕ → ℕ → Bool) (other : Cache → Cache) (sector offset size : ℕ)
    → Cache
    → Option (List ℕ × Cache)
block_read_cached busy other sector offset size c =
    assert (leb (offset + size) sector_size)
    >> (get_and_lock_entry busy sector c >>= λ (miss, i, c').
        (if miss then load sector i (other c') else some (other c')) >>= λ c''.
        let e = c''.entries i in
        some (
          slice offset size e.contents,
          record c'' {
            entries = set_entry c''.entries i (record e { is_in_second_chance = false });
          },
        ))

-- What a round of `bc_block_write` does with an entry that was just taken: it loads the block, unless
-- all of it is overwritten.
unfoldable pub prepare : ℕ → ℕ → ℕ → ℕ → Cache → Option Cache
prepare sector offset size i c =
    if ltb 0 offset || ltb (size + offset) sector_size
    then load sector i c
    else (let e = c.entries i in
        some (record c {
          entries = set_entry c.entries i (record e { contents = replicate sector_size 0 });
        }))

-- A round of `bc_block_write`: `false` if the entry has readers, so that it goes round again. In the
-- first round `is_allowed` is what the variable, which nothing has set, happens to hold: if that is not
-- false, no entry is there to be written to.
unfoldable pub block_write_cached :
    (is_allowed : Bool) (busy : ℕ → ℕ → Bool) (other : Cache → Cache) (sector offset : ℕ)
    → List ℕ
    → Cache
    → Option (Bool × Cache)
block_write_cached is_allowed busy other sector offset bytes c =
    assert (leb (offset + length bytes) sector_size && not is_allowed)
    >> (get_and_lock_entry busy sector c >>= λ (miss, i, c').
        (if miss then prepare sector offset (length bytes) i (other c') else some (other c'))
        >>= λ c''.
            let e = c''.entries i in
            if e.readers == 0
            then some (
              true,
              record c'' {
                entries = set_entry c''.entries i (record e {
                  is_in_second_chance = false;
                  is_dirty = true;
                  contents = splice offset bytes e.contents;
                });
              },
            )
            else some (false, c''))

-- The loops of `bc_flush_all` and of a round of `bc_daemon_flush`, from entry `i` on, `n` entries.
unfoldable pub flush_loop : ℕ → ℕ → Cache → Option Cache
flush_loop zero i c = some c
flush_loop (suc n) i c =
    let e = c.entries i in
    (if not (e.sector == empty_sector) && e.is_dirty then flush i c else some c)
    >>= flush_loop n (i + 1)

unfoldable pub flush_all : Cache → Option Cache
flush_all c = flush_loop max_cache_sectors 0 c

unfoldable pub daemon_loop : ℕ → ℕ → Cache → Option Cache
daemon_loop zero i c = some c
daemon_loop (suc n) i c =
    let e = c.entries i in (if e.is_dirty then flush i c else some c) >>= daemon_loop n (i + 1)

unfoldable pub daemon_flush : Cache → Option Cache
daemon_flush c = daemon_loop max_cache_sectors 0 c

-- `bc_remove`
unfoldable pub remove : ℕ → Cache → Cache
remove sector c = elim (get_entry_by_sector sector c.entries) [
  | none ↦ c
  | some i ↦
      let e = c.entries i in
      record c { entries = set_entry c.entries i (record e { sector = empty_sector }) }
]
