-- ===== src/Swap/Laws.antt =====
-- A page that was swapped out comes back, and the pages in other slots stay.
use projectmod.Base.{
  ℕ, zero, suc, ◌+◌, ◌-◌, ◌*◌, ◌^◌, ◌≤◌, ◌<◌, ◌≡◌, refl, ◌≢◌, ◌⊎◌, inl, inr, Bool, true, false,
  ◌&&◌, some, arith, if◌then◌else◌, Bool-cases, ne→==, ◌==◌, leb, ltb, subst,
}
use native.Mathlib.Decide.{ℕ_discrete}
use projectmod.Bitmap.{bitmap_error}
use projectmod.Bitmap.Bits.{bit, IsValid, flip_lem}
use projectmod.Bitmap.Scan.{FirstFit, NoFit, flipped_lem}
use projectmod.Swap.{
  Sector, Page, Swap, swap_error, update, write_loop, read_loop, sector_at, slot_addr, free,
  swap_out, swap_in,
}

-- The bitmap is valid, and the sectors of its slots have 32-bit numbers.
pub record IsSound (s : Swap) : Type 0 where
  pub map : IsValid s.bm
  pub fits : s.bm.bit_cnt * 8 ≤ 2 ^ 32

-- A slot of the device that holds no page.
abbrev pub is_free : Swap → ℕ → Bool
is_free s slot = bit s.bm slot

-- Slot `slot` holds the page `pg`.
abbrev pub Holds : Swap → ℕ → Page → Type 0
Holds s slot pg = (k : ℕ) → k < 8 → s.device (slot * 8 + k) ≡ pg k

write_loop_lem :
    (n iter addr : ℕ) (pg : Page) (device : ℕ → Sector) (j : ℕ)
    → addr + iter + n ≤ 2 ^ 32
    → write_loop n iter addr pg device j
      ≡ (if leb (addr + iter) j && ltb j (addr + iter + n) then pg (j - addr) else device j)
unfolding write_loop
write_loop_lem zero iter addr pg device j h = ground arith
write_loop_lem (suc n) iter addr pg device j h =
    let fits : sector_at addr iter ≡ addr + iter = omega arith in
    rw
      (
        fits,
        write_loop_lem n (iter + 1) addr pg (update device (addr + iter) (pg iter)) j (omega arith),
      )
      (elim (ℕ_discrete j (addr + iter)) [
        | yes e ↦ let back : j - addr ≡ iter = omega arith in rw back (ground arith)
        | no ne ↦ ground arith
      ])

read_loop_lem :
    (n iter addr : ℕ) (device : ℕ → Sector) (pg : Page) (k : ℕ)
    → addr + iter + n ≤ 2 ^ 32
    → read_loop n iter addr device pg k
      ≡ (if leb iter k && ltb k (iter + n) then device (addr + k) else pg k)
unfolding read_loop
read_loop_lem zero iter addr device pg k h = ground arith
read_loop_lem (suc n) iter addr device pg k h =
    let fits : sector_at addr iter ≡ addr + iter = omega arith in
    rw
      (
        fits,
        read_loop_lem n (iter + 1) addr device (update pg iter (device (addr + iter))) k
            (omega arith),
      )
      (ground arith)

-- What swapping a page out does when it succeeds: the slot was the first free one and no longer is,
-- it holds the page, and every other slot keeps its status and what it held.
pub record SwappedOut (pg : Page) (s : Swap) (slot : ℕ) (s' : Swap) : Type 0 where
  pub first_free : FirstFit s.bm 0 1 true slot
  pub sound : IsSound s'
  pub size : s'.bm.bit_cnt ≡ s.bm.bit_cnt
  pub status : (i : ℕ) → is_free s' i ≡ (if i == slot then false else is_free s i)
  pub holds : Holds s' slot pg
  pub others : (i : ℕ) → i ≢ slot → Holds s' i (λ k. s.device (i * 8 + k))

not_free : (s : Swap) → NoFit s.bm 0 1 true → (i : ℕ) → i < s.bm.bit_cnt → is_free s i ≡ false
not_free s no_fit i h = elim (Bool-cases (is_free s i)) [
  | inl was ↦ absurd (
      no_fit i (omega arith) (omega arith)
        λ j p q. let e : i ≡ j = omega arith in subst (λ k. bit s.bm k ≡ true) e was)
  | inr used ↦ used
]

-- Swapping out returns on a sound device. Either it puts the page in the first free slot, or no
-- slot is free, it returns SWAP_ERROR and changes nothing.
pub swap_out_lem :
    (pg : Page) {s : Swap}
    → IsSound s
    → ((slot : ℕ) × (s' : Swap) × (swap_out pg s ≡ some (slot, s'))
        × (slot ≢ swap_error)
        × SwappedOut pg s slot s')
      ⊎ ((swap_out pg s ≡ some (swap_error, s))
          × ((i : ℕ) → i < s.bm.bit_cnt → is_free s i ≡ false))
unfolding swap_out
swap_out_lem pg {s} sound = elim (flipped_lem sound.map 0 1 true (omega arith)) [
  | inl (slot, bm, e, ne, fit, sets) ↦
      let small : slot_addr slot ≡ slot * 8 = omega (arith, fit.within, sound.fits) in
      let room : slot * 8 + 0 + 8 ≤ 2 ^ 32 = omega (arith, fit.within, sound.fits) in
      rw (e, ne→== slot bitmap_error ne, small)
        (inl (
          slot,
          record { bm = bm; device = write_loop 8 0 (slot * 8) pg s.device },
          refl,
          ne,
          record {
            first_free = fit;
            sound = record { map = sets.valid; fits = omega (arith, sets.size, sound.fits) };
            size = sets.size;
            status = λ i. rw (sets.bits i) (ground arith);
            holds = λ k h.
                let back : slot * 8 + k - slot * 8 ≡ k = omega arith in
                rw (write_loop_lem 8 0 (slot * 8) pg s.device (slot * 8 + k) room, back)
                  (ground arith);
            others = λ i other k h.
                rw (write_loop_lem 8 0 (slot * 8) pg s.device (i * 8 + k) room) (ground arith);
          },
        ))
  | inr (e, no_fit) ↦ rw e (inr (refl, λ i h. not_free s no_fit i h))
]

-- What swapping in does: the memory gets the page of the slot and keeps the rest, the slot is free,
-- and the other slots and the device stay.
record SwappedIn (slot : ℕ) (pg mem mem' : Page) (s s' : Swap) : Type 0 where
  page : (k : ℕ) → mem' k ≡ (if ltb k 8 then pg k else mem k)
  status : (i : ℕ) → is_free s' i ≡ (if i == slot then true else is_free s i)
  device : s'.device ≡ s.device

-- Swapping in a slot that is in use returns, loads the page that the slot holds, and frees it.
swap_in_lem :
    (slot : ℕ) (pg mem : Page) {s : Swap}
    → IsSound s
    → slot < s.bm.bit_cnt
    → is_free s slot ≡ false
    → Holds s slot pg
    → (mem' : Page) × (s' : Swap) × (swap_in slot mem s ≡ some (mem', s'))
      × SwappedIn slot pg mem mem' s s'
unfolding swap_in free
swap_in_lem slot pg mem {s} sound h used holds =
    let (bm, ok, flipped) = flip_lem sound.map slot h in
    let small : slot_addr slot ≡ slot * 8 = omega (arith, sound.fits) in
    rw small (
      read_loop 8 0 (slot * 8) s.device mem,
      record s { bm = bm },
      rw ok,
      record {
        page = λ k.
            rw (read_loop_lem 8 0 (slot * 8) s.device mem k (omega (arith, sound.fits)))
              (ground (arith, holds k));
        status = λ i. rw (flipped.bits i, used) (ground arith);
        device = refl;
      },
    )

-- The outcome of a swap that did not fail.
swapped :
    {pg : Page} {slot : ℕ} {s s' : Swap}
    → IsSound s
    → swap_out pg s ≡ some (slot, s')
    → slot ≢ swap_error
    → SwappedOut pg s slot s'
swapped {pg} {slot} {s} {s'} valid e ne = elim (swap_out_lem pg {s = s} valid) [
  | inl (i, t, r, ne', out) ↦
      let same_slot : i ≡ slot = cc in
      let same_state : t ≡ s' = cc in
      subst (λ k. SwappedOut pg s k s') same_slot (subst (λ u. SwappedOut pg s i u) same_state out)
  | inr (r, full) ↦ absurd (ne (cc))
]

-- The slot that a page left is free again, as it was before, and the others are as they were.
status_back :
    (s : Swap) (slot j : ℕ)
    → is_free s slot ≡ true
    → (if j == slot then true else if j == slot then false else is_free s j) ≡ is_free s j
status_back s slot j was = elim (ℕ_discrete j slot) [
  | yes e ↦ rw (e, was) (ground arith)
  | no ne ↦ ground arith
]

-- A page that was swapped out comes back: swapping its slot in again returns, puts the page in the
-- memory given and nothing else, and leaves exactly the slots free that were free before.
pub swap_in-swap_out :
    (pg mem : Page) (slot : ℕ) (s : Swap) {s' : Swap}
    → IsSound s
    → swap_out pg s ≡ some (slot, s')
    → slot ≢ swap_error
    → (mem' : Page) × (s'' : Swap) × (swap_in slot mem s' ≡ some (mem', s''))
      × ((k : ℕ) → mem' k ≡ (if ltb k 8 then pg k else mem k))
      × ((i : ℕ) → is_free s'' i ≡ is_free s i)
swap_in-swap_out pg mem slot s {s'} valid e ne =
    let out : SwappedOut pg s slot s' = swapped valid e ne in
    let used : is_free s' slot ≡ false = rw (out.status slot) (ground arith) in
    let was : is_free s slot ≡ true = out.first_free.group slot (omega arith) (omega arith) in
    let (mem', s'', ok, i) =
      swap_in_lem slot pg mem {s = s'} out.sound (omega (arith, out.size, out.first_free.within))
        used out.holds in
    (mem', s'', ok, i.page, λ j. rw (i.status j, out.status j) (status_back s slot j was))
