-- ===== src/Pagedir/Entries.antt =====
-- The entries that threads/pte.h makes of pages, and what it reads in them.
use projectmod.Base.{
  ℕ, ◌+◌, ◌-◌, ◌*◌, ◌/◌, ◌%◌, ◌^◌, ◌≤◌, ◌<◌, ◌≡◌, refl, Bool, true, false, some, arith, ◌==◌,
  if◌then◌else◌, bit_and, bit_or, ◌∙◌, ap, eq→==,
}
use projectmod.Base.Digits.Split.{bit_and-split, bit_and-mask, bit_or-flags}
use projectmod.Base.Digits.Step.{bit_and_zero, bit_and-halves}
use projectmod.Palloc.{phys_base, pg_ofs, ptov}
use projectmod.Pagedir.{vtop, pte_addr, pte_p, pte_w, pte_u, has_flag, pde_create, pte_create_user}

-- A page of the kernel's addresses.
pub record IsPage (p : ℕ) : Type 0 where
  pub aligned : p % 2 ^ 12 ≡ 0
  pub above : phys_base ≤ p
  pub below : p < 2 ^ 32

-- An entry for a page, with flags.
abbrev pub entry_of : ℕ → ℕ → ℕ
entry_of page flags = page - phys_base + flags

-- The page that an entry names.
abbrev pub page_in : ℕ → ℕ
page_in e = phys_base + 2 ^ 12 * (e / 2 ^ 12)

pub page_in-entry_of : (p flags : ℕ) → IsPage p → flags < 2 ^ 12 → page_in (entry_of p flags) ≡ p
page_in-entry_of p flags page h = omega (arith, page.aligned, page.above)

pub masked : (e : ℕ) → e < 2 ^ 32 → bit_and e pte_addr ≡ 2 ^ 12 * (e / 2 ^ 12)
masked e h =
    let parts : 2 ^ 12 * (e / 2 ^ 12) + e % 2 ^ 12 ≡ e = omega arith in
    let split =
      bit_and-split 12 (e / 2 ^ 12) (2 ^ 20 - 1) (e % 2 ^ 12) 0 (omega arith) (omega arith) in
    let mask = bit_and-mask 20 (e / 2 ^ 12) (omega arith) in
    let low = bit_and_zero (e % 2 ^ 12) in rw parts at split ∙ omega (arith, mask, low)

-- `ptov` of the address in an entry.
pub ptov-masked : (e : ℕ) → e < 2 ^ 30 → ptov (bit_and e pte_addr) ≡ some (page_in e)
unfolding ptov
ptov-masked e h = rw (masked e (omega arith)) (ground arith)

pub has_flag-pte_p : (e : ℕ) → has_flag e pte_p ≡ (e % 2 == 1)
unfolding has_flag
has_flag-pte_p e = ground (arith, bit_and-halves e 1, bit_and_zero (e / 2))

module _ (p : ℕ) (page : IsPage p) where
  pub vtop_lem : vtop p ≡ some (p - phys_base)
  unfolding vtop
  vtop_lem = ground (arith, page.above)

  aligned_lem : (pg_ofs p == 0) ≡ true
  aligned_lem = eq→== (pg_ofs p) 0 page.aligned

  -- A flag more in an entry for the page.
  more_flags :
      (x y : ℕ) → x < 2 ^ 12 → y < 2 ^ 12 → bit_or (entry_of p x) y ≡ entry_of p (bit_or x y)
  more_flags x y h k =
      let parts : 2 ^ 12 * ((p - phys_base) / 2 ^ 12) ≡ p - phys_base =
        omega (arith, page.aligned, page.above) in
      rw parts at (bit_or-flags 12 ((p - phys_base) / 2 ^ 12) x y h k)

  first_flag : (y : ℕ) → y < 2 ^ 12 → bit_or 0 y ≡ y → bit_or (p - phys_base) y ≡ entry_of p y
  first_flag y h same =
      let none_yet : p - phys_base ≡ entry_of p 0 = omega arith in
      ap (λ t. bit_or t y) none_yet ∙ more_flags 0 y (omega arith) h ∙ ap (entry_of p) same

  pub pde_create_lem : pde_create p ≡ some (entry_of p 7)
  unfolding pde_create
  pde_create_lem =
      let a = first_flag pte_u (omega arith) refl in
      let b = more_flags 4 pte_p (omega arith) (omega arith) in
      let c = more_flags 5 pte_w (omega arith) (omega arith) in
      rw (aligned_lem, vtop_lem, a, b, c) refl

  pub pte_create_user_lem :
      (writable : Bool) → pte_create_user p writable ≡ some (entry_of p (if writable then 7 else 5))
  unfolding pte_create_user
  pte_create_user_lem true =
      let a = first_flag pte_p (omega arith) refl in
      let b = more_flags 1 pte_w (omega arith) (omega arith) in
      let c = more_flags 3 pte_u (omega arith) (omega arith) in
      rw (aligned_lem, vtop_lem, a, b, c) refl
  pte_create_user_lem false =
      let a = first_flag pte_p (omega arith) refl in
      let b = more_flags 1 0 (omega arith) (omega arith) in
      let c = more_flags 1 pte_u (omega arith) (omega arith) in
      rw (aligned_lem, vtop_lem, a, b, c) refl
