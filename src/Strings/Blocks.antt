-- ===== src/Strings/Blocks.antt =====
-- `memmove` and `memcmp`.
use projectmod.Base.{
  ℕ, zero, suc, ◌+◌, ◌-◌, ◌≤◌, ◌<◌, ◌≡◌, refl, ◌≢◌, ◌⊎◌, inl, inr, arith, ltb, if◌then◌else◌,
  Bool-cases, ◌∙◌, eq→==, ne→==,
}
use native.Mathlib.Decide.{ℕ_discrete}
use projectmod.Stdlib.{Sign, below, equal, above}
use projectmod.Palloc.Fill.{in_block}
use projectmod.Strings.{Memory, store, memcpy, copy_down, memmove, memcmp}

-- What a block reads as after another was copied into it.
abbrev pub copied : (dst src size : ℕ) → Memory → Memory
copied dst src size m a = if in_block dst size a then m (src + (a - dst)) else m a

-- Copying upwards is right unless the target begins inside the source block.
pub memcpy_lem :
    (n dst src : ℕ) (m : Memory) (a : ℕ)
    → (dst ≤ src) ⊎ (src + n ≤ dst)
    → memcpy n dst src m a ≡ copied dst src n m a
unfolding memcpy
memcpy_lem zero dst src m a h = ground arith
memcpy_lem (suc n) dst src m a h =
    let rest = memcpy_lem n (dst + 1) (src + 1) (store dst (m src) m) a (ground (arith, h)) in
    rest ∙ elim (ℕ_discrete a dst) [ yes e ↦ ground (arith, e, h) | no ne ↦ ground (arith, ne, h) ]

-- Copying downwards is right if the target does not begin below the source block.
copy_down_lem :
    (n dst src : ℕ) (m : Memory) (a : ℕ)
    → src ≤ dst
    → copy_down n (dst + n) (src + n) m a ≡ copied dst src n m a
unfolding copy_down
copy_down_lem zero dst src m a h = ground arith
copy_down_lem (suc n) dst src m a h =
    let d : dst + suc n - 1 ≡ dst + n = omega arith in
    let s : src + suc n - 1 ≡ src + n = omega arith in
    let rest = copy_down_lem n dst src (store (dst + n) (m (src + n)) m) a h in
    rw (d, s)
      (rest ∙ elim (ℕ_discrete a (dst + n)) [
        | yes e ↦ ground (arith, e, h)
        | no ne ↦ ground (arith, ne, h)
      ])

-- `memmove` leaves in the target what the source block held before, also where the two overlap, and
-- every other byte as it was. It returns the target's address if that is not below the source's, and
-- the address behind the target otherwise.
pub memmove_lem :
    (dst src size : ℕ) (m : Memory)
    → ((a : ℕ) → (memmove dst src size m).1 a ≡ copied dst src size m a)
      × ((memmove dst src size m).0 ≡ (if ltb dst src then dst + size else dst))
unfolding memmove
memmove_lem dst src size m = elim (Bool-cases (ltb dst src)) [
  | inl up ↦ rw up (λ a. memcpy_lem size dst src m a (inl (ground (arith, up))), refl)
  | inr down ↦ rw down (λ a. copy_down_lem size dst src m a (ground (arith, down)), refl)
]

-- The outcome of a comparison: the blocks are equal, or they differ first at offset `k`, where the byte
-- decides.
abbrev pub Compared : (size a b : ℕ) → Memory → Sign → Type 0
Compared size a b m r =
    ((r ≡ equal) × ((j : ℕ) → j < size → m (a + j) ≡ m (b + j)))
    ⊎ ((k : ℕ) × (k < size)
        × ((j : ℕ) → j < k → m (a + j) ≡ m (b + j))
        × (m (a + k) ≢ m (b + k))
        × (r ≡ (if ltb (m (b + k)) (m (a + k)) then above else below)))

-- `memcmp` of any two blocks of memory says where they differ first, and how, or that they are equal.
pub memcmp_lem : (size a b : ℕ) (m : Memory) → Compared size a b m (memcmp size a b m)
unfolding memcmp
memcmp_lem zero a b m = inl (refl, λ j p. absurd (omega arith))
memcmp_lem (suc n) a b m =
    let first_a : a + 0 ≡ a = omega arith in
    let first_b : b + 0 ≡ b = omega arith in
    let shift : (j : ℕ)
        → j ≢ 0
        → m (a + 1 + (j - 1)) ≡ m (b + 1 + (j - 1))
        → m (a + j) ≡ m (b + j) =
      λ j ne q. ground (arith, ne, q) in
    elim (ℕ_discrete (m a) (m b)) [
      | no ne ↦ rw (ne→== (m a) (m b) ne) (
          inr (
            0,
            omega arith,
            λ j p. absurd (omega arith),
            rw (first_a, first_b) ne,
            rw (first_a, first_b) refl,
          ))
      | yes e ↦ rw (eq→== (m a) (m b) e) (elim (memcmp_lem n (a + 1) (b + 1) m) [
        | inl (r, same) ↦ inl (
          r,
          λ j p. elim (ℕ_discrete j 0) [
            | yes z ↦ rw (z, first_a, first_b) e
            | no nz ↦ shift j nz (same (j - 1) (omega (arith, nz)))
          ],
        )
        | inr (k, inside, same, ne, r) ↦
            let at_a : a + 1 + k ≡ a + (k + 1) = omega arith in
            let at_b : b + 1 + k ≡ b + (k + 1) = omega arith in
            inr (
              k + 1,
              omega (arith, inside),
              λ j p. elim (ℕ_discrete j 0) [
                | yes z ↦ rw (z, first_a, first_b) e
                | no nz ↦ shift j nz (same (j - 1) (omega (arith, nz)))
              ],
              rw (at_a, at_b) at ne,
              rw (at_a, at_b) at r,
            )
      ])
    ]
