-- ===== src/Malloc/Blocks.antt =====
-- The blocks of an arena.
use projectmod.Base.{
  ℕ, zero, suc, ◌+◌, ◌-◌, ◌*◌, ◌/◌, ◌%◌, ◌≤◌, ◌<◌, ◌≡◌, refl, inl, inr, true, false, some, List, [],
  ◌∷◌, arith, ◌==◌, ltb, get_elem?, subst, eq→==, lt→ltb, Bool-cases,
}
use native.Mathlib.Nat.{div-add-mod', le-div_iff_mul-le, mul-mod_left}
use projectmod.Palloc.{page_size, pg_ofs}
use projectmod.Malloc.{
  Desc, Arena, Heap, arena_bytes, arena_to_block, is_aligned, desc_of, block_to_arena, init_descs,
}

-- A descriptor with room for a block, whose blocks fit in a page behind the arena.
pub record IsDesc (d : Desc) : Type 0 where
  pub some_bytes : 0 < d.block_size
  pub some_block : 0 < d.blocks_per_arena
  pub fits : d.blocks_per_arena * d.block_size + arena_bytes ≤ page_size

-- The address of block `idx` in the arena at `p`.
abbrev pub block_at : Desc → (p idx : ℕ) → ℕ
block_at d p idx = p + arena_bytes + idx * d.block_size

-- Where a descriptor of this index has an arena.
pub record HasArena (descs : List Desc) (k : ℕ) (d : Desc) (p : ℕ) (a : Arena) (h : Heap)
    : Type 0 where
  pub desc : get_elem? descs k ≡ some d
  pub valid : IsDesc d
  pub owner : a.desc ≡ some k
  pub there : h.arenas p ≡ some a
  pub aligned : p % page_size ≡ 0
  pub above : 0 < p

inside_lem : (n m b : ℕ) → n < m → n * b + b ≤ m * b
inside_lem n m b h = grind arith

module _ {d : Desc} (v : IsDesc d) (p idx : ℕ) (aligned : p % page_size ≡ 0)
    (in_arena : idx < d.blocks_per_arena) where
  pub block_at-within :
      (p + arena_bytes ≤ block_at d p idx) × (block_at d p idx + d.block_size ≤ p + page_size)
  block_at-within = omega (arith, v.fits, inside_lem idx d.blocks_per_arena d.block_size in_arena)

  pub block_at-pg_ofs : pg_ofs (block_at d p idx) ≡ arena_bytes + idx * d.block_size
  block_at-pg_ofs =
      omega (arith, v.fits, v.some_bytes, inside_lem idx d.blocks_per_arena d.block_size in_arena)

  pub block_at_page : block_at d p idx - pg_ofs (block_at d p idx) ≡ p
  block_at_page = omega (arith, block_at-pg_ofs)

  pub block_at-is_aligned : is_aligned (some d) (block_at d p idx) ≡ true
  unfolding is_aligned
  block_at-is_aligned =
      let ofs : pg_ofs (block_at d p idx) - arena_bytes ≡ idx * d.block_size =
        omega (arith, block_at-pg_ofs) in
      rw ofs (eq→== (idx * d.block_size % d.block_size) 0 (mul-mod_left idx d.block_size))

-- Blocks of different indices do not overlap.
pub blocks_apart : (d : Desc) (p i j : ℕ) → i < j → block_at d p i + d.block_size ≤ block_at d p j
blocks_apart d p i j h = omega (arith, inside_lem i j d.block_size h)

-- The block of an index in an arena lies in the arena's page, behind its header, apart from the blocks
-- of other indices, and `block_to_arena` leads back from it to the arena and its descriptor.
pub block_to_arena-arena_to_block :
    {descs : List Desc} {k : ℕ} {d : Desc} {p : ℕ} {a : Arena} {h : Heap} (idx : ℕ)
    → HasArena descs k d p a h
    → idx < d.blocks_per_arena
    → (b : ℕ) × (arena_to_block d p idx ≡ some b)
      × (block_to_arena descs b h ≡ some (p, a, some d))
      × (p + arena_bytes ≤ b)
      × (b + d.block_size ≤ p + page_size)
      × ((j c : ℕ) → idx < j → arena_to_block d p j ≡ some c → b + d.block_size ≤ c)
unfolding arena_to_block block_to_arena desc_of
block_to_arena-arena_to_block {descs} {k} {d} {p} {a} {h} idx arena inside =
    let v = arena.valid in
    let (low, high) = block_at-within v p idx arena.aligned inside in
    let not_null : (p == 0) ≡ false = ground (arith, arena.above) in
    (
      block_at d p idx,
      rw (not_null, lt→ltb idx d.blocks_per_arena inside) refl,
      rw
          (
            block_at_page v p idx arena.aligned inside,
            not_null,
            arena.there,
            arena.owner,
            arena.desc,
            block_at-is_aligned v p idx arena.aligned inside,
          )
          refl,
      low,
      high,
      λ j c later e. ground (arith, e, not_null, blocks_apart d p idx j later),
    )

init_IsDesc :
    (s : ℕ)
    → 0 < s
    → s < page_size / 2
    → IsDesc (record { block_size = s; blocks_per_arena = (page_size - arena_bytes) / s })
init_IsDesc s pos small = record {
  some_bytes = pos;
  some_block =
      (le-div_iff_mul-le {k = s} {x = 1} {y = page_size - arena_bytes} pos).1 (omega arith);
  fits = omega (arith, div-add-mod' (page_size - arena_bytes) s);
}

nothing : (k : ℕ) (d : Desc) → get_elem? {A = Desc} [] k ≡ some d → ⊥
nothing k d e = cc

first :
    (n s : ℕ) (d : Desc)
    → get_elem?
        (record { block_size = s; blocks_per_arena = (page_size - arena_bytes) / s }
          ∷ init_descs n (s * 2))
        0
      ≡ some d
    → record { block_size = s; blocks_per_arena = (page_size - arena_bytes) / s } ≡ d
first n s d e = ground (arith, e)

-- The descriptors of `malloc_init`.
pub init_descs-IsDesc :
    (n s k : ℕ) {d : Desc} → 0 < s → get_elem? (init_descs n s) k ≡ some d → IsDesc d
unfolding init_descs
init_descs-IsDesc zero s k pos e = cc
init_descs-IsDesc (suc n) s zero {d} pos e = elim (Bool-cases (ltb s (page_size / 2))) [
  | inr out ↦ absurd (nothing 0 d (rw (out, init_descs) at e))
  | inl small ↦
      subst IsDesc (first n s d (rw (small, init_descs) at e))
        (init_IsDesc s pos (ground (arith, small)))
]
init_descs-IsDesc (suc n) s (suc k) {d} pos e = elim (Bool-cases (ltb s (page_size / 2))) [
  | inr out ↦ absurd (nothing (suc k) d (rw (out, init_descs) at e))
  | inl small ↦ init_descs-IsDesc n (s * 2) k (omega arith) (rw (small, init_descs) at e)
]
