-- ===== src/Malloc/Calls.antt =====
-- `free` after `malloc`.
use projectmod.Base.{
  ℕ, ◌+◌, ◌-◌, ◌<◌, ◌≡◌, refl, false, some, List, ◌∷◌, arith, ◌==◌, leb, ◌∙◌, ap, sym, eq→==, ne→==,
}
use native.Mathlib.Decide.{ℕ_discrete}
use projectmod.Malloc.{
  Desc, Arena, Heap, put_list, put_arena, find_desc, desc_of, block_to_arena, fill_list, pop_block,
  take_block, malloc, free_block, free_in_arena, free,
}
use projectmod.Malloc.Blocks.{HasArena, block_at, block_at_page, block_at-is_aligned}

-- The heaps have the same free lists and the same arenas.
pub record SameHeap (h h' : Heap) : Type 0 where
  pub lists : (k : ℕ) → h'.free_list k ≡ h.free_list k
  pub arenas : (p : ℕ) → h'.arenas p ≡ h.arenas p

-- What `block_to_arena` says of a block.
find_lem :
    {descs : List Desc} {k : ℕ} {d : Desc} {p : ℕ} {a : Arena} {h : Heap} (idx : ℕ)
    → HasArena descs k d p a h
    → idx < d.blocks_per_arena
    → block_to_arena descs (block_at d p idx) h ≡ some (p, a, some d)
unfolding block_to_arena desc_of
find_lem {descs} {k} {d} {p} {a} {h} idx arena inside =
    let v = arena.valid in
    let not_null : (p == 0) ≡ false = ground (arith, arena.above) in
    rw
      (
        block_at_page v p idx arena.aligned inside,
        not_null,
        arena.there,
        arena.owner,
        arena.desc,
        block_at-is_aligned v p idx arena.aligned inside,
      )
      refl

-- The block in front of a free list is taken, and given back.
module _ {descs : List Desc} {k : ℕ} {d : Desc} {p : ℕ} {a : Arena} {h : Heap} (idx : ℕ)
    (rest : List ℕ) (arena : HasArena descs k d p a h) (inside : idx < d.blocks_per_arena)
    (front : h.free_list k ≡ block_at d p idx ∷ rest) where
  taken_arena : Arena
  taken_arena = record a { free_cnt = a.free_cnt - 1 }

  taken : Heap
  taken = record {
    free_list = put_list k rest h.free_list;
    arenas = put_arena p (some taken_arena) h.arenas;
  }

  take_lem : (page : ℕ) → take_block page k descs d h ≡ some (some (block_at d p idx), taken)
  unfolding take_block fill_list pop_block taken taken_arena
  take_lem page =
      let filled : fill_list page k d (h.free_list k) h ≡ some h =
        ap (λ l. fill_list page k d l h) front in
      rw (filled, take_block)
        (ap (λ l. pop_block descs k l h) front ∙ rw (find_lem idx arena inside) refl)

  taken-HasArena : HasArena descs k d p taken_arena taken
  unfolding taken taken_arena
  taken-HasArena = record {
    desc = arena.desc;
    valid = arena.valid;
    owner = arena.owner;
    there = rw (eq→== p p refl) refl;
    aligned = arena.aligned;
    above = arena.above;
  }

  given_back : Heap
  given_back = record {
    free_list = put_list k (block_at d p idx ∷ taken.free_list k) taken.free_list;
    arenas =
        put_arena p (some (record taken_arena { free_cnt = taken_arena.free_cnt + 1 }))
          taken.arenas;
  }

  free_lem :
      0 < a.free_cnt
      → a.free_cnt < d.blocks_per_arena
      → free descs (block_at d p idx) taken ≡ some given_back
  unfolding free free_in_arena free_block given_back
  free_lem used others =
      let stays : leb d.blocks_per_arena (taken_arena.free_cnt + 1) ≡ false =
        unfold taken_arena in ground (arith, used, others) in
      rw (find_lem idx taken-HasArena inside) (
        ap (λ o. free_in_arena p (block_at d p idx) taken_arena o (some d) taken)
          taken-HasArena.owner
        ∙ rw stays refl)

  given_back-SameHeap : 0 < a.free_cnt → SameHeap h given_back
  unfolding given_back taken taken_arena
  given_back-SameHeap used = record {
    lists = λ i. elim (ℕ_discrete i k) [
      | yes e ↦ rw (e, eq→== k k refl) (sym front)
      | no ne ↦ rw (ne→== i k ne) refl
    ];
    arenas = λ q. elim (ℕ_discrete q p) [
      | yes e ↦
          let same : a.free_cnt - 1 + 1 ≡ a.free_cnt = omega arith in
          rw (e, eq→== p p refl) (ap (λ n. some (record a { free_cnt = n })) same ∙ sym arena.there)
      | no ne ↦ rw (ne→== q p ne) refl
    ];
  }

-- A request of at most 1024 bytes when the descriptor has a free block, in an arena of which other blocks
-- are in use: `malloc` returns the first one, and `free` of it leaves the heap as it was.
pub free-malloc :
    {descs : List Desc} {k : ℕ} {d : Desc} {p : ℕ} {a : Arena} {h : Heap} (page pages size idx : ℕ)
    (rest : List ℕ)
    → 0 < size
    → find_desc size 0 descs ≡ some (k, d)
    → HasArena descs k d p a h
    → idx < d.blocks_per_arena
    → h.free_list k ≡ block_at d p idx ∷ rest
    → 0 < a.free_cnt
    → a.free_cnt < d.blocks_per_arena
    → (h' h'' : Heap) × (malloc descs page pages size h ≡ some (some (block_at d p idx), h'))
      × (free descs (block_at d p idx) h' ≡ some h'')
      × SameHeap h h''
unfolding malloc
free-malloc {descs} {k} {d} {p} {a} {h} page pages size idx rest pos fits arena inside first used
      others =
    let some_bytes : (size == 0) ≡ false = ground (arith, pos) in
    (
      taken idx rest arena inside first,
      given_back idx rest arena inside first,
      rw (some_bytes, fits) (take_lem idx rest arena inside first page),
      free_lem idx rest arena inside first used others,
      given_back-SameHeap idx rest arena inside first used,
    )
