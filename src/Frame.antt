-- ===== src/Frame.antt =====
-- vm/frame.c: the choice of the frame to evict. The frames are taken in the order of the iterator over
-- their hash table; the accessed bit of a frame is that of its owner's page, so that two frames may
-- share one.
mod Clock
mod Tests
use projectmod.Base.{
  ℕ, zero, suc, Bool, true, false, Option, none, some, List, [], ◌∷◌, ◌==◌, if◌then◌else◌,
}

-- `struct frame_entry`: the frame's page, and the page of its owner that is in it.
pub record Frame : Type 0 where
  pub page : ℕ
  pub owner_page : ℕ

-- pagedir_set_accessed (…, false)
abbrev pub clear_accessed : (ℕ → Bool) → ℕ → ℕ → Bool
clear_accessed accessed p q = if q == p then false else accessed q

-- `while (hash_next (&itr))`: the frame at which the loop breaks, and the accessed bits.
unfoldable pub pass : List Frame → (ℕ → Bool) → Option Frame × (ℕ → Bool)
pass [] accessed = (none, accessed)
pass (fe ∷ rest) accessed = elim (accessed fe.owner_page) [
  | true ↦ pass rest (clear_accessed accessed fe.owner_page)
  | false ↦ (some fe, accessed)
]

-- `select_frame_to_evict`, with fuel for its passes; `none` is that it goes on.
unfoldable pub select_frame : ℕ → List Frame → (ℕ → Bool) → Option (Frame × (ℕ → Bool))
unfolding pass
select_frame zero frames accessed = none
select_frame (suc n) frames accessed =
    let (found, accessed') = pass frames accessed in
    elim found [ none ↦ select_frame n frames accessed' | some fe ↦ some (fe, accessed') ]
