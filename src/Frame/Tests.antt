-- ===== src/Frame/Tests.antt =====
-- Two frames, both accessed
use projectmod.Base.{ℕ, ◌≡◌, Bool, true, false, some, [], ◌∷◌}
use projectmod.Frame.{Frame, select_frame}
use projectmod.Frame.Clock.{Among, select_frame_lem}

abbrev first : Frame
first = record { page = 4096; owner_page = 1 }

abbrev second : Frame
second = record { page = 8192; owner_page = 2 }

abbrev used : ℕ → Bool
used p = true

select_frame_lem_example :
    (fe : Frame) × (b : ℕ → Bool) × (select_frame 2 (first ∷ second ∷ []) used ≡ some (fe, b))
    × Among fe (first ∷ second ∷ [])
    × (b fe.owner_page ≡ false)
    × ((p : ℕ) → used p ≡ false → b p ≡ false)
select_frame_lem_example = select_frame_lem first (second ∷ []) used
