-- ===== src/Frame/Clock.antt =====
-- The passes of `select_frame_to_evict`.
use projectmod.Base.{
  ℕ, zero, suc, ◌≡◌, refl, ◌⊎◌, inl, inr, Bool, false, Option, none, some, List, [], ◌∷◌, arith,
  Bool-cases, ◌∙◌, ap,
}
use projectmod.Frame.{Frame, clear_accessed, pass, select_frame}

-- A frame of the list
abbrev pub Among : Frame → List Frame → Type 0
Among fe [] = ⊥
Among fe (f ∷ l) = (fe ≡ f) ⊎ Among fe l

-- A pass only clears bits.
abbrev Cleared : (ℕ → Bool) → (ℕ → Bool) → Type 0
Cleared a b = (p : ℕ) → a p ≡ false → b p ≡ false

-- A pass breaks at a frame whose bit is clear, with the bits of the frames before it clear; or it
-- clears the bits of all frames, all of which were set at the time.
abbrev Passed : List Frame → (ℕ → Bool) → Option Frame × (ℕ → Bool) → Type 0
Passed l a r =
    ((fe : Frame) × (r.0 ≡ some fe) × Among fe l × (r.1 fe.owner_page ≡ false) × Cleared a r.1)
    ⊎ ((r.0 ≡ none) × Cleared a r.1 × ((fe : Frame) → Among fe l → r.1 fe.owner_page ≡ false))

pass_lem : (l : List Frame) (a : ℕ → Bool) → Passed l a (pass l a)
unfolding pass
pass_lem [] a = inr (refl, λ p h. h, λ fe h. absurd h)
pass_lem (f ∷ l) a = elim (Bool-cases (a f.owner_page)) [
  | inr clear ↦ rw (clear, pass) (inl (f, refl, inl refl, clear, λ p h. h))
  | inl set ↦
      rw (set, pass)
        (elim (pass_lem l (clear_accessed a f.owner_page)) [
          | inl (fe, found, among, bit, less) ↦
              inl (fe, found, inr among, bit, λ p h. less p (ground (arith, h)))
          | inr (found, less, all) ↦ inr (
            found,
            λ p h. less p (ground (arith, h)),
            λ fe h. elim h [
              | inl e ↦ rw e (less f.owner_page (ground arith))
              | inr later ↦ all fe later
            ],
          )
        ])
]

-- With the first frame's bit clear the pass breaks there.
pass_first :
    (f : Frame) (l : List Frame) (a : ℕ → Bool)
    → a f.owner_page ≡ false
    → pass (f ∷ l) a ≡ (some f, a)
unfolding pass
pass_first f l a clear = rw (clear, pass) refl

-- `select_frame_to_evict` among at least one frame returns in two passes: a frame of the table whose
-- accessed bit is clear. No bit is set meanwhile.
pub select_frame_lem :
    (f : Frame) (l : List Frame) (a : ℕ → Bool)
    → (fe : Frame) × (b : ℕ → Bool) × (select_frame 2 (f ∷ l) a ≡ some (fe, b))
      × Among fe (f ∷ l)
      × (b fe.owner_page ≡ false)
      × ((p : ℕ) → a p ≡ false → b p ≡ false)
unfolding select_frame
select_frame_lem f l a = elim (pass_lem (f ∷ l) a) [
  | inl (fe, found, among, bit, less) ↦
      rw (found, select_frame) (fe, (pass (f ∷ l) a).1, refl, among, bit, less)
  | inr (found, less, all) ↦
      let b = (pass (f ∷ l) a).1 in
      let clear = all f (inl refl) in
      let again = pass_first f l b clear in
      let same : (p : ℕ) → (pass (f ∷ l) b).1 p ≡ b p = λ p. ap (λ r. r.1 p) again in
      rw (found, select_frame)
        (rw (ap (λ r. r.0) again, select_frame)
          (
            f,
            (pass (f ∷ l) b).1,
            refl,
            inl refl,
            same f.owner_page ∙ clear,
            λ p h. same p ∙ less p h,
          ))
]

-- Without a frame it never returns, however long it goes on: its caller's PANIC is not reached.
pub select_frame-empty : (n : ℕ) (a : ℕ → Bool) → select_frame n [] a ≡ none
unfolding select_frame pass
select_frame-empty zero a = refl
select_frame-empty (suc n) a = select_frame-empty n a
