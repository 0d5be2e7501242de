-- ===== src/Sync/Progress.antt =====
-- What the invariant of a lock gives: mutual exclusion, ASSERTs that hold, and progress.
use projectmod.Base.{
  ℕ, ◌≡◌, refl, ◌⊎◌, inl, inr, true, false, none, some, [], ◌∷◌, ◌++◌, ◌-◌, arith, ◌==◌, ap,
  Bool-cases,
}
use projectmod.Sync.{Semaphore, sema_down_round, lock_acquire_check, lock_release_clear}
use projectmod.Sync.System.{
  Phase, outside, trying, asleep, passed, inside, leaving, System, Step, enter, wait, pass, own,
  clear, up, actor, Reach,
}
use projectmod.Sync.Turn.{is_busy, is_asleep, is_trying, open_to, taken_by}
use projectmod.Sync.Exclusion.{Turn-unique, Reach-IsValid}
use projectmod.Scheduler.Invariant.{occurs}

-- In every reachable state at most one thread holds the lock.
pub mutual_exclusion :
    {s : System} (t u : ℕ) → Reach s → s.phase t ≡ inside → s.phase u ≡ inside → t ≡ u
mutual_exclusion t u r p q =
    Turn-unique u t (Reach-IsValid r).turn (ground (arith, q)) (ground (arith, p))

-- In every reachable state the ASSERTs on the holder hold: a thread outside the lock passes the one
-- in `lock_acquire`, and a thread inside passes the one in `lock_release`.
pub asserts_hold :
    {s : System} (t : ℕ)
    → Reach s
    → (s.phase t ≡ outside → lock_acquire_check t s.lock ≡ some tt)
      × (s.phase t ≡ inside → lock_release_clear t s.lock ≡ some (record s.lock { holder = none }))
unfolding lock_acquire_check lock_release_clear
asserts_hold {s} t r =
    let held = (Reach-IsValid r).holder t in (λ p. ground (arith, held), λ p. ground (arith, held))

-- Thread `t` has a step.
abbrev pub CanStep : ℕ → System → Type 0
CanStep t s = (s' : System) × (step : Step s s') × (actor step ≡ t)

-- A thread that is not blocked has a step.
down-CanStep : (s : System) (t : ℕ) → s.phase t ≡ trying → CanStep t s
unfolding sema_down_round actor
down-CanStep s t p =
    let sema : Semaphore = s.lock.semaphore in
    elim (Bool-cases (sema.value == 0)) [
      | inl closed ↦
          (_, wait s t (record sema { waiters = sema.waiters ++ t ∷ [] }) p (rw closed), refl)
      | inr free ↦ (_, pass s t (record sema { value = sema.value - 1 }) p (rw free), refl)
    ]

awake-CanStep :
    {s : System} (t : ℕ) (p : Phase) → Reach s → s.phase t ≡ p → is_asleep p ≡ false → CanStep t s
unfolding actor
awake-CanStep {s} t outside r e a = (_, enter s t e ((asserts_hold t r).0 e), refl)
awake-CanStep {s} t trying r e a = down-CanStep s t e
awake-CanStep {s} t asleep r e a = cc
awake-CanStep {s} t passed r e a = (_, own s t e, refl)
awake-CanStep {s} t inside r e a = (_, clear s t _ e ((asserts_hold t r).1 e), refl)
awake-CanStep {s} t leaving r e a = (_, up s t _ _ e refl, refl)

-- No wake-up is lost and the lock is free of deadlock: in a reachable state where a thread is
-- blocked in `sema_down`, there is a thread on its way through the lock that is not blocked, and
-- there is a step of that very thread.
pub no_deadlock :
    {s : System} (t : ℕ)
    → Reach s
    → s.phase t ≡ asleep
    → (u : ℕ) × ((is_trying (s.phase u) ≡ true) ⊎ (is_busy (s.phase u) ≡ true)) × CanStep u s
no_deadlock {s} t r e =
    let v = Reach-IsValid r in
    elim v.turn [
      | open_to one free (inl empty) ↦ absurd (ground (arith, v.sleepers t, ap (occurs t) empty, e))
      | open_to one free (inr (u, tries)) ↦
          (u, inl tries, awake-CanStep u (s.phase u) r refl (ground arith))
      | taken_by o none_left b only ↦ (o, inr b, awake-CanStep o (s.phase o) r refl (ground arith))
    ]
