-- ===== src/Sync/Turn.antt =====
-- The invariant of a lock, and how each step moves the turn from thread to thread.
use projectmod.Base.{
  ℕ, ◌+◌, ◌%◌, ◌^◌, ◌≡◌, refl, ◌⊎◌, inl, inr, Bool, true, false, Option, none, some, List, [], ◌∷◌,
  arith, if◌then◌else◌, ap, ◌∙◌,
}
use projectmod.Scheduler.Invariant.{occurs}
use projectmod.Sync.{Semaphore, sema_down_round, sema_up, Lock, lock_init, lock_held_by}
use projectmod.Sync.System.{
  Phase, outside, trying, asleep, passed, inside, leaving, System, move, wake, with_sema, start,
}

abbrev pub is_busy : Phase → Bool
is_busy passed = true
is_busy inside = true
is_busy leaving = true
is_busy _ = false

abbrev pub is_asleep : Phase → Bool
is_asleep asleep = true
is_asleep _ = false

abbrev pub is_trying : Phase → Bool
is_trying trying = true
is_trying _ = false

abbrev pub is_inside : Phase → Bool
is_inside inside = true
is_inside _ = false

-- The lock is open and no thread is past `sema_down`, and if threads are blocked, then another is
-- about to test the value; or it is taken, by the one thread `t` that is past it.
pub data Turn (s : System) : Type 0 where
  open_to :
      s.lock.semaphore.value ≡ 1
      → ((u : ℕ) → is_busy (s.phase u) ≡ false)
      → (s.lock.semaphore.waiters ≡ []) ⊎ ((t : ℕ) × (is_trying (s.phase t) ≡ true))
      → Turn s
  taken_by :
      (t : ℕ)
      → s.lock.semaphore.value ≡ 0
      → is_busy (s.phase t) ≡ true
      → ((u : ℕ) → is_busy (s.phase u) ≡ true → u ≡ t)
      → Turn s

pub record IsValid (s : System) : Type 0 where
  pub turn : Turn s
  pub holder : (t : ℕ) → lock_held_by t s.lock ≡ is_inside (s.phase t)
  pub sleepers :
      (t : ℕ) → occurs t s.lock.semaphore.waiters ≡ (if is_asleep (s.phase t) then 1 else 0)

pub start-IsValid : IsValid start
unfolding start lock_init lock_held_by
start-IsValid = record {
  turn = open_to refl (λ u. refl) (inl refl);
  holder = λ t. refl;
  sleepers = λ t. refl;
}

pub enter-Turn :
    {s : System} (t : ℕ)
    → s.phase t ≡ outside
    → Turn s
    → Turn (record s { phase = move t trying s.phase })
enter-Turn t e (open_to v free wakes) =
    open_to v (λ u. ground (arith, free u)) (inr (t, ground arith))
enter-Turn t e (taken_by o v b one) =
    taken_by o v (ground (arith, b, e)) (λ u. ground (arith, one u))

-- A thread that finds the value positive in `sema_down`, and one that finds it zero.
pub pass-Turn :
    {s : System} (t : ℕ) {sema : Semaphore}
    → s.phase t ≡ trying
    → sema_down_round t s.lock.semaphore ≡ (true, sema)
    → Turn s
    → Turn (record { lock = with_sema sema s.lock; phase = move t passed s.phase })
unfolding sema_down_round
pass-Turn t e d (open_to v free wakes) =
    taken_by t (ground (arith, d, v)) (ground arith) (λ u. ground (arith, free u))
pass-Turn t e d (taken_by o v b one) = absurd (ground (arith, d, v))

pub wait-Turn :
    {s : System} (t : ℕ) {sema : Semaphore}
    → s.phase t ≡ trying
    → sema_down_round t s.lock.semaphore ≡ (false, sema)
    → Turn s
    → Turn (record { lock = with_sema sema s.lock; phase = move t asleep s.phase })
unfolding sema_down_round
wait-Turn t e d (open_to v free wakes) = absurd (ground (arith, d, v))
wait-Turn t e d (taken_by o v b one) =
    taken_by o (ground (arith, d, v)) (ground (arith, b, e)) (λ u. ground (arith, one u))

-- A step of the thread that is past `sema_down` which keeps it there.
pub busy-Turn :
    {s : System} (t : ℕ) (p : Phase) (lock : Lock)
    → lock.semaphore ≡ s.lock.semaphore
    → is_busy (s.phase t) ≡ true
    → is_busy p ≡ true
    → Turn s
    → Turn (record { lock = lock; phase = move t p s.phase })
busy-Turn t p lock same e k (open_to v free wakes) = absurd (ground (arith, free t, e))
busy-Turn t p lock same e k (taken_by o v b one) =
    taken_by t (ap (λ (m : Semaphore). m.value) same ∙ v) (ground (arith, k))
      (λ u. ground (arith, one u, one t, e))

-- The two cases of `sema_up`.
pub sema_up-cases :
    (ws : List ℕ) (value : ℕ) {woken : Option ℕ} {sema : Semaphore}
    → sema_up (record { value = value; waiters = ws }) ≡ (woken, sema)
    → (sema.value ≡ (value + 1) % 2 ^ 32)
      × (((ws ≡ []) × (woken ≡ none) × (sema.waiters ≡ []))
          ⊎ ((w : ℕ) × (ws ≡ w ∷ sema.waiters) × (woken ≡ some w)))
unfolding sema_up
sema_up-cases [] value e = (ground (arith, e), inl (refl, ground (arith, e), ground (arith, e)))
sema_up-cases (w ∷ ws) value e = (ground (arith, e), inr (w, ground (arith, e), ground (arith, e)))

module _ (s : System) (t : ℕ) (woken : Option ℕ) (sema : Semaphore) (e : s.phase t ≡ leaving)
    (d : sema_up s.lock.semaphore ≡ (woken, sema))
    (sleep : (u : ℕ)
      → occurs u s.lock.semaphore.waiters ≡ (if is_asleep (s.phase u) then 1 else 0)) where
  pub up-Turn :
      Turn s
      → Turn (record { lock = with_sema sema s.lock; phase = wake woken (move t outside s.phase) })
  up-Turn (open_to v free wakes) = absurd (ground (arith, free t, e))
  up-Turn (taken_by o v b one) =
      let (count, cases) =
        sema_up-cases s.lock.semaphore.waiters s.lock.semaphore.value {woken = woken} {sema = sema}
          d in
      elim cases [
        | inl (empty, w, left) ↦
            rw w (open_to (omega (arith, count)) (λ u. ground (arith, one u, one t, e)) (inl left))
        | inr (w, front, is) ↦ rw is (
            open_to (omega (arith, count)) (λ u. ground (arith, one u, one t, e))
              (inr (w, ground arith)))
      ]

  pub up-sleepers :
      (u : ℕ)
      → occurs u sema.waiters ≡ (if is_asleep (wake woken (move t outside s.phase) u) then 1 else 0)
  up-sleepers u =
      let (count, cases) =
        sema_up-cases s.lock.semaphore.waiters s.lock.semaphore.value {woken = woken} {sema = sema}
          d in
      elim cases [
        | inl (empty, w, left) ↦ rw (w, left) (ground (arith, sleep u, empty, e))
        | inr (w, front, is) ↦
            rw is (ground (arith, sleep u, sleep w, ap (occurs u) front, ap (occurs w) front, e))
      ]
