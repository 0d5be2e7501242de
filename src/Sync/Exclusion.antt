-- ===== src/Sync/Exclusion.antt =====
-- Every step keeps the invariant of a lock.
use projectmod.Base.{
  ℕ, ◌≡◌, refl, ◌≢◌, inl, inr, true, false, Option, none, some, [], ◌∷◌, ◌++◌, arith, ap, ◌∙◌, sym,
  Bool-cases,
}
use projectmod.Scheduler.Invariant.{occurs, occurs-append}
use projectmod.Sync.{
  Semaphore, sema_down_round, sema_up, Lock, lock_acquire_own, lock_release_clear, lock_held_by,
}
use projectmod.Sync.System.{
  outside, trying, asleep, passed, inside, leaving, System, move, wake, with_sema, Step, enter,
  wait, pass, own, clear, up, Reach, here, next,
}
use projectmod.Sync.Turn.{
  is_busy, is_inside, Turn, open_to, taken_by, IsValid, start-IsValid, enter-Turn, pass-Turn,
  wait-Turn, busy-Turn, up-Turn, up-sleepers, sema_up-cases,
}

-- Two threads past `sema_down` are one.
pub Turn-unique :
    {s : System} (t u : ℕ)
    → Turn s
    → is_busy (s.phase t) ≡ true
    → is_busy (s.phase u) ≡ true
    → u ≡ t
Turn-unique t u (open_to v free wakes) p q = absurd (ground (arith, free t, p))
Turn-unique t u (taken_by o v b one) p q = one u q ∙ sym (one t p)

module _ {s : System} (valid : IsValid s) where
  -- If `t` is past `sema_down`, then no other thread is the holder.
  not_inside : (t u : ℕ) → is_busy (s.phase t) ≡ true → u ≢ t → is_inside (s.phase u) ≡ false
  not_inside t u b ne = elim (Bool-cases (is_inside (s.phase u))) [
    | inl i ↦ absurd (ne (Turn-unique t u valid.turn b (ground (arith, i))))
    | inr no_one ↦ no_one
  ]

  enter-IsValid :
      (t : ℕ) → s.phase t ≡ outside → IsValid (record s { phase = move t trying s.phase })
  unfolding lock_held_by
  enter-IsValid t e = record {
    turn = enter-Turn t e valid.turn;
    holder = λ u. ground (arith, valid.holder u, e);
    sleepers = λ u. ground (arith, valid.sleepers u, e);
  }

  pass-IsValid :
      (t : ℕ) {sema : Semaphore}
      → s.phase t ≡ trying
      → sema_down_round t s.lock.semaphore ≡ (true, sema)
      → IsValid (record { lock = with_sema sema s.lock; phase = move t passed s.phase })
  unfolding sema_down_round lock_held_by
  pass-IsValid t {sema} e d =
      let w : sema.waiters ≡ s.lock.semaphore.waiters = ground (arith, d) in
      record {
        turn = pass-Turn t e d valid.turn;
        holder = λ u. ground (arith, valid.holder u, e);
        sleepers = λ u. rw w (ground (arith, valid.sleepers u, e));
      }

  wait-IsValid :
      (t : ℕ) {sema : Semaphore}
      → s.phase t ≡ trying
      → sema_down_round t s.lock.semaphore ≡ (false, sema)
      → IsValid (record { lock = with_sema sema s.lock; phase = move t asleep s.phase })
  unfolding sema_down_round lock_held_by
  wait-IsValid t {sema} e d =
      let w : sema.waiters ≡ s.lock.semaphore.waiters ++ t ∷ [] = ground (arith, d) in
      record {
        turn = wait-Turn t e d valid.turn;
        holder = λ u. ground (arith, valid.holder u, e);
        sleepers = λ u.
            rw (w, occurs-append u s.lock.semaphore.waiters (t ∷ []))
              (ground (arith, valid.sleepers u, e));
      }

  own-IsValid :
      (t : ℕ)
      → s.phase t ≡ passed
      → IsValid (record { lock = lock_acquire_own t s.lock; phase = move t inside s.phase })
  unfolding lock_acquire_own lock_held_by
  own-IsValid t e = record {
    turn = busy-Turn t inside (lock_acquire_own t s.lock) refl (ground (arith, e)) refl valid.turn;
    holder = λ u. ground (arith, not_inside t u, e);
    sleepers = λ u. ground (arith, valid.sleepers u, e);
  }

  clear-IsValid :
      (t : ℕ) {lock : Lock}
      → s.phase t ≡ inside
      → lock_release_clear t s.lock ≡ some lock
      → IsValid (record { lock = lock; phase = move t leaving s.phase })
  unfolding lock_release_clear lock_held_by
  clear-IsValid t {lock} e d =
      let same : lock.semaphore ≡ s.lock.semaphore = ground (arith, d) in
      let empty : lock.holder ≡ none = ground (arith, d) in
      record {
        turn = busy-Turn t leaving lock same (ground (arith, e)) refl valid.turn;
        holder = λ u. rw empty (ground (arith, not_inside t u, e));
        sleepers = λ u. rw same (ground (arith, valid.sleepers u, e));
      }

  up-IsValid :
      (t : ℕ) {woken : Option ℕ} {sema : Semaphore}
      → s.phase t ≡ leaving
      → sema_up s.lock.semaphore ≡ (woken, sema)
      → IsValid
          (record { lock = with_sema sema s.lock; phase = wake woken (move t outside s.phase) })
  unfolding lock_held_by
  up-IsValid t {woken} {sema} e d = record {
    turn = up-Turn s t woken sema e d valid.sleepers valid.turn;
    holder = λ u.
        elim (sema_up-cases s.lock.semaphore.waiters s.lock.semaphore.value {woken = woken}
          {sema = sema} d).1 [
            | inl (empty, w, left) ↦ rw w (ground (arith, valid.holder u, e))
            | inr (w, front, is) ↦
                rw is (ground (arith, valid.holder u, valid.sleepers w, ap (occurs w) front, e))
          ];
    sleepers = up-sleepers s t woken sema e d valid.sleepers;
  }

Step-IsValid : {s s' : System} → Step s s' → IsValid s → IsValid s'
Step-IsValid (enter s t e c) v = enter-IsValid v t e
Step-IsValid (wait s t sema e d) v = wait-IsValid v t e d
Step-IsValid (pass s t sema e d) v = pass-IsValid v t e d
Step-IsValid (own s t e) v = own-IsValid v t e
Step-IsValid (clear s t lock e d) v = clear-IsValid v t e d
Step-IsValid (up s t woken sema e d) v = up-IsValid v t e d

-- The invariant holds in every state that threads reach by the steps of the lock, in any order.
pub Reach-IsValid : {s : System} → Reach s → IsValid s
Reach-IsValid here = start-IsValid
Reach-IsValid (next r st) = Step-IsValid st (Reach-IsValid r)
