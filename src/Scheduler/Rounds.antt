-- ===== src/Scheduler/Rounds.antt =====
-- Round robin: a ready thread gets the processor once those before it in the queue have had it.
use projectmod.Base.{
  ℕ, zero, suc, ◌≡◌, Option, some, List, [], ◌∷◌, ◌++◌, arith, ◌>>=◌, get_elem?, ◌∙◌, ap,
}
use projectmod.Scheduler.{Sched, yield, queue_current, next_thread}
use projectmod.Scheduler.Invariant.{IsValid}
use projectmod.Scheduler.Switch.{yield_lem}

-- `n` calls of `thread_yield`, each by the thread that runs then.
unfoldable pub yields : ℕ → Sched → Option Sched
yields zero s = some s
yields (suc n) s = yield s >>= yields n

get_elem?-append :
    (xs ys : List ℕ) (k t : ℕ) → get_elem? xs k ≡ some t → get_elem? (xs ++ ys) k ≡ some t
get_elem?-append [] ys k t e = cc
get_elem?-append (x ∷ xs) ys zero t e = e
get_elem?-append (x ∷ xs) ys (suc k) t e = get_elem?-append xs ys k t e

-- The place of a thread in the queue of a yield, whether or not the current thread joins it.
queue_current-get :
    (s : Sched) (k t : ℕ)
    → get_elem? s.ready_list k ≡ some t
    → get_elem? (queue_current s) k ≡ some t
queue_current-get s k t e = ground (arith, get_elem?-append s.ready_list (s.current ∷ []) k t e)

-- The head of a queue is chosen next, and the others move up.
next-head :
    (queue : List ℕ) (idle t : ℕ) → get_elem? queue 0 ≡ some t → (next_thread queue idle).0 ≡ t
unfolding next_thread
next-head [] idle t e = cc
next-head (x ∷ r) idle t e = cc

rest-get :
    (queue : List ℕ) (idle k t : ℕ)
    → get_elem? queue (suc k) ≡ some t
    → get_elem? (next_thread queue idle).1 k ≡ some t
unfolding next_thread
rest-get [] idle k t e = cc
rest-get (x ∷ r) idle k t e = e

-- From a state that meets the invariant, the thread at index `k` of the ready queue is the running
-- one after `k + 1` yields, all of which return.
pub yields_reach :
    (k t : ℕ) {s : Sched}
    → IsValid s
    → get_elem? s.ready_list k ≡ some t
    → (s' : Sched) × (yields (suc k) s ≡ some s') × (s'.current ≡ t) × IsValid s'
unfolding yields
yields_reach zero t {s} valid e =
    let (s', ok, did, valid') = yield_lem valid in
    (
      s',
      rw ok,
      did.current ∙ next-head (queue_current s) s.idle_thread t (queue_current-get s 0 t e),
      valid',
    )
yields_reach (suc k) t {s} valid e =
    let (s', ok, did, valid') = yield_lem valid in
    let place : get_elem? s'.ready_list k ≡ some t =
      ap (λ q. get_elem? q k) did.ready_list
      ∙ rest-get (queue_current s) s.idle_thread k t (queue_current-get s (suc k) t e) in
    let (s'', ok', now, valid'') = yields_reach k t valid' place in (s'', rw ok ok', now, valid'')
