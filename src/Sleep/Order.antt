-- ===== src/Sleep/Order.antt =====
-- The list of sleeping threads stays in the order of their wake-up times, and a tick wakes those
-- whose time has passed and no other.
use projectmod.Base.{
  ℕ, zero, suc, ◌+◌, ◌-◌, ◌≤◌, ◌<◌, ◌≡◌, refl, inl, inr, List, [], ◌∷◌, ◌++◌, arith, ltb, leb, ◌==◌,
  if◌then◌else◌, length, Bool-cases, ap,
}
use projectmod.Sleep.{Sleeper, time_at, position, list_insert, thread_sleep, wake_loop}

-- The times of a list do not decrease.
abbrev pub IsSorted : List Sleeper → Type 0
IsSorted list = (i j : ℕ) → i ≤ j → j < length list → time_at list i ≤ time_at list j

-- The index that the loop finds: the elements from there on are later, and the one before is not.
record Found (list : List Sleeper) (until n k : ℕ) : Type 0 where
  bound : k ≤ n
  after : (i : ℕ) → k ≤ i → i < n → until < time_at list i
  before : (i : ℕ) → suc i ≡ k → time_at list i ≤ until

position-Found : (list : List Sleeper) (until n : ℕ) → Found list until n (position list until n)
unfolding position
position-Found list until zero = record {
  bound = omega arith;
  after = λ i p q. absurd (omega arith);
  before = λ i e. absurd (omega arith);
}
position-Found list until (suc n) = elim (Bool-cases (leb (time_at list n) until)) [
  | inl here ↦ rw here (record {
    bound = omega arith;
    after = λ i p q. absurd (omega arith);
    before = λ i e. let same : i ≡ n = omega arith in rw same (ground (arith, here));
  })
  | inr later ↦
      let rest = position-Found list until n in
      rw later (record {
        bound = omega (arith, rest.bound);
        after = λ i p q. elim (Bool-cases (i == n)) [
          | inl last ↦ let same : i ≡ n = ground (arith, last) in rw same (ground (arith, later))
          | inr inner ↦ rest.after i p (ground (arith, inner))
        ];
        before = rest.before;
      })
]

time_at-list_insert :
    (k : ℕ) (s : Sleeper) (list : List Sleeper) (j : ℕ)
    → k ≤ length list
    → time_at (list_insert k s list) j
      ≡ (if ltb j k then time_at list j else if j == k then s.wakeup_time else time_at list (j - 1))
unfolding list_insert
time_at-list_insert zero s list zero h = refl
time_at-list_insert zero s list (suc j) h =
    let e : suc j - 1 ≡ j = omega arith in rw e (ground arith)
time_at-list_insert (suc k) s [] j h = absurd (omega arith)
time_at-list_insert (suc k) s (x ∷ list) zero h = ground arith
time_at-list_insert (suc k) s (x ∷ list) (suc zero) h =
    ground (arith, time_at-list_insert k s list zero)
time_at-list_insert (suc k) s (x ∷ list) (suc (suc j)) h =
    let e : suc (suc j) - 1 ≡ suc j = omega arith in
    let e' : suc j - 1 ≡ j = omega arith in
    rw e (ground (arith, rw e' at (time_at-list_insert k s list (suc j) (omega arith))))

length-list_insert :
    (k : ℕ) (s : Sleeper) (list : List Sleeper) → length (list_insert k s list) ≡ suc (length list)
unfolding list_insert
length-list_insert zero s list = refl
length-list_insert (suc k) s [] = refl
length-list_insert (suc k) s (x ∷ list) = ap suc (length-list_insert k s list)

-- How many elements of a list are of thread `t` and time `until`.
abbrev pub entries : ℕ → ℕ → List Sleeper → ℕ
entries t until [] = 0
entries t until (s ∷ list) =
    (if s.thread == t then if s.wakeup_time == until then 1 else 0 else 0) + entries t until list

entries-list_insert :
    (t until k : ℕ) (s : Sleeper) (list : List Sleeper)
    → entries t until (list_insert k s list) ≡ entries t until (s ∷ list)
unfolding list_insert
entries-list_insert t until zero s list = refl
entries-list_insert t until (suc k) s [] = refl
entries-list_insert t until (suc k) s (x ∷ list) =
    omega (arith, entries-list_insert t until k s list)

inserted-IsSorted :
    (k : ℕ) (s : Sleeper) (list : List Sleeper)
    → IsSorted list
    → Found list s.wakeup_time (length list) k
    → IsSorted (list_insert k s list)
inserted-IsSorted k s list sorted found i j h p =
    let size = length-list_insert k s list in
    let low : (m : ℕ) → m < k → time_at list m ≤ s.wakeup_time = λ m q.
      let last : suc (k - 1) ≡ k = omega arith in
      let step = sorted m (k - 1) (omega arith) (omega (arith, found.bound)) in
      omega (arith, step, found.before (k - 1) last) in
    rw (time_at-list_insert k s list i found.bound, time_at-list_insert k s list j found.bound)
      (ground (
        arith,
        size,
        low i,
        sorted i j,
        sorted i (j - 1),
        sorted (i - 1) (j - 1),
        found.after (j - 1),
        found.bound,
      ))

-- A thread that goes to sleep is put into the sorted list once, with its time; the list stays sorted
-- and every other entry stays.
pub thread_sleep_lem :
    (t until : ℕ) (list : List Sleeper)
    → IsSorted list
    → IsSorted (thread_sleep t until list)
      × ((u at_time : ℕ)
          → entries u at_time (thread_sleep t until list)
            ≡ (if t == u then if until == at_time then 1 else 0 else 0) + entries u at_time list)
unfolding thread_sleep
thread_sleep_lem t until list sorted =
    let k = position list until (length list) in
    let s : Sleeper = record { wakeup_time = until; thread = t } in
    (
      inserted-IsSorted k s list sorted (position-Found list until (length list)),
      λ u at_time. entries-list_insert u at_time k s list,
    )

-- The rest of a sorted list is sorted.
tail-IsSorted : (s : Sleeper) (list : List Sleeper) → IsSorted (s ∷ list) → IsSorted list
tail-IsSorted s list sorted i j h p = sorted (suc i) (suc j) (omega arith) (omega arith)

woken_before :
    (now : ℕ) (s : Sleeper) (woken : List Sleeper)
    → s.wakeup_time < now
    → ((i : ℕ) → i < length woken → time_at woken i < now)
    → (i : ℕ) → i < suc (length woken)
    → time_at (s ∷ woken) i < now
woken_before now s woken h all zero p = h
woken_before now s woken h all (suc i) p = all i (omega arith)

-- From a sorted list, the tick at time `now` wakes exactly the threads whose wake-up time is before
-- `now`: those that it wakes, in the order of the list, and those that are left, still sorted, make
-- up the list.
pub wake_loop_lem :
    (now : ℕ) (list : List Sleeper)
    → IsSorted list
    → ((wake_loop now list).0 ++ (wake_loop now list).1 ≡ list)
      × ((i : ℕ) → i < length (wake_loop now list).0 → time_at (wake_loop now list).0 i < now)
      × ((i : ℕ) → i < length (wake_loop now list).1 → now ≤ time_at (wake_loop now list).1 i)
      × IsSorted (wake_loop now list).1
unfolding wake_loop
wake_loop_lem now [] sorted =
    (refl, λ i p. absurd (omega arith), λ i p. absurd (omega arith), sorted)
wake_loop_lem now (s ∷ list) sorted = elim (Bool-cases (ltb s.wakeup_time now)) [
  | inl early ↦
      let (whole, before, after, rest) = wake_loop_lem now list (tail-IsSorted s list sorted) in
      rw early (
        ap (λ l. s ∷ l) whole,
        woken_before now s (wake_loop now list).0 (ground (arith, early)) before,
        after,
        rest,
      )
  | inr late ↦
      rw late (refl, λ i p. absurd (omega arith), λ i p. ground (arith, sorted 0 i, late), sorted)
]
