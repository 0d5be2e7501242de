-- ===== src/Intq/Queue.antt =====
-- The circular buffer implements a queue of at most 63 bytes.
use projectmod.Base.{
  ℕ, zero, suc, ◌+◌, ◌-◌, ◌%◌, ◌<◌, ◌≡◌, refl, ◌≢◌, ◌⊎◌, inl, inr, true, false, Option, none, some,
  List, [], ◌∷◌, ◌++◌, arith, ◌==◌, if◌then◌else◌, Bool-cases, length, ap,
}
use projectmod.Intq.{
  Intq, next, empty, full, wait_not_empty, wait_not_full, signal_not_empty, signal_not_full,
  getc_round, putc_round,
}

-- Both ends stand in the buffer.
pub record IsValid (q : Intq) : Type 0 where
  pub head : q.head < 64
  pub tail : q.tail < 64

-- The number of bytes in the queue.
abbrev pub count : Intq → ℕ
count q = (q.head + 64 - q.tail) % 64

-- The `n` bytes of a buffer from position `pos` on, round its end.
unfoldable pub bytes_from : ℕ → ℕ → (ℕ → ℕ) → List ℕ
bytes_from zero pos buf = []
bytes_from (suc n) pos buf = buf pos ∷ bytes_from n (next pos) buf

-- The bytes in the queue, the oldest first.
unfoldable pub contents : Intq → List ℕ
contents q = bytes_from (count q) q.tail q.buf

length-bytes_from : (n pos : ℕ) (buf : ℕ → ℕ) → length (bytes_from n pos buf) ≡ n
unfolding bytes_from
length-bytes_from zero pos buf = refl
length-bytes_from (suc n) pos buf = ap suc (length-bytes_from n (next pos) buf)

-- A byte stored right behind the last one.
bytes_from-store :
    (n pos head byte : ℕ) (buf : ℕ → ℕ)
    → pos < 64
    → n < 64
    → head ≡ (pos + n) % 64
    → bytes_from (suc n) pos (λ i. if i == head then byte else buf i)
      ≡ bytes_from n pos buf ++ byte ∷ []
unfolding bytes_from
bytes_from-store zero pos head byte buf p h e =
    let here : (pos == head) ≡ true = ground arith in rw here refl
bytes_from-store (suc n) pos head byte buf p h e =
    let elsewhere : (pos == head) ≡ false = ground arith in
    rw
      (
        elsewhere,
        bytes_from-store n (next pos) head byte buf (omega arith) (omega arith) (omega arith),
      )
      refl

-- What a round of `intq_putc` does: nothing, if the queue holds 63 bytes, and else it adds the byte
-- at the end and unblocks the thread that waits for a byte, if there is one.
abbrev pub Put : ℕ → Intq → Option (Option (Option ℕ × Intq)) → Type 0
Put byte q r =
    ((r ≡ some none) × (length (contents q) ≡ 63))
    ⊎ ((length (contents q) < 63)
        × ((q' : Intq) × (r ≡ some (some (q.not_empty, q')))
            × IsValid q'
            × (contents q' ≡ contents q ++ byte ∷ [])
            × (q'.not_empty ≡ none)
            × (q'.not_full ≡ q.not_full)))

-- What a round of `intq_getc` does: nothing, if the queue is empty, and else it removes the oldest
-- byte and unblocks the thread that waits for room, if there is one.
abbrev pub Got : Intq → Option (Option (ℕ × Option ℕ × Intq)) → Type 0
Got q r =
    ((r ≡ some none) × (contents q ≡ []))
    ⊎ ((byte : ℕ) × (q' : Intq) × (r ≡ some (some (byte, q.not_full, q')))
        × IsValid q'
        × (contents q ≡ byte ∷ contents q')
        × (q'.not_full ≡ none)
        × (q'.not_empty ≡ q.not_empty))

module _ {q : Intq} (valid : IsValid q) where
  -- The queue is full at 63 bytes and empty at none.
  full-count : full q ≡ (count q == 63)
  unfolding full
  full-count = ground (arith, valid.head, valid.tail)

  empty-count : empty q ≡ (count q == 0)
  unfolding empty
  empty-count = ground (arith, valid.head, valid.tail)

  store-contents :
      (byte : ℕ)
      → count q < 63
      → contents (record q { buf = λ i. if i == q.head then byte else q.buf i; head = next q.head })
        ≡ contents q ++ byte ∷ []
  unfolding contents
  store-contents byte room =
      let more : (next q.head + 64 - q.tail) % 64 ≡ suc (count q) =
        omega (arith, valid.head, valid.tail) in
      rw more (
        bytes_from-store (count q) q.tail q.head byte q.buf valid.tail (omega arith)
          (omega (arith, valid.head, valid.tail)))

  -- With both ends in the buffer, a round of `intq_putc` meets its ASSERT, and stores the byte behind
  -- those in the queue, unless the queue is full.
  pub putc_lem : (byte : ℕ) → Put byte q (putc_round byte q)
  unfolding putc_round signal_not_empty empty contents
  putc_lem byte = elim (Bool-cases (full q)) [
    | inl is_full ↦
        rw (is_full, length-bytes_from (count q) q.tail q.buf)
          (inl (refl, ground (arith, full-count, is_full)))
    | inr room ↦
        let few : count q < 63 = ground (arith, full-count, room, valid.head, valid.tail) in
        let some_there : (next q.head == q.tail) ≡ false =
          ground (arith, valid.head, valid.tail, few) in
        rw (room, some_there, length-bytes_from (count q) q.tail q.buf)
          (inr (
            few,
            (
              _,
              refl,
              record { head = omega arith; tail = valid.tail },
              store-contents byte few,
              refl,
              refl,
            ),
          ))
  ]

  -- With both ends in the buffer, a round of `intq_getc` meets its ASSERT, and takes the oldest byte,
  -- unless the queue is empty.
  pub getc_lem : Got q (getc_round q)
  unfolding getc_round signal_not_full full contents bytes_from
  getc_lem = elim (Bool-cases (empty q)) [
    | inl is_empty ↦
        let none_there : count q ≡ 0 = ground (arith, empty-count, is_empty) in
        rw (is_empty, none_there) (inl (refl, refl))
    | inr there ↦
        let fewer : count q ≡ suc ((q.head + 64 - next q.tail) % 64) =
          ground (arith, empty-count, there, valid.head, valid.tail) in
        let room : (next q.head == next q.tail) ≡ false =
          ground (arith, empty-count, there, valid.head, valid.tail) in
        rw (there, room, fewer)
          (inr (
            q.buf q.tail,
            _,
            refl,
            record { head = valid.head; tail = omega arith },
            refl,
            refl,
            refl,
          ))
  ]

  -- The ASSERT of `wait` fails in a queue that holds a byte, or that has room.
  wait_fails :
      (t : ℕ)
      → ((contents q ≢ []) → wait_not_empty t q ≡ none)
        × (length (contents q) < 63 → wait_not_full t q ≡ none)
  unfolding wait_not_empty wait_not_full contents bytes_from
  wait_fails t = (
    λ ne. elim (Bool-cases (empty q)) [
      | inl is_empty ↦
          let none_there : count q ≡ 0 = ground (arith, empty-count, is_empty) in
          absurd (ne (rw none_there refl))
      | inr there ↦ rw there refl
    ],
    λ room.
        let few : count q < 63 = omega (arith, room, length-bytes_from (count q) q.tail q.buf) in
        let not_full : full q ≡ false = ground (arith, full-count, few) in rw not_full refl,
  )

-- A thread whose round of `intq_putc` found the queue full, and for which a byte was taken before it got
-- the lock of the queue, fails the ASSERT of `wait`; the round of `intq_getc` in between goes through.
pub late_putc :
    {q : Intq}
    → IsValid q
    → (t byte : ℕ) → putc_round byte q ≡ some none
    → (b : ℕ) × (woken : Option ℕ) × (q' : Intq) × (getc_round q ≡ some (some (b, woken, q')))
      × (wait_not_full t q' ≡ none)
late_putc {q} valid t byte e = elim (putc_lem valid byte) [
  | inr (room, (q', p, valid', put, woken, full_as)) ↦ cc
  | inl (p, is_full) ↦ elim (getc_lem valid) [
    | inl (e', none_there) ↦
        let no_byte : length (contents q) ≡ 0 = ap length none_there in absurd (omega arith)
    | inr (b, q', got, valid', first, woken, empty_as) ↦
        let fewer : length (contents q) ≡ suc (length (contents q')) = ap length first in
        (b, q.not_full, q', got, (wait_fails valid' t).1 (omega arith))
  ]
]
