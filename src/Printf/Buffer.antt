-- ===== src/Printf/Buffer.antt =====
-- The buffer of `format_integer` and that of `vsnprintf` are never overrun.
use projectmod.Base.{
  ℕ, zero, suc, ◌+◌, ◌-◌, ◌*◌, ◌/◌, ◌%◌, ◌^◌, ◌≤◌, ◌<◌, ◌≡◌, refl, ◌⊎◌, inl, inr, true, some, List,
  [], ◌∷◌, arith, ltb, if◌then◌else◌, length, replicate, get_or, length-append, length-replicate,
  Bool-cases, min, ◌∙◌,
}
use native.Mathlib.Decide.{ℕ_discrete, dec_lt}
use native.Mathlib.Nat.{pow-suc, div-lt_iff_lt-mul}
use projectmod.Strings.{Memory, store}
use projectmod.Printf.{
  Conversion, IntegerBase, separate, accumulate, pad_zeros, rendered_precision, begin_octal, buffer,
}
use projectmod.Printf.Args.{Args}
use projectmod.Printf.Format.{Aux, write_all, vprintf, vsnprintf}
use projectmod.Printf.Digits.{pad_zeros_lem}
use projectmod.Palloc.Fill.{in_block}

length-separate :
    (c : Conversion) (b : IntegerBase) (cnt : ℕ) (buf : List ℕ)
    → length (separate c b cnt buf) ≤ length buf + 1
unfolding separate
length-separate c b cnt buf = ground arith

-- Each digit takes three bits of the value or more, and at most two characters.
length-accumulate :
    (c : Conversion) (b : IntegerBase) (k f v cnt : ℕ) (buf : List ℕ)
    → 8 ≤ b.base
    → v < 8 ^ k
    → length (accumulate f c b v cnt buf) ≤ length buf + 2 * k
unfolding accumulate
length-accumulate c b k zero v cnt buf eight h = omega arith
length-accumulate c b zero (suc f) v cnt buf eight h =
    let z : v ≡ 0 = omega arith in rw z (omega arith)
length-accumulate c b (suc k) (suc f) v cnt buf eight h =
    let eighth : v / b.base < 8 ^ k =
      let scale : 8 * 8 ^ k ≤ b.base * 8 ^ k = grind arith in
      (div-lt_iff_lt-mul {k = b.base} {x = v} {y = 8 ^ k} (omega arith)).1
        (grind (arith, pow-suc 8 k)) in
    ground (
      arith,
      length-separate c b cnt buf,
      length-accumulate c b k f (v / b.base) (suc cnt)
          (get_or b.digits (v % b.base) 0 ∷ separate c b cnt buf),
    )

length-begin_octal :
    (c : Conversion) (b : IntegerBase) (s : List ℕ) → length (begin_octal c b s) ≤ length s + 1
unfolding begin_octal
length-begin_octal c b s = ground arith

-- The digits of a value of 64 bits, in a base of 8 or more, fit in the 64 bytes of `buf`, with any flags
-- and any precision.
pub buffer_fits :
    (v : ℕ) (c : Conversion) (b : IntegerBase)
    → v < 2 ^ 64
    → 8 ≤ b.base
    → length (buffer v c b) ≤ 64
unfolding buffer
buffer_fits v c b small eight =
    let raw = accumulate 64 c b v 0 [] in
    let few : length raw ≤ 0 + 2 * 22 = length-accumulate c b 22 64 v 0 [] eight (omega arith) in
    let (k, e, room, some_digit, short) = pad_zeros_lem 63 (rendered_precision c) raw in
    let padded : length (pad_zeros 64 (rendered_precision c) raw) ≤ 63 = rw e (
      omega (
        arith,
        length-append (replicate k b'0') raw,
        length-replicate {A = ℕ} k b'0',
        room (omega (arith, few)),
      )) in
    omega (arith, padded, length-begin_octal c b (pad_zeros 64 (rendered_precision c) raw))

-- What `write_all` does from position `p` on with room for `room` more characters.
record Written (out : List ℕ) (p len room : ℕ) (m : Memory) (r : Aux × Memory) : Type 0 where
  count : (r.0).length ≡ len + length out
  place : (r.0).p ≡ p + min (length out) room
  bytes :
      (a : ℕ) → r.1 a ≡ (if in_block p (min (length out) room) a then get_or out (a - p) 0 else m a)

-- A character is written, and then as many of the others as there is room for.
one_more :
    (ch : ℕ) (out : List ℕ) (p room : ℕ) (m : Memory) (a : ℕ)
    → 0 < room
    → (if in_block (p + 1) (min (length out) (room - 1)) a
        then get_or out (a - (p + 1)) 0
        else store p ch m a)
      ≡ (if in_block p (min (suc (length out)) room) a then get_or (ch ∷ out) (a - p) 0 else m a)
one_more ch out p room m a pos = elim (dec_lt p a) [
  | yes h ↦ let e : a - p ≡ suc (a - (p + 1)) = omega arith in rw e (ground (arith, h))
  | no h ↦ elim (ℕ_discrete a p) [
    | yes q ↦ let z : a - p ≡ 0 = omega arith in rw z (ground (arith, q))
    | no nq ↦ ground (arith, nq, h)
  ]
]

abbrev HasWritten : (out : List ℕ) (p len top : ℕ) → Memory → Type 0
HasWritten out p len top m =
    (r : Aux × Memory) × (write_all out (record { p = p; length = len; max_length = top }, m)
      ≡ some r)
    × Written out p len (top - len) m r

write_all-Written :
    (out : List ℕ) (p len top : ℕ) (m : Memory)
    → len + length out < 2 ^ 31
    → top < 2 ^ 31
    → HasWritten out p len top m
unfolding write_all
write_all-Written [] p len top m h k =
    (_, refl, record { count = omega arith; place = omega arith; bytes = λ a. ground arith })
write_all-Written (ch ∷ out) p len top m h k =
    let fits : ltb (len + 1) (2 ^ 31) ≡ true = ground (arith, h) in
    let positive : ltb top (2 ^ 31) ≡ true = ground (arith, k) in
    elim (Bool-cases (ltb len top)) [
      | inl more ↦
          let (r, e, ih) =
            write_all-Written out (p + 1) (len + 1) top (store p ch m) (omega arith) k in
          let room : top - (len + 1) ≡ top - len - 1 = omega arith in
          (
            r,
            rw (fits, positive, more) e,
            record {
              count = omega (arith, ih.count);
              place = ground (arith, ih.place, more);
              bytes = λ a.
                  rw room at (ih.bytes a)
                  ∙ one_more ch out p (top - len) m a (ground (arith, more));
            },
          )
      | inr full ↦
          let (r, e, ih) = write_all-Written out p (len + 1) top m (omega arith) k in
          (
            r,
            rw (fits, positive, full) e,
            record {
              count = omega (arith, ih.count);
              place = ground (arith, ih.place, full);
              bytes = λ a. ground (arith, ih.bytes a, full);
            },
          )
    ]

-- What `vsnprintf` leaves in a buffer that is not empty: as much of the output as leaves room for the
-- null that follows it, and every other byte as it was.
pub record Printed (out : List ℕ) (buf size : ℕ) (m m' : Memory) : Type 0 where
  pub chars : (j : ℕ) → j < min (length out) (size - 1) → m' (buf + j) ≡ get_or out j 0
  pub ends : m' (buf + min (length out) (size - 1)) ≡ 0
  pub outside : (a : ℕ) → (a < buf) ⊎ (buf + size ≤ a) → m' a ≡ m a

Written-Printed :
    (out : List ℕ) (buf size : ℕ) (m : Memory) (r : Aux × Memory)
    → Written out buf 0 (size - 1) m r
    → 0 < size
    → Printed out buf size m (store (r.0).p 0 r.1)
Written-Printed out buf size m r w pos = record {
  chars = λ j h.
      let back : buf + j - buf ≡ j = omega arith in
      let same = rw back at (w.bytes (buf + j)) in ground (arith, w.place, same, h);
  ends = ground (arith, w.place);
  outside = λ a h. ground (arith, w.place, w.bytes a, h, pos);
}

-- If `__vprintf` writes `out`, of less than 2^31 characters, `vsnprintf` with a size of at most 2^31
-- returns the length of all of it, and leaves a string in the buffer that is `out` cut off where the
-- buffer ends; no byte outside the buffer changes. An empty buffer gets nothing.
pub vsnprintf_lem :
    (fuel buf size : ℕ) (format : List ℕ) (args : Args) (m : Memory) (out : List ℕ)
    → vprintf fuel format args ≡ some out
    → length out < 2 ^ 31
    → size ≤ 2 ^ 31
    → (m' : Memory) × (vsnprintf fuel buf size format args m ≡ some (length out, m'))
      × (0 < size → Printed out buf size m m')
      × (size ≡ 0 → (a : ℕ) → m' a ≡ m a)
unfolding vsnprintf
vsnprintf_lem fuel buf size format args m out e short small =
    let full : size - 1 - 0 ≡ size - 1 = omega arith in
    let (r, ok, w) =
      rw full at
        (write_all-Written out buf 0 (size - 1) m (omega (arith, short)) (omega (arith, small))) in
    let all : (r.0).length ≡ length out = omega (arith, w.count) in
    elim (Bool-cases (ltb 0 size)) [
      | inl pos ↦ (
        store (r.0).p 0 r.1,
        rw (e, ok, all, pos) refl,
        λ h. Written-Printed out buf size m r w h,
        λ z. absurd (ground (arith, pos, z)),
      )
      | inr empty ↦ (
        r.1,
        rw (e, ok, all, empty) refl,
        λ h. absurd (ground (arith, empty, h)),
        λ z a. ground (arith, w.bytes a, z),
      )
    ]
