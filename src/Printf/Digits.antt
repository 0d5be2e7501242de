-- ===== src/Printf/Digits.antt =====
-- The digits that `format_integer` has in its buffer.
use projectmod.Base.{
  ℕ, zero, suc, ◌+◌, ◌-◌, ◌*◌, ◌/◌, ◌%◌, ◌^◌, ◌≤◌, ◌<◌, ◌≡◌, refl, ◌≢◌, inl, inr, true, false, ◌&&◌,
  List, [], ◌∷◌, ◌++◌, arith, ltb, ne→==, ap, ◌∙◌, length, get_or, replicate, Bool-cases, max,
}
use native.Mathlib.Decide.{ℕ_discrete}
use native.Mathlib.Nat.{pow-suc, mod-lt, div-add-mod', div-lt_iff_lt-mul}
use projectmod.Stdlib.{isdigit}
use projectmod.Stdlib.Number.{AllDigits}
use projectmod.Printf.{Conversion, IntegerBase, separate, accumulate, pad_zeros}

-- The value of digits in a base, after those of `acc`.
abbrev pub value : ℕ → List ℕ → ℕ → ℕ
value base [] acc = acc
value base (d ∷ s) acc = value base s (acc * base + (d - b'0'))

-- Characters that follow one another, from `k` on.
abbrev pub Consecutive : ℕ → List ℕ → Type 0
Consecutive k [] = Unit
Consecutive k (x ∷ s) = (x ≡ k) × Consecutive (k + 1) s

Consecutive-get_or :
    (k : ℕ) (s : List ℕ) (d : ℕ) → Consecutive k s → d < length s → get_or s d 0 ≡ d + k
Consecutive-get_or k [] d h p = absurd (omega arith)
Consecutive-get_or k (x ∷ s) zero (e, h) p = omega arith
Consecutive-get_or k (x ∷ s) (suc d) (e, h) p = omega (arith, Consecutive-get_or (k + 1) s d h)

-- A base of at most ten whose digits are those from `0` on.
pub record IsPlain (b : IntegerBase) : Type 0 where
  pub digits : Consecutive b'0' b.digits
  pub all : length b.digits ≡ b.base
  pub two : 2 ≤ b.base
  pub ten : b.base ≤ 10

pub replicate-cons :
    (k : ℕ) (buf : List ℕ) → replicate k b'0' ++ (b'0' ∷ buf) ≡ replicate (k + 1) b'0' ++ buf
replicate-cons zero buf = refl
replicate-cons (suc k) buf =
    let e : suc k + 1 ≡ suc (k + 1) = omega arith in rw e (ap (◌∷◌ b'0') (replicate-cons k buf))

module _ (c : Conversion) (b : IntegerBase) (plain : IsPlain b) where
  pub digit_lem : (v : ℕ) → get_or b.digits (v % b.base) 0 ≡ v % b.base + b'0'
  digit_lem v =
      let below = mod-lt v {m = b.base} (omega (arith, plain.two)) in
      Consecutive-get_or b'0' b.digits (v % b.base) plain.digits (omega (arith, plain.all))

  digit-isdigit : (v : ℕ) → isdigit (get_or b.digits (v % b.base) 0) ≡ true
  unfolding isdigit
  digit-isdigit v =
      let below = mod-lt v {m = b.base} (omega (arith, plain.two)) in
      rw (digit_lem v) (ground (arith, plain.ten))

  halves : (f v : ℕ) → v < 2 ^ suc f → v / b.base < 2 ^ f
  halves f v h =
      let double : 2 * 2 ^ f ≤ b.base * 2 ^ f = grind (arith, plain.two) in
      (div-lt_iff_lt-mul {k = b.base} {x = v} {y = 2 ^ f} (omega (arith, plain.two))).1
        (grind (arith, pow-suc 2 f))

  module _ (no_group : c.group ≡ false) where
    separate_none : (cnt : ℕ) (buf : List ℕ) → separate c b cnt buf ≡ buf
    unfolding separate
    separate_none cnt buf = rw no_group refl

    pub accumulate_more :
        (f v cnt : ℕ) (buf : List ℕ)
        → v ≢ 0
        → accumulate (suc f) c b v cnt buf
          ≡ accumulate f c b (v / b.base) (suc cnt) (get_or b.digits (v % b.base) 0 ∷ buf)
    unfolding accumulate
    accumulate_more f v cnt buf nz = rw (ne→== v 0 nz, accumulate) (rw (separate_none cnt buf) refl)

    pub accumulate_done : (f cnt : ℕ) (buf : List ℕ) → accumulate f c b 0 cnt buf ≡ buf
    unfolding accumulate
    accumulate_done zero cnt buf = refl
    accumulate_done (suc f) cnt buf = refl

    -- The digits have the value, before what the buffer held.
    pub value-accumulate :
        (f v cnt : ℕ) (buf : List ℕ)
        → v < 2 ^ f
        → value b.base (accumulate f c b v cnt buf) 0 ≡ value b.base buf v
    unfolding accumulate
    value-accumulate zero v cnt buf h = let z : v ≡ 0 = omega arith in rw z refl
    value-accumulate (suc f) v cnt buf h = elim (ℕ_discrete v 0) [
      | yes z ↦ rw (z, accumulate_done (suc f) cnt buf) refl
      | no nz ↦
          let back : v / b.base * b.base + (v % b.base + b'0' - b'0') ≡ v =
            omega (arith, div-add-mod' v b.base) in
          rw (accumulate_more f v cnt buf nz) (
            value-accumulate f (v / b.base) (suc cnt) (get_or b.digits (v % b.base) 0 ∷ buf)
              (halves f v h)
            ∙ rw (digit_lem v, back) refl)
    ]

    pub accumulate-AllDigits :
        (f v cnt : ℕ) (buf : List ℕ) → AllDigits buf → AllDigits (accumulate f c b v cnt buf)
    unfolding accumulate
    accumulate-AllDigits zero v cnt buf all = all
    accumulate-AllDigits (suc f) v cnt buf all = elim (ℕ_discrete v 0) [
      | yes z ↦ rw (z, accumulate_done (suc f) cnt buf) all
      | no nz ↦ rw (accumulate_more f v cnt buf nz) (
          accumulate-AllDigits f (v / b.base) (suc cnt) (get_or b.digits (v % b.base) 0 ∷ buf)
            (digit-isdigit v, all))
    ]

-- The zeros that a precision asks for: the buffer has room for them, and there is a digit at the end
-- if the precision is not 0.
pub pad_zeros_lem :
    (f p : ℕ) (buf : List ℕ)
    → (k : ℕ) × (pad_zeros (suc f) p buf ≡ replicate k b'0' ++ buf)
      × (length buf ≤ 63 → k + length buf ≤ 63)
      × (0 < p → 0 < k + length buf)
      × (k + length buf ≤ max p (length buf))
unfolding pad_zeros
pad_zeros_lem zero p buf = elim (Bool-cases (ltb (length buf) p && ltb (length buf) 63)) [
  | inl more ↦ (
    1,
    rw (more, pad_zeros) refl,
    λ h. ground (arith, more),
    λ h. omega arith,
    ground (arith, more),
  )
  | inr done ↦
      (0, rw (done, pad_zeros) refl, λ h. omega arith, λ h. ground (arith, done), omega arith)
]
pad_zeros_lem (suc f) p buf =
    let (k, e, room, some_digit, few) = pad_zeros_lem f p (b'0' ∷ buf) in
    elim (Bool-cases (ltb (length buf) p && ltb (length buf) 63)) [
      | inl more ↦ (
        k + 1,
        rw (more, pad_zeros) (e ∙ replicate-cons k buf),
        λ h. omega (arith, room (ground (arith, more))),
        λ h. omega arith,
        ground (arith, few, more),
      )
      | inr done ↦
          (0, rw (done, pad_zeros) refl, λ h. omega arith, λ h. ground (arith, done), omega arith)
    ]
