-- ===== src/Printf/Number.antt =====
-- Integers that `__vprintf` prints are read back by `atoi`.
use projectmod.Base.{
  ℕ, zero, suc, ◌+◌, ◌-◌, ◌*◌, ◌%◌, ◌^◌, ◌<◌, ◌≡◌, refl, ◌≢◌, inl, inr, Bool, true, false, some,
  List, [], ◌∷◌, ◌++◌, arith, ap, ◌∙◌, if◌then◌else◌, length, replicate, Bool-cases, length-append,
  length-replicate,
}
use mathlib.Core.List.{append_assoc}
use projectmod.Stdlib.{isspace, isdigit, atoi}
use projectmod.Stdlib.Number.{
  AllDigits, AllSpace, EndsDigits, Signed, unsigned, plus, minus, sign_text, signed, twos, decimal,
  atoi_lem,
}
use projectmod.Printf.{
  int, Conversion, base_d, accumulate, rendered_precision, begin_octal, buffer, sign_char, prefix_x,
  pad_cnt, output_dup, layout, format_integer,
}
use projectmod.Printf.Args.{Args, word, signed_of, signed_arg}
use projectmod.Printf.Format.{signed_conversion}
use projectmod.Printf.Digits.{value, IsPlain, value-accumulate, accumulate-AllDigits, pad_zeros_lem}

decimal-eq-value : (s : List ℕ) (acc : ℕ) → decimal s acc ≡ value 10 s acc
decimal-eq-value [] acc = refl
decimal-eq-value (d ∷ s) acc = decimal-eq-value s (acc * 10 + (d - b'0'))

pub value-zeros : (base k : ℕ) (s : List ℕ) → value base (replicate k b'0' ++ s) 0 ≡ value base s 0
value-zeros base zero s = refl
value-zeros base (suc k) s =
    let e : 0 * base + (b'0' - b'0') ≡ 0 = omega arith in
    ap (value base (replicate k b'0' ++ s)) e ∙ value-zeros base k s

zeros-AllDigits : (k : ℕ) (s : List ℕ) → AllDigits s → AllDigits (replicate k b'0' ++ s)
unfolding isdigit
zeros-AllDigits zero s all = all
zeros-AllDigits (suc k) s all = (refl, zeros-AllDigits k s all)

pub base_d-IsPlain : IsPlain base_d
base_d-IsPlain = record { digits = omega arith; all = refl; two = omega arith; ten = omega arith }

-- The buffer's digits are those of the value, and there is one if the precision is not 0.
record IsDigits (v : ℕ) (P : Type 0) (s : List ℕ) : Type 0 where
  val : value 10 s 0 ≡ v
  all : AllDigits s
  some_digit : P → 0 < length s

zeros-IsDigits :
    {v : ℕ} {P : Type 0} (k : ℕ) {s : List ℕ}
    → IsDigits v P s
    → IsDigits v P (replicate k b'0' ++ s)
zeros-IsDigits k {s} d = record {
  val = value-zeros 10 k s ∙ d.val;
  all = zeros-AllDigits k s d.all;
  some_digit = λ h. omega (arith, length-append (replicate k b'0') s, d.some_digit h);
}

precision_pos : (c : Conversion) → c.precision ≢ some 0 → 0 < rendered_precision c
unfolding rendered_precision
precision_pos c h = ground (arith, h)

begin_octal_none : (c : Conversion) (s : List ℕ) → begin_octal c base_d s ≡ s
unfolding begin_octal
begin_octal_none c s = ground arith

module _ (c : Conversion) (v : ℕ) (no_group : c.group ≡ false) (small : v < 2 ^ 64) where
  buffer-IsDigits : IsDigits v (c.precision ≢ some 0) (buffer v c base_d)
  unfolding buffer
  buffer-IsDigits =
      let raw = accumulate 64 c base_d v 0 [] in
      let (k, e, room, some_digit, short) = pad_zeros_lem 63 (rendered_precision c) raw in
      rw (begin_octal_none, e)
        (record {
          val =
              value-zeros 10 k raw
              ∙ value-accumulate c base_d base_d-IsPlain no_group 64 v 0 [] small;
          all =
              zeros-AllDigits k raw
                (accumulate-AllDigits c base_d base_d-IsPlain no_group 64 v 0 [] tt);
          some_digit = λ h. omega (
            arith,
            length-append (replicate k b'0') raw,
            length-replicate {A = ℕ} k b'0',
            some_digit (precision_pos c h),
          );
        })

-- The sign character is a sign or a space or nothing.
record IsSign (negative : Bool) (s : List ℕ) : Type 0 where
  spaces : List ℕ
  sign : Signed
  parts : s ≡ spaces ++ sign_text sign
  blank : AllSpace spaces
  meaning : (n : ℕ) → signed sign n ≡ (if negative then twos n else n % 2 ^ 32)

sign_char-IsSign : (negative : Bool) (c : Conversion) → IsSign negative (sign_char true negative c)
unfolding sign_char isspace
sign_char-IsSign true c =
    let shown : sign_char true true c ≡ b'-' ∷ [] = ground arith in
    record { spaces = []; sign = minus; parts = shown; blank = tt; meaning = λ n. refl }
sign_char-IsSign false c = elim (Bool-cases c.plus) [
  | inl p ↦ record {
    spaces = [];
    sign = plus;
    parts = ground arith;
    blank = tt;
    meaning = λ n. refl;
  }
  | inr p ↦ elim (Bool-cases c.space) [
    | inl q ↦ record {
      spaces = b' ' ∷ [];
      sign = unsigned;
      parts = ground arith;
      blank = (refl, tt);
      meaning = λ n. refl;
    }
    | inr q ↦ record {
      spaces = [];
      sign = unsigned;
      parts = ground arith;
      blank = tt;
      meaning = λ n. refl;
    }
  ]
]

blank_pad : (n : ℕ) → AllSpace (output_dup b' ' n)
unfolding output_dup isspace
blank_pad zero = tt
blank_pad (suc n) = (refl, blank_pad n)

pad-EndsDigits : (n : ℕ) → EndsDigits (output_dup b' ' n)
unfolding output_dup isdigit
pad-EndsDigits zero = tt
pad-EndsDigits (suc n) = refl

-- Text of the parts that a printed number has.
read_back :
    (spaces : List ℕ) (sign : Signed) (s rest : List ℕ)
    → AllSpace spaces
    → AllDigits s
    → 0 < length s
    → EndsDigits rest
    → atoi (spaces ++ (sign_text sign ++ (s ++ rest))) ≡ signed sign (value 10 s 0)
read_back spaces sign [] rest blank all h ends = absurd (omega arith)
read_back spaces sign (d ∷ s) rest blank all h ends =
    atoi_lem spaces sign d s rest blank all ends ∙ ap (signed sign) (decimal-eq-value (d ∷ s) 0)

regroup :
    (pad spaces sign zeros buf rest : List ℕ)
    → pad ++ ((spaces ++ sign) ++ (zeros ++ (buf ++ rest)))
      ≡ (pad ++ spaces) ++ (sign ++ ((zeros ++ buf) ++ rest))
regroup pad spaces sign zeros buf rest = simp append_assoc

append-AllSpace : (s t : List ℕ) → AllSpace s → AllSpace t → AllSpace (s ++ t)
append-AllSpace [] t h k = k
append-AllSpace (x ∷ s) t (e, h) k = (e, append-AllSpace s t h k)

-- The parts of a printed number in a field.
module _ {v : ℕ} {P : Type 0} {negative : Bool} {sign buf : List ℕ} (sg : IsSign negative sign)
    (d : IsDigits v P buf) (digit : P) where
  atoi-parts :
      (pad zeros rest : List ℕ)
      → AllSpace pad
      → IsDigits v P (zeros ++ buf)
      → EndsDigits rest
      → atoi (pad ++ (sign ++ (zeros ++ (buf ++ rest)))) ≡ (if negative then twos v else v % 2 ^ 32)
  atoi-parts pad zeros rest blank number ends =
      ap (λ s. atoi (pad ++ (s ++ (zeros ++ (buf ++ rest))))) sg.parts
      ∙ ap atoi (regroup pad sg.spaces (sign_text sg.sign) zeros buf rest)
      ∙ read_back (pad ++ sg.spaces) sg.sign (zeros ++ buf) rest
          (append-AllSpace pad sg.spaces blank sg.blank) number.all (number.some_digit digit) ends
      ∙ ap (signed sg.sign) number.val
      ∙ sg.meaning v

  atoi-layout :
      (minus zeros : Bool) (cnt : ℕ)
      → atoi (layout minus zeros cnt sign [] buf) ≡ (if negative then twos v else v % 2 ^ 32)
  unfolding layout
  atoi-layout true true cnt =
      atoi-parts [] (output_dup b'0' cnt) (output_dup b' ' cnt) tt (zeros-IsDigits cnt d)
        (pad-EndsDigits cnt)
  atoi-layout true false cnt = atoi-parts [] [] (output_dup b' ' cnt) tt d (pad-EndsDigits cnt)
  atoi-layout false true cnt = atoi-parts [] (output_dup b'0' cnt) [] tt (zeros-IsDigits cnt d) tt
  atoi-layout false false cnt = atoi-parts (output_dup b' ' cnt) [] [] (blank_pad cnt) d tt

prefix_x_none : (v : ℕ) (c : Conversion) → prefix_x v c base_d ≡ []
unfolding prefix_x
prefix_x_none v c = ground arith

module _ (c : Conversion) (negative : Bool) (v : ℕ) (no_group : c.group ≡ false)
    (digit : c.precision ≢ some 0) (small : v < 2 ^ 64) where
  pub atoi-format_integer :
      atoi (format_integer v true negative base_d c) ≡ (if negative then twos v else v % 2 ^ 32)
  unfolding format_integer
  atoi-format_integer =
      let cnt = pad_cnt v true negative base_d c in
      let sign = sign_char true negative c in
      let buf = buffer v c base_d in
      ap (λ x. atoi (layout c.minus c.zeros cnt sign x buf)) (prefix_x_none v c)
      ∙ atoi-layout (sign_char-IsSign negative c) (buffer-IsDigits c v no_group small) digit c.minus
          c.zeros cnt

signed_of_lem :
    (n : ℕ)
    → let s = signed_of (2 ^ 31) (n % 2 ^ 32) in
      (s.1 < 2 ^ 64) × ((if s.0 then twos s.1 else s.1 % 2 ^ 32) ≡ n % 2 ^ 32)
unfolding signed_of
signed_of_lem n = ground arith

-- `%d` or `%i` of an `int`, with any flags but the grouping of digits, any width, and any precision
-- but 0, writes a text that `atoi` reads as that `int`.
pub atoi-signed_conversion :
    (c : Conversion) (n : ℕ) (args : Args)
    → c.type ≡ int
    → c.group ≡ false
    → c.precision ≢ some 0
    → (out : List ℕ) × (signed_conversion c (word n ∷ args) ≡ some (out, args))
      × (atoi out ≡ n % 2 ^ 32)
unfolding signed_conversion
atoi-signed_conversion c n args type no_group digit =
    let fetched : signed_arg c.type (word n ∷ args) ≡ some (signed_of (2 ^ 31) (n % 2 ^ 32), args) =
      ap (λ t. signed_arg t (word n ∷ args)) type in
    let s = signed_of (2 ^ 31) (n % 2 ^ 32) in
    (
      format_integer s.1 true s.0 base_d c,
      rw fetched refl,
      atoi-format_integer c s.0 s.1 no_group digit (signed_of_lem n).0 ∙ (signed_of_lem n).1,
    )
