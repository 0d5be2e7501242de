-- ===== src/Ustar/Numbers.antt =====
-- What `snprintf` writes into an octal field.
use projectmod.Base.{
  ℕ, zero, suc, ◌+◌, ◌-◌, ◌/◌, ◌%◌, ◌^◌, ◌≤◌, ◌<◌, ◌≡◌, refl, ◌⊎◌, true, false, some, List, [], ◌∷◌,
  ◌++◌, arith, length, replicate, get_or, ap, ◌∙◌, min, length-append, length-replicate,
}
use mathlib.Core.List.{append-nil}
use native.Mathlib.Decide.{ℕ_discrete}
use native.Mathlib.Nat.{pow-suc}
use projectmod.Strings.{Memory}
use projectmod.Printf.{
  Conversion, base_o, accumulate, rendered_precision, begin_octal, buffer, format_integer,
}
use projectmod.Printf.Text.{codes}
use projectmod.Printf.Args.{word}
use projectmod.Printf.Parse.{initial}
use projectmod.Printf.Format.{vprintf}
use projectmod.Printf.Digits.{
  value, IsPlain, value-accumulate, accumulate_more, digit_lem, pad_zeros_lem,
}
use projectmod.Printf.Number.{value-zeros}
use projectmod.Printf.Buffer.{vsnprintf_lem}
use projectmod.Ustar.{put_number}
use projectmod.Ustar.Octal.{AllOctal, HasField}

base_o-IsPlain : IsPlain base_o
base_o-IsPlain = record { digits = omega arith; all = refl; two = omega arith; ten = omega arith }

-- A field of `w` digits, `%0<w>o`
abbrev zero_padded : ℕ → Conversion
zero_padded w = record initial { zeros = true; width = w }

accumulate-octal :
    (c : Conversion) (k f v cnt : ℕ) (buf : List ℕ)
    → c.group ≡ false
    → v < 8 ^ k
    → AllOctal buf
    → AllOctal (accumulate f c base_o v cnt buf)
      × (length (accumulate f c base_o v cnt buf) ≤ length buf + k)
unfolding accumulate
accumulate-octal c k zero v cnt buf no_group h all = (all, omega arith)
accumulate-octal c zero (suc f) v cnt buf no_group h all =
    let z : v ≡ 0 = omega arith in rw z (all, omega arith)
accumulate-octal c (suc k) (suc f) v cnt buf no_group h all = elim (ℕ_discrete v 0) [
  | yes z ↦ rw z (all, omega arith)
  | no nz ↦
      let digit = get_or base_o.digits (v % 8) 0 in
      let d : digit ≡ v % 8 + b'0' = digit_lem c base_o base_o-IsPlain v in
      let (rest, few) =
        accumulate-octal c k f (v / 8) (suc cnt) (digit ∷ buf) no_group (omega (arith, pow-suc 8 k))
          (omega (arith, d), omega (arith, d), all) in
      rw (accumulate_more c base_o base_o-IsPlain no_group f v cnt buf nz)
        (rest, omega (arith, few))
]

zeros-AllOctal : (k : ℕ) (s : List ℕ) → AllOctal s → AllOctal (replicate k b'0' ++ s)
zeros-AllOctal zero s all = all
zeros-AllOctal (suc k) s all = (omega arith, omega arith, zeros-AllOctal k s all)

-- `w` octal digits of the value `v`.
pub record OctalText (w v : ℕ) (s : List ℕ) : Type 0 where
  pub long : length s ≡ w
  pub val : value 8 s 0 ≡ v
  pub all : AllOctal s

-- What `%0<w>o` prints.
pub octal_text : (w v : ℕ) → List ℕ
octal_text w v = format_integer v false false base_o (zero_padded w)

module _ (w v : ℕ) (pos : 0 < w) (short : w ≤ 60) (fits : v < 8 ^ w) (small : v < 2 ^ 64) where
  buffer-octal :
      (value 8 (buffer v (zero_padded w) base_o) 0 ≡ v)
      × AllOctal (buffer v (zero_padded w) base_o)
      × (length (buffer v (zero_padded w) base_o) ≤ w)
  unfolding buffer rendered_precision begin_octal
  buffer-octal =
      let c = zero_padded w in
      let raw = accumulate 64 c base_o v 0 [] in
      let (k, e, room, some_digit, few) = pad_zeros_lem 63 1 raw in
      let (octal, len) = accumulate-octal c w 64 v 0 [] refl fits tt in
      let short : length (replicate k b'0' ++ raw) ≤ w =
        omega (
          arith,
          length-append (replicate k b'0') raw,
          length-replicate {A = ℕ} k b'0',
          few,
          len,
        ) in
      rw e (
        value-zeros 8 k raw ∙ value-accumulate c base_o base_o-IsPlain refl 64 v 0 [] small,
        zeros-AllOctal k raw octal,
        short,
      )

  octal_text_parts :
      octal_text w v
      ≡ replicate (w - length (buffer v (zero_padded w) base_o)) b'0'
        ++ buffer v (zero_padded w) base_o
  unfolding octal_text format_integer
  octal_text_parts =
      let buf = buffer v (zero_padded w) base_o in
      let cut : w - length buf - 0 - 0 ≡ w - length buf = omega arith in
      ap (λ t. replicate (w - length buf - 0 - 0) b'0' ++ t) (append-nil buf)
      ∙ ap (λ n. replicate n b'0' ++ buf) cut

  octal_text-OctalText : OctalText w v (octal_text w v)
  octal_text-OctalText =
      let buf = buffer v (zero_padded w) base_o in
      let (val, octal, len) = buffer-octal in
      rw octal_text_parts (record {
        long = omega (
          arith,
          length-append (replicate (w - length buf) b'0') buf,
          length-replicate {A = ℕ} (w - length buf) b'0',
        );
        val = value-zeros 8 (w - length buf) buf ∙ val;
        all = zeros-AllOctal (w - length buf) buf octal;
      })

-- A number of `w` octal digits in a field with room for a null behind them.
pub record PutsNumber (dst w v : ℕ) (m m' : Memory) : Type 0 where
  pub text : List ℕ
  pub octal : OctalText w v text
  pub field : HasField dst text m'
  pub outside : (a : ℕ) → (a < dst) ⊎ (dst + suc w ≤ a) → m' a ≡ m a

pub prints_seven :
    (v : ℕ) → v < 2 ^ 32 → vprintf 5 (codes "%07o") (word v ∷ []) ≡ some (octal_text 7 v)
unfolding vprintf octal_text
prints_seven v h =
    let e : v % 2 ^ 32 ≡ v = omega arith in
    ap (λ n. some (format_integer n false false base_o (zero_padded 7) ++ [])) e
    ∙ ap some (append-nil (octal_text 7 v))

pub prints_eleven :
    (v : ℕ) → v < 2 ^ 32 → vprintf 6 (codes "%011o") (word v ∷ []) ≡ some (octal_text 11 v)
unfolding vprintf octal_text
prints_eleven v h =
    let e : v % 2 ^ 32 ≡ v = omega arith in
    ap (λ n. some (format_integer n false false base_o (zero_padded 11) ++ [])) e
    ∙ ap some (append-nil (octal_text 11 v))

module _ (dst w v : ℕ) (m : Memory) (pos : 0 < w) (short : w ≤ 60) (fits : v < 8 ^ w)
    (small : v < 2 ^ 32) (format : List ℕ)
    (prints : vprintf (suc (length format)) format (word v ∷ []) ≡ some (octal_text w v)) where
  pub put_number-PutsNumber :
      (m' : Memory) × (put_number dst (suc w) format v m ≡ some m') × PutsNumber dst w v m m'
  unfolding put_number
  put_number-PutsNumber =
      let text = octal_text w v in
      let octal = octal_text-OctalText w v pos short fits (omega arith) in
      let (m', e, room, none_left) =
        vsnprintf_lem (suc (length format)) dst (suc w) format (word v ∷ []) m text prints
          (omega (arith, octal.long)) (omega arith) in
      let printed = room (omega arith) in
      let all : min (length text) (suc w - 1) ≡ length text = omega (arith, octal.long) in
      (
        m',
        rw e refl,
        record {
          text = text;
          octal = octal;
          field = record {
            digits = λ j h. printed.chars j (omega (arith, all));
            ends = rw all at printed.ends;
          };
          outside = printed.outside;
        },
      )
