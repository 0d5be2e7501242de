-- ===== src/Printf.antt =====
-- lib/stdio.c: the conversions of `__vprintf`, and vsnprintf. The calls of `output` are the list of the
-- characters that they write, in order. The whole of `__vprintf` stands in Printf/Format.antt.
pub mod Text
pub mod Args
pub mod Parse
pub mod Format
pub mod Digits
pub mod Width
mod Rest
mod Ends
pub mod Number
pub mod Buffer
mod Tests
use projectmod.Base.{
  ℕ, zero, suc, ◌+◌, ◌-◌, ◌*◌, ◌/◌, ◌%◌, Bool, true, false, not, ◌&&◌, ◌||◌, Option, none, some,
  List, [], ◌∷◌, ◌++◌, ◌==◌, ltb, if◌then◌else◌, length, get_or, replicate, max,
}
use projectmod.Stdlib.{isdigit}
use projectmod.Printf.Text.{codes}

-- The type of the argument to format.
pub data ArgType : Type 0 where
  char short int intmax long longlong ptrdifft sizet : ArgType

-- `struct printf_conversion`; a precision of -1 is `none`.
pub record Conversion : Type 0 where
  pub minus : Bool
  pub plus : Bool
  pub space : Bool
  pub pound : Bool
  pub zeros : Bool
  pub group : Bool
  pub width : ℕ
  pub precision : Option ℕ
  pub type : ArgType

-- `struct integer_base`; `x` is 0 where there is no such character.
pub record IntegerBase : Type 0 where
  pub base : ℕ
  pub digits : List ℕ
  pub x : ℕ
  pub grouped : ℕ

abbrev pub base_d : IntegerBase
base_d = record { base = 10; digits = codes "0123456789"; x = 0; grouped = 3 }

abbrev pub base_o : IntegerBase
base_o = record { base = 8; digits = codes "01234567"; x = 0; grouped = 3 }

abbrev pub base_x : IntegerBase
base_x = record { base = 16; digits = codes "0123456789abcdef"; x = b'x'; grouped = 4 }

abbrev pub base_X : IntegerBase
base_X = record { base = 16; digits = codes "0123456789ABCDEF"; x = b'X'; grouped = 4 }

-- The separator that goes before a digit, for the flag `'`.
unfoldable pub separate : Conversion → IntegerBase → ℕ → List ℕ → List ℕ
separate c b digit_cnt buf =
    if c.group && (ltb 0 digit_cnt && (digit_cnt % b.grouped == 0)) then b',' ∷ buf else buf

-- The digits of a value into `buf`, which is the list from `cp[-1]` down. Each round divides the value,
-- so there is fuel for as many as it has bits.
unfoldable pub accumulate :
    (fuel : ℕ) → Conversion → IntegerBase → (value digit_cnt : ℕ) → List ℕ → List ℕ
unfolding separate
accumulate zero c b value digit_cnt buf = buf
accumulate (suc f) c b value digit_cnt buf = elim (value == 0) [
  | true ↦ buf
  | false ↦
      accumulate f c b (value / b.base) (suc digit_cnt)
        (get_or b.digits (value % b.base) 0 ∷ separate c b digit_cnt buf)
]

-- `while (cp - buf < precision && cp < buf + sizeof buf - 1)`, with fuel for the size of `buf`
unfoldable pub pad_zeros : (fuel precision : ℕ) → List ℕ → List ℕ
pad_zeros zero precision buf = buf
pad_zeros (suc f) precision buf = elim (ltb (length buf) precision && ltb (length buf) 63) [
  | true ↦ pad_zeros f precision (b'0' ∷ buf)
  | false ↦ buf
]

unfoldable pub rendered_precision : Conversion → ℕ
rendered_precision c = elim c.precision [ none ↦ 1 | some n ↦ n ]

-- `cp == buf || cp[-1] != '0'`
unfoldable pub lacks_zero : List ℕ → Bool
lacks_zero buf = not (get_or buf 0 0 == b'0')

-- The flag `#` makes an octal number begin with a zero.
unfoldable pub begin_octal : Conversion → IntegerBase → List ℕ → List ℕ
unfolding lacks_zero
begin_octal c b cp = if c.pound && ((b.base == 8) && lacks_zero cp) then b'0' ∷ cp else cp

-- What `format_integer` has in `buf` before its output.
unfoldable pub buffer : ℕ → Conversion → IntegerBase → List ℕ
buffer value c b =
    begin_octal c b (pad_zeros 64 (rendered_precision c) (accumulate 64 c b value 0 []))

-- The sign character, or none.
unfoldable pub sign_char : (is_signed negative : Bool) → Conversion → List ℕ
sign_char false negative c = []
sign_char true negative c =
    if c.plus
    then (if negative then b'-' ∷ [] else b'+' ∷ [])
    else if c.space
    then (if negative then b'-' ∷ [] else b' ' ∷ [])
    else if negative
    then b'-' ∷ []
    else []

-- `0x` or `0X`
unfoldable pub prefix_x : ℕ → Conversion → IntegerBase → List ℕ
prefix_x value c b = if c.pound && (not (value == 0) && not (b.x == 0)) then b'0' ∷ b.x ∷ [] else []

unfoldable pub output_dup : ℕ → ℕ → List ℕ
output_dup ch cnt = replicate cnt ch

-- The pad characters that fill the field.
unfoldable pub pad_cnt : ℕ → (is_signed negative : Bool) → IntegerBase → Conversion → ℕ
unfolding buffer prefix_x sign_char
pad_cnt value is_signed negative b c =
    c.width
    - length (buffer value c b)
    - length (prefix_x value c b)
    - length (sign_char is_signed negative c)

-- The output, in a field with `cnt` pad characters.
unfoldable pub layout : (minus zeros : Bool) → ℕ → (sign x buf : List ℕ) → List ℕ
unfolding output_dup
layout minus zeros cnt sign x buf =
    (if minus || zeros then [] else output_dup b' ' cnt)
    ++ (sign
        ++ (x
            ++ ((if zeros then output_dup b'0' cnt else [])
                ++ (buf ++ (if minus then output_dup b' ' cnt else [])))))

unfoldable pub format_integer :
    (value : ℕ) (is_signed negative : Bool) → IntegerBase → Conversion → List ℕ
unfolding buffer sign_char prefix_x pad_cnt layout
format_integer value is_signed negative b c =
    layout c.minus c.zeros (pad_cnt value is_signed negative b c) (sign_char is_signed negative c)
      (prefix_x value c b) (buffer value c b)

unfoldable pub format_string : List ℕ → Conversion → List ℕ
unfolding output_dup
format_string string c =
    let pad = output_dup b' ' (c.width - length string) in
    (if ltb (length string) c.width && not c.minus then pad else [])
    ++ (string ++ (if ltb (length string) c.width && c.minus then pad else []))
