-- ===== src/Printf/Width.antt =====
-- How long a printed integer is.
use projectmod.Base.{
  ℕ, ◌+◌, ◌-◌, ◌*◌, ◌≡◌, Bool, true, false, ◌&&◌, List, [], ◌++◌, arith, if◌then◌else◌, length,
  length-append, length-replicate, max,
}
use projectmod.Printf.{
  Conversion, IntegerBase, buffer, sign_char, prefix_x, output_dup, pad_cnt, layout, format_integer,
}

length-output_dup : (ch n : ℕ) → length (output_dup ch n) ≡ n
unfolding output_dup
length-output_dup ch n = length-replicate n ch

length-append_five :
    (a b c d e f : List ℕ)
    → length (a ++ (b ++ (c ++ (d ++ (e ++ f)))))
      ≡ length a + length b + length c + length d + length e + length f
length-append_five a b c d e f = omega (
  arith,
  length-append a (b ++ (c ++ (d ++ (e ++ f)))),
  length-append b (c ++ (d ++ (e ++ f))),
  length-append c (d ++ (e ++ f)),
  length-append d (e ++ f),
  length-append e f,
)

length-layout :
    (minus zeros : Bool) (cnt : ℕ) (sign x buf : List ℕ)
    → length (layout minus zeros cnt sign x buf)
      ≡ length sign + length x + length buf + (if minus && zeros then 2 * cnt else cnt)
unfolding layout
length-layout true true cnt sign x buf = omega (
  arith,
  length-append_five [] sign x (output_dup b'0' cnt) buf (output_dup b' ' cnt),
  length-output_dup b'0' cnt,
  length-output_dup b' ' cnt,
)
length-layout true false cnt sign x buf =
    omega
      (arith, length-append_five [] sign x [] buf (output_dup b' ' cnt), length-output_dup b' ' cnt)
length-layout false true cnt sign x buf =
    omega
      (arith, length-append_five [] sign x (output_dup b'0' cnt) buf [], length-output_dup b'0' cnt)
length-layout false false cnt sign x buf =
    omega
      (arith, length-append_five (output_dup b' ' cnt) sign x [] buf [], length-output_dup b' ' cnt)

-- The sign, the prefix and the digits with the zeros of the precision.
abbrev pub body : ℕ → (is_signed negative : Bool) → IntegerBase → Conversion → ℕ
body value is_signed negative b c =
    length (sign_char is_signed negative c)
    + length (prefix_x value c b)
    + length (buffer value c b)

-- A printed integer is as long as its sign, prefix and digits, or as the field if that is wider; but
-- with both of the flags `-` and `0` the field is filled twice, before the digits and behind them.
pub length-format_integer :
    (value : ℕ) (is_signed negative : Bool) (b : IntegerBase) (c : Conversion)
    → length (format_integer value is_signed negative b c) ≡ (
        if c.minus && c.zeros
        then body value is_signed negative b c + 2 * (c.width - body value is_signed negative b c)
        else max c.width (body value is_signed negative b c))
unfolding format_integer pad_cnt
length-format_integer value is_signed negative b c = ground (
  arith,
  length-layout c.minus c.zeros (pad_cnt value is_signed negative b c)
      (sign_char is_signed negative c) (prefix_x value c b) (buffer value c b),
)
