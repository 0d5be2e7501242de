-- ===== src/Printf/Tests.antt =====
-- Runs of the conversions, and the theorems at concrete arguments.
use projectmod.Base.{
  ℕ, ◌^◌, ◌-◌, ◌+◌, ◌*◌, ◌%◌, ◌<◌, ◌≡◌, refl, some, none, true, false, ◌&&◌, List, [], ◌∷◌, arith,
  length, max, if◌then◌else◌,
}
use projectmod.Strings.{Memory}
use projectmod.Stdlib.{atoi}
use projectmod.Printf.Number.{atoi-signed_conversion}
use projectmod.Printf.Buffer.{Printed, vsnprintf_lem}
use projectmod.Printf.Width.{body, length-format_integer}
use projectmod.Printf.Parse.{initial}
use projectmod.Printf.{
  Conversion, base_d, format_integer, accumulate, pad_zeros, rendered_precision, begin_octal,
}
use projectmod.Printf.Text.{codes}
use projectmod.Printf.Args.{word, text}
use projectmod.Printf.Format.{vprintf, vsnprintf, signed_conversion, print_human_readable_size}

negative_width :
    vprintf 9 (codes "%0*d") (word (2 ^ 32 - 5) ∷ word 42 ∷ []) ≡ some (codes "00042   ")
unfolding vprintf accumulate pad_zeros rendered_precision begin_octal
negative_width = refl

several :
    vprintf 30
      (codes "%s=%#x,%+d %5u|%-4o%%")
      (text (codes "ab") ∷ word 255 ∷ word 7 ∷ word 42 ∷ word 8 ∷ [])
    ≡ some (codes "ab=0xff,+7    42|10  %")
unfolding vprintf accumulate pad_zeros rendered_precision begin_octal
several = refl

human_size : print_human_readable_size (2 ^ 31) ≡ some (codes "2 GB")
unfolding print_human_readable_size accumulate pad_zeros rendered_precision begin_octal
human_size = refl

ends : vprintf 9 (codes "ab%") [] ≡ none
unfolding vprintf accumulate pad_zeros rendered_precision begin_octal
ends = refl

-- `%+6d`
abbrev signed_six : Conversion
signed_six = record initial { plus = true; width = 6 }

atoi-signed_conversion_example :
    (out : List ℕ) × (signed_conversion signed_six (word (2 ^ 32 - 42) ∷ []) ≡ some (out, []))
    × (atoi out ≡ (2 ^ 32 - 42) % 2 ^ 32)
atoi-signed_conversion_example =
    atoi-signed_conversion signed_six (2 ^ 32 - 42) [] refl refl (λ e. cc)

vsnprintf_lem_example :
    (m' : Memory) × (vsnprintf 6 100 4 (codes "a%%b!") [] (λ a. 7)
      ≡ some (length (codes "a%b!"), m'))
    × (0 < 4 → Printed (codes "a%b!") 100 4 (λ a. 7) m')
    × (◌≡◌ {A = ℕ} 4 0 → (a : ℕ) → m' a ≡ 7)
unfolding vprintf
vsnprintf_lem_example =
    vsnprintf_lem 6 100 4 (codes "a%%b!") [] (λ a. 7) (codes "a%b!") refl (omega arith)
      (omega arith)

-- `%0*d` with the width -5
abbrev both_pads : Conversion
both_pads = record initial { minus = true; zeros = true; width = 5 }

length-format_integer_example : length (format_integer 42 true false base_d both_pads) ≡ (
    if both_pads.minus && both_pads.zeros
    then body 42 true false base_d both_pads + 2 * (5 - body 42 true false base_d both_pads)
    else max 5 (body 42 true false base_d both_pads))
length-format_integer_example = length-format_integer 42 true false base_d both_pads
