-- ===== src/Printf/Format.antt =====
-- `__vprintf`, `vsnprintf` and `print_human_readable_size` of lib/stdio.c.
use projectmod.Base.{
  ℕ, zero, suc, ◌+◌, ◌-◌, ◌/◌, ◌%◌, Bool, true, false, ◌||◌, Option, none, some, List, [], ◌∷◌,
  ◌++◌, ◌==◌, ltb, if◌then◌else◌, ◌>>=◌, ◌>>◌, ◌^◌, ◌&&◌, assert, take,
}
use projectmod.Strings.{Memory, store}
use projectmod.Printf.{
  Conversion, IntegerBase, base_d, base_o, base_x, base_X, format_integer, format_string,
}
use projectmod.Printf.Text.{codes}
use projectmod.Printf.Args.{Args, wide, text, next_word, next_text, signed_arg, unsigned_arg}
use projectmod.Printf.Parse.{initial, parse_conversion}

-- `%d` and `%i`
unfoldable pub signed_conversion : Conversion → Args → Option (List ℕ × Args)
unfolding signed_arg format_integer
signed_conversion c args = signed_arg c.type args >>= λ ((negative, value), rest).
    some (format_integer value true negative base_d c, rest)

unfoldable pub unsigned_conversion : IntegerBase → Conversion → Args → Option (List ℕ × Args)
unfolding unsigned_arg format_integer
unsigned_conversion b c args =
    unsigned_arg c.type args >>= λ (value, rest). some (format_integer value false false b c, rest)

-- `strnlen (s, c.precision)` characters
unfoldable pub limited : Option ℕ → List ℕ → List ℕ
limited none s = s
limited (some n) s = take n s

-- What is printed for a conversion that is not supported.
unfoldable pub complaint : ℕ → List ℕ → List ℕ
complaint ch why = codes "<<no %" ++ (ch ∷ (why ++ codes ">>"))

unfoldable pub is_unsupported : ℕ → Bool
is_unsupported ch =
    (ch == b'f')
    || ((ch == b'e') || ((ch == b'E') || ((ch == b'g') || ((ch == b'G') || (ch == b'n')))))

-- The conversion that `ch` names: what is written, and the arguments that are left.
unfoldable pub convert : ℕ → Conversion → Args → Option (List ℕ × Args)
unfolding signed_conversion unsigned_conversion limited complaint is_unsupported next_word next_text
    format_integer format_string
convert ch c args =
    if (ch == b'd') || (ch == b'i')
    then signed_conversion c args
    else if ch == b'o'
    then unsigned_conversion base_o c args
    else if ch == b'u'
    then unsigned_conversion base_d c args
    else if ch == b'x'
    then unsigned_conversion base_x c args
    else if ch == b'X'
    then unsigned_conversion base_X c args
    else if ch == b'c'
    then (next_word args >>= λ (n, rest). some (format_string ((n % 256) ∷ []) c, rest))
    else if ch == b's'
    then (next_text args >>= λ (s, rest). some (format_string (limited c.precision s) c, rest))
    else if ch == b'p'
    then (next_word args >>= λ (n, rest). some (
      format_integer n false false base_x (record initial {
        pound = true;
        width = c.width;
        precision = c.precision;
        type = c.type;
      }),
      rest,
    ))
    else if is_unsupported ch
    then some (complaint ch (codes " in kernel"), args)
    else some (complaint ch (codes " conversion"), args)

-- Output before that of the rest of the format.
abbrev pub prepend : List ℕ → Option (List ℕ) → Option (List ℕ)
prepend out rest = rest >>= λ more. some (out ++ more)

-- What follows `%` has been parsed: the conversion is done, and `next` goes on behind it. Where the
-- format ends in it the loop would read on behind the format's null, which is `none`.
unfoldable pub finish :
    (List ℕ → Args → Option (List ℕ)) → Option (Conversion × List ℕ × Args) → Option (List ℕ)
unfolding convert
finish next none = none
finish next (some (c, [], args)) = none
finish next (some (c, ch ∷ s, args)) =
    convert ch c args >>= λ (out, rest). prepend out (next s rest)

-- Behind `%`
unfoldable pub percent : (List ℕ → Args → Option (List ℕ)) → List ℕ → Args → Option (List ℕ)
unfolding parse_conversion finish
percent next [] args = finish next (parse_conversion [] args)
percent next (ch ∷ s) args =
    if ch == b'%'
    then prepend (b'%' ∷ []) (next s args)
    else finish next (parse_conversion (ch ∷ s) args)

-- `__vprintf`: the characters that it writes, with fuel for its loop.
unfoldable pub vprintf : (fuel : ℕ) → List ℕ → Args → Option (List ℕ)
unfolding percent
vprintf zero format args = none
vprintf (suc f) [] args = some []
vprintf (suc f) (ch ∷ s) args = elim (ch == b'%') [
  | false ↦ prepend (ch ∷ []) (vprintf f s args)
  | true ↦ percent (vprintf f) s args
]

-- `struct vsnprintf_aux`; the two `int`s are words of 32 bits, from 2 ^ 31 on negative.
pub record Aux : Type 0 where
  pub p : ℕ
  pub length : ℕ
  pub max_length : ℕ

-- `none` is that the length overflows, which C leaves undefined.
unfoldable pub vsnprintf_helper : ℕ → Aux × Memory → Option (Aux × Memory)
vsnprintf_helper ch (aux, m) =
    let room = ltb aux.max_length (2 ^ 31) && ltb aux.length aux.max_length in
    assert (ltb (aux.length + 1) (2 ^ 31))
    >> some (
        if room
        then (record aux { p = aux.p + 1; length = aux.length + 1 }, store aux.p ch m)
        else (record aux { length = aux.length + 1 }, m))

unfoldable pub write_all : List ℕ → Aux × Memory → Option (Aux × Memory)
unfolding vsnprintf_helper
write_all [] s = some s
write_all (ch ∷ out) s = vsnprintf_helper ch s >>= λ s'. write_all out s'

-- `vsnprintf`: the length that it returns, and the memory.
unfoldable pub vsnprintf : (fuel buffer buf_size : ℕ) → List ℕ → Args → Memory → Option (ℕ × Memory)
unfolding vprintf write_all
vsnprintf fuel buffer buf_size format args m = vprintf fuel format args >>= λ out.
    let start : Aux = record { p = buffer; length = 0; max_length = buf_size - 1 } in
    write_all out (start, m) >>= λ (aux, m').
    some (aux.length, if ltb 0 buf_size then store aux.p 0 m' else m')

-- The loop of `print_human_readable_size` over `factors`.
unfoldable pub scale : ℕ → List ℕ → List (List ℕ) → ℕ × List ℕ
scale size factor [] = (size, factor)
scale size factor (next ∷ factors) =
    let rest = scale (size / 1024) next factors in if ltb size 1024 then (size, factor) else rest

unfoldable pub print_human_readable_size : ℕ → Option (List ℕ)
unfolding scale vprintf
print_human_readable_size size =
    let r = scale size (codes "bytes") (codes "kB" ∷ codes "MB" ∷ codes "GB" ∷ codes "TB" ∷ []) in
    if size == 1
    then vprintf 7 (codes "1 byte") []
    else vprintf 8 (codes "%llu %s") (wide r.0 ∷ text r.1 ∷ [])
