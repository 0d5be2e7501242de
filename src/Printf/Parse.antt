-- ===== src/Printf/Parse.antt =====
-- `parse_conversion` of lib/stdio.c. A format is the list of its characters before the null. Widths and
-- precisions that stand in a format are below 2 ^ 31.
use projectmod.Base.{
  ℕ, ◌+◌, ◌-◌, ◌*◌, Bool, true, false, not, ◌&&◌, Option, none, some, List, [], ◌∷◌, ◌==◌,
  if◌then◌else◌, ◌>>=◌,
}
use projectmod.Stdlib.{isdigit}
use projectmod.Printf.{
  ArgType, char, short, int, intmax, long, longlong, ptrdifft, sizet, Conversion,
}
use projectmod.Printf.Args.{Args, signed_arg}

abbrev pub initial : Conversion
initial = record {
  minus = false;
  plus = false;
  space = false;
  pound = false;
  zeros = false;
  group = false;
  width = 0;
  precision = none;
  type = int;
}

-- One flag character, or `none`.
unfoldable pub flag : ℕ → Conversion → Option Conversion
flag ch c =
    if ch == b'-'
    then some (record c { minus = true })
    else if ch == b'+'
    then some (record c { plus = true })
    else if ch == b' '
    then some (record c { space = true })
    else if ch == b'#'
    then some (record c { pound = true })
    else if ch == b'0'
    then some (record c { zeros = true })
    else if ch == b'\''
    then some (record c { group = true })
    else none

unfoldable pub parse_flags : List ℕ → Conversion → Conversion × List ℕ
unfolding flag
parse_flags [] c = (c, [])
parse_flags (ch ∷ s) c = elim (flag ch c) [ some c' ↦ parse_flags s c' | none ↦ (c, ch ∷ s) ]

unfoldable pub exclude_flags : Conversion → Conversion
exclude_flags c = record c { zeros = c.zeros && not c.minus; space = c.space && not c.plus }

-- Digits into a number.
unfoldable pub parse_digits : List ℕ → ℕ → ℕ × List ℕ
unfolding isdigit
parse_digits [] n = (n, [])
parse_digits (ch ∷ s) n = elim (isdigit ch) [
  | true ↦ parse_digits s (n * 10 + (ch - b'0'))
  | false ↦ (n, ch ∷ s)
]

-- A width from the arguments that is negative sets the flag `-`.
unfoldable pub star_width : Bool × ℕ → Conversion → Conversion
star_width (negative, n) c =
    if negative then record c { width = n; minus = true } else record c { width = n }

unfoldable pub parse_width : List ℕ → Conversion → Args → Option (Conversion × List ℕ × Args)
unfolding parse_digits star_width signed_arg
parse_width [] c args = some (record c { width = 0 }, [], args)
parse_width (ch ∷ s) c args =
    if ch == b'*'
    then (signed_arg int args >>= λ (n, rest). some (star_width n c, s, rest))
    else let r = parse_digits (ch ∷ s) 0 in some (record c { width = r.0 }, r.1, args)

-- A precision that is given takes the flag `0` away.
unfoldable pub set_precision : Bool × ℕ → Conversion → Conversion
set_precision (negative, n) c =
    if negative
    then record c { precision = none }
    else record c { precision = some n; zeros = false }

-- What follows the point.
unfoldable pub precision_of : List ℕ → Conversion → Args → Option (Conversion × List ℕ × Args)
unfolding parse_digits set_precision signed_arg
precision_of [] c args = some (set_precision (false, 0) c, [], args)
precision_of (ch ∷ s) c args =
    if ch == b'*'
    then (signed_arg int args >>= λ (n, rest). some (set_precision n c, s, rest))
    else let r = parse_digits (ch ∷ s) 0 in some (set_precision (false, r.0) c, r.1, args)

unfoldable pub parse_precision : List ℕ → Conversion → Args → Option (Conversion × List ℕ × Args)
unfolding precision_of
parse_precision [] c args = some (record c { precision = none }, [], args)
parse_precision (ch ∷ s) c args =
    if ch == b'.' then precision_of s c args else some (record c { precision = none }, ch ∷ s, args)

-- `h` and `hh`, or `l` and `ll`
unfoldable pub doubled : ℕ → (one two : ArgType) → List ℕ → ArgType × List ℕ
doubled ch one two [] = (one, [])
doubled ch one two (d ∷ s) = if d == ch then (two, s) else (one, d ∷ s)

unfoldable pub parse_type : List ℕ → ArgType × List ℕ
unfolding doubled
parse_type [] = (int, [])
parse_type (ch ∷ s) =
    if ch == b'h'
    then doubled b'h' short char s
    else if ch == b'j'
    then (intmax, s)
    else if ch == b'l'
    then doubled b'l' long longlong s
    else if ch == b't'
    then (ptrdifft, s)
    else if ch == b'z'
    then (sizet, s)
    else (int, ch ∷ s)

unfoldable pub parse_conversion : List ℕ → Args → Option (Conversion × List ℕ × Args)
unfolding parse_flags exclude_flags parse_width parse_precision parse_type
parse_conversion format args =
    let flags = parse_flags format initial in
    parse_width flags.1 (exclude_flags flags.0) args >>= λ (c, s, rest).
    parse_precision s c rest >>= λ (c', s', rest').
    let t = parse_type s' in some (record c' { type = t.0 }, t.1, rest')
