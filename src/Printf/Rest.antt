-- ===== src/Printf/Rest.antt =====
-- What the parsers of a conversion leave of the format.
use projectmod.Base.{
  ℕ, ◌+◌, ◌-◌, ◌*◌, ◌≤◌, inl, inr, Option, none, some, List, [], ◌∷◌, arith, ◌==◌, ◌>>=◌, length,
  Bool-cases, Option-cases,
}
use projectmod.Stdlib.{isdigit}
use projectmod.Printf.{int, short, char, long, longlong, ArgType, Conversion}
use projectmod.Printf.Args.{Args, signed_arg}
use projectmod.Printf.Parse.{
  initial, flag, parse_flags, exclude_flags, parse_digits, parse_width, precision_of,
  parse_precision, doubled, parse_type, parse_conversion,
}

-- What a parser leaves of the format is no longer than `n`.
abbrev pub Within : ℕ → Option (Conversion × List ℕ × Args) → Type 0
Within n none = Unit
Within n (some (c, s, args)) = length s ≤ n

length-parse_flags : (s : List ℕ) (c : Conversion) → length (parse_flags s c).1 ≤ length s
unfolding parse_flags
length-parse_flags [] c = omega arith
length-parse_flags (ch ∷ s) c = elim (Option-cases (flag ch c)) [
  | inl e ↦ rw (e, parse_flags) (omega arith)
  | inr (c', e) ↦ rw (e, parse_flags) (omega (arith, length-parse_flags s c'))
]

length-parse_digits : (s : List ℕ) (n : ℕ) → length (parse_digits s n).1 ≤ length s
unfolding parse_digits
length-parse_digits [] n = omega arith
length-parse_digits (ch ∷ s) n = elim (Bool-cases (isdigit ch)) [
  | inl e ↦ rw (e, parse_digits) (omega (arith, length-parse_digits s (n * 10 + (ch - b'0'))))
  | inr e ↦ rw (e, parse_digits) (omega arith)
]

parse_width-Within :
    (s : List ℕ) (c : Conversion) (args : Args) → Within (length s) (parse_width s c args)
unfolding parse_width
parse_width-Within [] c args = omega arith
parse_width-Within (ch ∷ s) c args = elim (Bool-cases (ch == b'*')) [
  | inl e ↦ elim (Option-cases (signed_arg int args)) [
    | inl q ↦ rw (e, q) tt
    | inr (n, q) ↦ rw (e, q) (omega arith)
  ]
  | inr e ↦ rw e (length-parse_digits (ch ∷ s) 0)
]

precision_of-Within :
    (s : List ℕ) (c : Conversion) (args : Args) → Within (length s) (precision_of s c args)
unfolding precision_of
precision_of-Within [] c args = omega arith
precision_of-Within (ch ∷ s) c args = elim (Bool-cases (ch == b'*')) [
  | inl e ↦ elim (Option-cases (signed_arg int args)) [
    | inl q ↦ rw (e, q) tt
    | inr (n, q) ↦ rw (e, q) (omega arith)
  ]
  | inr e ↦ rw e (length-parse_digits (ch ∷ s) 0)
]

Within-mono : {m n : ℕ} (r : Option (Conversion × List ℕ × Args)) → Within m r → m ≤ n → Within n r
Within-mono none h p = tt
Within-mono (some (c, s, args)) h p = omega arith

parse_precision-Within :
    (s : List ℕ) (c : Conversion) (args : Args) → Within (length s) (parse_precision s c args)
unfolding parse_precision
parse_precision-Within [] c args = omega arith
parse_precision-Within (ch ∷ s) c args = elim (Bool-cases (ch == b'.')) [
  | inl e ↦ rw e (Within-mono (precision_of s c args) (precision_of-Within s c args) (omega arith))
  | inr e ↦ rw e (omega arith)
]

length-doubled :
    (ch : ℕ) (one two : ArgType) (s : List ℕ) → length (doubled ch one two s).1 ≤ length s
unfolding doubled
length-doubled ch one two [] = omega arith
length-doubled ch one two (d ∷ s) = ground arith

length-parse_type : (s : List ℕ) → length (parse_type s).1 ≤ length s
unfolding parse_type
length-parse_type [] = omega arith
length-parse_type (ch ∷ s) =
    ground (arith, length-doubled b'h' short char s, length-doubled b'l' long longlong s)

-- The last part of `parse_conversion`.
typed-Within :
    (n : ℕ) (r : Option (Conversion × List ℕ × Args))
    → Within n r
    → Within n
        (r >>= λ (c, s, rest). let t = parse_type s in some (record c { type = t.0 }, t.1, rest))
typed-Within n none h = tt
typed-Within n (some (c, s, rest)) h = omega (arith, length-parse_type s)

precise-Within :
    (n : ℕ) (r : Option (Conversion × List ℕ × Args))
    → Within n r
    → Within n (
        r >>= λ (c, s, rest). parse_precision s c rest >>= λ (c', s', rest').
        let t = parse_type s' in some (record c' { type = t.0 }, t.1, rest'))
precise-Within n none h = tt
precise-Within n (some (c, s, rest)) h =
    Within-mono _
      (typed-Within (length s) (parse_precision s c rest) (parse_precision-Within s c rest)) h

pub parse_conversion-Within :
    (s : List ℕ) (args : Args) → Within (length s) (parse_conversion s args)
unfolding parse_conversion
parse_conversion-Within s args =
    let flags = parse_flags s initial in
    let c = exclude_flags flags.0 in
    Within-mono _
      (precise-Within (length flags.1) (parse_width flags.1 c args)
        (parse_width-Within flags.1 c args))
      (length-parse_flags s initial)
