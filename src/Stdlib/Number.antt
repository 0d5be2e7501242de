-- ===== src/Stdlib/Number.antt =====
-- `atoi` against the value of decimal digits.
use projectmod.Base.{
  ℕ, ◌+◌, ◌-◌, ◌*◌, ◌%◌, ◌^◌, ◌≤◌, ◌≡◌, refl, true, false, List, [], ◌∷◌, ◌++◌, arith, ◌==◌,
}
use projectmod.Stdlib.{isspace, isdigit, skip_space, parse_sign, digits_loop, atoi}

-- The value of digits, after those of `acc`.
abbrev pub decimal : List ℕ → ℕ → ℕ
decimal [] acc = acc
decimal (d ∷ s) acc = decimal s (acc * 10 + (d - b'0'))

abbrev pub AllDigits : List ℕ → Type 0
AllDigits [] = Unit
AllDigits (c ∷ s) = (isdigit c ≡ true) × AllDigits s

abbrev pub AllSpace : List ℕ → Type 0
AllSpace [] = Unit
AllSpace (c ∷ s) = (isspace c ≡ true) × AllSpace s

-- What follows a number.
abbrev pub EndsDigits : List ℕ → Type 0
EndsDigits [] = Unit
EndsDigits (c ∷ s) = isdigit c ≡ false

pub data Signed : Type 0 where
  unsigned : Signed
  plus : Signed
  minus : Signed

abbrev pub sign_text : Signed → List ℕ
sign_text unsigned = []
sign_text plus = b'+' ∷ []
sign_text minus = b'-' ∷ []

-- The two's complement of a number and its sign.
abbrev pub twos : ℕ → ℕ
twos n = (2 ^ 32 - n % 2 ^ 32) % 2 ^ 32

abbrev pub signed : Signed → ℕ → ℕ
signed unsigned n = n % 2 ^ 32
signed plus n = n % 2 ^ 32
signed minus n = twos n

digits_loop_lem :
    (s rest : List ℕ) (acc : ℕ)
    → AllDigits s
    → EndsDigits rest
    → digits_loop (s ++ rest) (twos acc) ≡ twos (decimal s acc)
unfolding digits_loop
digits_loop_lem [] [] acc all ends = refl
digits_loop_lem [] (c ∷ s) acc all ends = rw ends refl
digits_loop_lem (c ∷ s) rest acc (d, all) ends =
    let bounds : (b'0' ≤ c) × (c ≤ b'9') = unfold isdigit in ground (arith, d) in
    let next : (twos acc * 10 + 2 ^ 32 - (c - b'0')) % 2 ^ 32 ≡ twos (acc * 10 + (c - b'0')) =
      omega arith in
    rw (d, next) (digits_loop_lem s rest (acc * 10 + (c - b'0')) all ends)

skip_space_lem :
    (s : List ℕ) (c : ℕ) (rest : List ℕ)
    → AllSpace s
    → isspace c ≡ false
    → skip_space (s ++ (c ∷ rest)) ≡ c ∷ rest
unfolding skip_space
skip_space_lem [] c rest all ends = rw ends refl
skip_space_lem (a ∷ s) c rest (h, all) ends = rw h (skip_space_lem s c rest all ends)

-- A sign or a digit is no space.
head_lem :
    (sign : Signed) (c : ℕ) (s spaces : List ℕ)
    → AllSpace spaces
    → isdigit c ≡ true
    → skip_space (spaces ++ (sign_text sign ++ (c ∷ s))) ≡ sign_text sign ++ (c ∷ s)
unfolding isdigit isspace
head_lem unsigned c s spaces all d = skip_space_lem spaces c s all (ground (arith, d))
head_lem plus c s spaces all d = skip_space_lem spaces b'+' (c ∷ s) all refl
head_lem minus c s spaces all d = skip_space_lem spaces b'-' (c ∷ s) all refl

twos-twos : (n : ℕ) → (2 ^ 32 - twos n) % 2 ^ 32 ≡ n % 2 ^ 32
twos-twos n = omega arith

no_sign : (c : ℕ) (s : List ℕ) → isdigit c ≡ true → parse_sign (c ∷ s) ≡ (false, c ∷ s)
unfolding parse_sign isdigit
no_sign c s d =
    let p : (c == b'+') ≡ false = ground (arith, d) in
    let q : (c == b'-') ≡ false = ground (arith, d) in rw (p, q) refl

-- `atoi` of white space, a sign or none, and digits that the end or another character follows is the
-- value of the digits with the sign, in 32 bits.
pub atoi_lem :
    (spaces : List ℕ) (sign : Signed) (c : ℕ) (s rest : List ℕ)
    → AllSpace spaces
    → AllDigits (c ∷ s)
    → EndsDigits rest
    → atoi (spaces ++ (sign_text sign ++ ((c ∷ s) ++ rest))) ≡ signed sign (decimal (c ∷ s) 0)
unfolding atoi parse_sign
atoi_lem spaces unsigned c s rest all (d, digits) ends =
    rw
      (
        head_lem unsigned c (s ++ rest) spaces all d,
        no_sign c (s ++ rest) d,
        digits_loop_lem (c ∷ s) rest 0 (d, digits) ends,
      )
      (twos-twos (decimal (c ∷ s) 0))
atoi_lem spaces plus c s rest all (d, digits) ends =
    rw (head_lem plus c (s ++ rest) spaces all d, digits_loop_lem (c ∷ s) rest 0 (d, digits) ends)
      (twos-twos (decimal (c ∷ s) 0))
atoi_lem spaces minus c s rest all (d, digits) ends =
    rw (head_lem minus c (s ++ rest) spaces all d) (digits_loop_lem (c ∷ s) rest 0 (d, digits) ends)
