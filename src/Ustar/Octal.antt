-- ===== src/Ustar/Octal.antt =====
-- How an octal field is parsed.
use projectmod.Base.{
  ℕ, zero, suc, ◌+◌, ◌-◌, ◌*◌, ◌/◌, ◌^◌, ◌≤◌, ◌<◌, ◌≡◌, refl, true, false, ◌&&◌, some, List, [],
  ◌∷◌, arith, ltb, leb, length, get_or,
}
use projectmod.Strings.{Memory}
use projectmod.Printf.Digits.{value}
use projectmod.Ustar.Parse.{octal_loop, parse_octal_field}

abbrev pub AllOctal : List ℕ → Type 0
AllOctal [] = Unit
AllOctal (c ∷ s) = (b'0' ≤ c) × (c ≤ b'7') × AllOctal s

-- The digits at an address, and the null behind them.
pub record HasField (p : ℕ) (s : List ℕ) (m : Memory) : Type 0 where
  pub digits : (j : ℕ) → j < length s → m (p + j) ≡ get_or s j 0
  pub ends : m (p + length s) ≡ 0

value-ge : (s : List ℕ) (acc : ℕ) → acc ≤ value 8 s acc
value-ge [] acc = omega arith
value-ge (d ∷ s) acc = omega (arith, value-ge s (acc * 8 + (d - b'0')))

octal_loop_lem :
    (s : List ℕ) (n ofs p acc : ℕ) (m : Memory)
    → HasField p s m
    → AllOctal s
    → length s < n
    → 0 < ofs + length s
    → value 8 s acc < 2 ^ 32
    → octal_loop n ofs p acc m ≡ some (value 8 s acc)
unfolding octal_loop
octal_loop_lem s zero ofs p acc m f all room some_digit small = absurd (omega arith)
octal_loop_lem [] (suc n) ofs p acc m f all room some_digit small =
    let e : p + 0 ≡ p = omega arith in
    let here : m p ≡ 0 = rw e at f.ends in
    let pos : ltb 0 ofs ≡ true = ground (arith, some_digit) in rw here (rw pos refl)
octal_loop_lem (d ∷ s) (suc n) ofs p acc m f (lo, hi, all) room some_digit small =
    let e : p + 0 ≡ p = omega arith in
    let here : m p ≡ d = rw e at (f.digits 0 (omega arith)) in
    let next : p + suc (length s) ≡ p + 1 + length s = omega arith in
    let swap_sides : d - b'0' + acc * 8 ≡ acc * 8 + (d - b'0') = omega arith in
    let fits : ltb ((2 ^ 32 - 1) / 8) acc ≡ false =
      ground (arith, value-ge s (acc * 8 + (d - b'0')), small) in
    let digit : (leb b'0' d && leb d b'7') ≡ true = ground (arith, lo, hi) in
    rw (here, digit, fits, swap_sides)
      (octal_loop_lem s n (ofs + 1) (p + 1) (acc * 8 + (d - b'0')) m
        (record {
          digits = λ j h.
              let q : p + suc j ≡ p + 1 + j = omega arith in
              rw q at (f.digits (suc j) (omega arith));
          ends = rw next at f.ends;
        })
        all (omega arith) (omega arith) small)

-- A field of octal digits, not empty, with a value of 32 bits is parsed as that value.
pub parse_octal_field_lem :
    (s : List ℕ) (p size : ℕ) (m : Memory)
    → HasField p s m
    → AllOctal s
    → length s < size
    → 0 < length s
    → value 8 s 0 < 2 ^ 32
    → parse_octal_field p size m ≡ some (value 8 s 0)
unfolding parse_octal_field
parse_octal_field_lem s p size m f all room some_digit small =
    octal_loop_lem s size 0 p 0 m f all room (omega arith) small
