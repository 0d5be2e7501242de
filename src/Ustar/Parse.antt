-- ===== src/Ustar/Parse.antt =====
-- `ustar_parse_header` of lib/ustar.c.
use projectmod.Base.{
  ℕ, zero, suc, ◌+◌, ◌-◌, ◌*◌, ◌/◌, ◌^◌, Bool, true, false, not, ◌&&◌, ◌||◌, Option, none, some,
  List, [], ◌∷◌, ◌==◌, ltb, leb, if◌then◌else◌,
}
use projectmod.Strings.{Memory}
use projectmod.Printf.Text.{codes}
use projectmod.Ustar.Field
use projectmod.Ustar.{ustar_regular, ustar_directory, calculate_chksum, strip_antisocial_prefixes}

-- `parse_octal_field` with `n` bytes to go, the first of them at `p`; `ofs` bytes were digits.
unfoldable pub octal_loop : (n ofs p value : ℕ) → Memory → Option ℕ
octal_loop zero ofs p value m = none
octal_loop (suc n) ofs p value m =
    let rest = octal_loop n (ofs + 1) (p + 1) (m p - b'0' + value * 8) m in
    if leb b'0' (m p) && leb (m p) b'7'
    then (if ltb ((2 ^ 32 - 1) / 8) value then none else rest)
    else if (m p == b' ') || (m p == 0)
    then (if ltb 0 ofs then some value else none)
    else none

unfoldable pub parse_octal_field : (s size : ℕ) → Memory → Option ℕ
unfolding octal_loop
parse_octal_field s size m = octal_loop size 0 s 0 m

unfoldable pub is_all_zeros : (cnt block : ℕ) → Memory → Bool
is_all_zeros zero block m = true
is_all_zeros (suc n) block m =
    let rest = is_all_zeros n (block + 1) m in if not (m block == 0) then false else rest

-- The string at an address, with fuel for its length.
unfoldable pub string_at : (fuel p : ℕ) → Memory → List ℕ
string_at zero p m = []
string_at (suc f) p m = let rest = string_at f (p + 1) m in if m p == 0 then [] else m p ∷ rest

-- `!memcmp (p, s, length s)`
unfoldable pub has_bytes : ℕ → List ℕ → Memory → Bool
has_bytes p [] m = true
has_bytes p (c ∷ s) m = (m p == c) && has_bytes (p + 1) s m

-- What `ustar_parse_header` returns: the end of the archive, a file, or an error.
pub data Parsed : Type 0 where
  archive_end : Parsed
  member : (file_name : List ℕ) (type size : ℕ) → Parsed
  not_ustar : Parsed
  invalid_version : Parsed
  corrupt_chksum : Parsed
  chksum_mismatch : Parsed
  name_too_long : Parsed
  unimplemented_type : Parsed
  corrupt_size : Parsed
  file_too_large : Parsed

-- A regular file, by its field of the size.
unfoldable pub sized : (name : List ℕ) (type : ℕ) → Option ℕ → Parsed
sized name type none = corrupt_size
sized name type (some size_ul) =
    if ltb (2 ^ 31 - 1) size_ul then file_too_large else member name type size_ul

-- The size of a regular file, and success.
unfoldable pub parse_size : ℕ → Memory → Parsed
unfolding parse_octal_field string_at strip_antisocial_prefixes sized
parse_size h m =
    let name = strip_antisocial_prefixes (string_at 100 h m) in
    let type = m (h + Field.typeflag) in
    if type == ustar_regular
    then sized name type (parse_octal_field (h + Field.size) 12 m)
    else member name type 0

unfoldable pub ustar_parse_header : ℕ → Memory → Parsed
unfolding is_all_zeros has_bytes parse_octal_field calculate_chksum
ustar_parse_header h m =
    if is_all_zeros 512 h m
    then archive_end
    else if not (has_bytes (h + Field.magic) (codes "ustar") m && (m (h + Field.magic + 5) == 0))
    then not_ustar
    else if not (m (h + Field.version) == b'0') || not (m (h + Field.version + 1) == b'0')
    then invalid_version
    else elim (parse_octal_field (h + Field.chksum) 8 m) [
      | none ↦ corrupt_chksum
      | some chksum ↦
          if not (chksum == calculate_chksum h m)
          then chksum_mismatch
          else if not (m (h + 99) == 0) || not (m (h + Field.prefix) == 0)
          then name_too_long
          else if not (m (h + Field.typeflag) == ustar_regular)
              && not (m (h + Field.typeflag) == ustar_directory)
          then unimplemented_type
          else parse_size h m
    ]
