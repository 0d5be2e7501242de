-- ===== src/Ustar/Header.antt =====
-- What `ustar_parse_header` makes of a header with the right fields.
use projectmod.Base.{
  ℕ, zero, suc, ◌+◌, ◌-◌, ◌*◌, ◌^◌, ◌≤◌, ◌<◌, ◌≡◌, ◌≢◌, refl, ◌⊎◌, inl, inr, true, false, not, ◌&&◌,
  some, List, [], ◌∷◌, arith, ◌==◌, ltb, if◌then◌else◌, length, get_or, eq→==, ne→==, Bool-cases,
}
use projectmod.Strings.{Memory}
use projectmod.Printf.Text.{codes}
use projectmod.Ustar.Field
use projectmod.Ustar.{ustar_regular, ustar_directory, summand, chksum_from, calculate_chksum}
use projectmod.Ustar.Parse.{
  Parsed, member, has_bytes, is_all_zeros, string_at, parse_octal_field, parse_size,
  ustar_parse_header,
}
use projectmod.Ustar.Names.{IsSafe, strip_antisocial_prefixes_self}

-- Bytes of a name.
abbrev pub NoNull : List ℕ → Type 0
NoNull [] = Unit
NoNull (c ∷ s) = (c ≢ 0) × NoNull s

string_at_lem :
    (s : List ℕ) (f p : ℕ) (m : Memory)
    → NoNull s
    → length s < f
    → ((j : ℕ) → j < length s → m (p + j) ≡ get_or s j 0)
    → m (p + length s) ≡ 0
    → string_at f p m ≡ s
unfolding string_at
string_at_lem s zero p m nn h chars ends = absurd (omega arith)
string_at_lem [] (suc f) p m nn h chars ends =
    let e : p + 0 ≡ p = omega arith in let here : m p ≡ 0 = rw e at ends in rw here refl
string_at_lem (c ∷ s) (suc f) p m (nz, nn) h chars ends =
    let e : p + 0 ≡ p = omega arith in
    let here : m p ≡ c = rw e at (chars 0 (omega arith)) in
    let next : p + suc (length s) ≡ p + 1 + length s = omega arith in
    let rest =
      string_at_lem s f (p + 1) m nn (omega arith)
        (λ j q.
          let step : p + suc j ≡ p + 1 + j = omega arith in
          rw step at (chars (suc j) (omega arith)))
        (rw next at ends) in
    rw (here, ne→== c 0 nz, rest) refl

summand_le : (m : Memory) (h i : ℕ) → summand m h i ≤ 255
unfolding summand
summand_le m h i = ground arith

pub chksum_from_le : (n i h : ℕ) (m : Memory) → chksum_from n i h m ≤ 255 * n
unfolding chksum_from
chksum_from_le zero i h m = omega arith
chksum_from_le (suc n) i h m = omega (arith, summand_le m h i, chksum_from_le n (i + 1) h m)

-- The checksum does not depend on its own field.
pub chksum_from_same :
    (n i h : ℕ) (m m' : Memory)
    → ((a : ℕ) → (a < h + Field.chksum) ⊎ (h + Field.chksum + 8 ≤ a) → m' a ≡ m a)
    → chksum_from n i h m' ≡ chksum_from n i h m
unfolding chksum_from summand
chksum_from_same zero i h m m' same = refl
chksum_from_same (suc n) i h m m' same =
    ground (arith, same (h + i), chksum_from_same n (i + 1) h m m' same)

not_zeros : (n p j : ℕ) (m : Memory) → j < n → m (p + j) ≢ 0 → is_all_zeros n p m ≡ false
unfolding is_all_zeros
not_zeros zero p j m h nz = absurd (omega arith)
not_zeros (suc n) p zero m h nz =
    let e : p + 0 ≡ p = omega arith in
    let here : m p ≢ 0 = rw e at nz in rw (ne→== (m p) 0 here) refl
not_zeros (suc n) p (suc j) m h nz =
    let e : p + suc j ≡ p + 1 + j = omega arith in
    let rest = not_zeros n (p + 1) j m (omega arith) (rw e at nz) in ground (arith, rest)

-- A header in memory of a file with a name, a type and a size.
pub record IsHeader (h : ℕ) (name : List ℕ) (type size : ℕ) (m : Memory) : Type 0 where
  pub chars : (j : ℕ) → j < length name → m (h + j) ≡ get_or name j 0
  pub padding : (j : ℕ) → length name ≤ j → j < 100 → m (h + j) ≡ 0
  pub prefix : m (h + Field.prefix) ≡ 0
  pub size_field : parse_octal_field (h + Field.size) 12 m ≡ some size
  pub type_field : m (h + Field.typeflag) ≡ type
  pub magic : has_bytes (h + Field.magic) (codes "ustar") m ≡ true
  pub magic_end : m (h + Field.magic + 5) ≡ 0
  pub version : m (h + Field.version) ≡ b'0'
  pub version_end : m (h + Field.version + 1) ≡ b'0'
  pub checksum : parse_octal_field (h + Field.chksum) 8 m ≡ some (calculate_chksum h m)

-- What the parser returns for a file; a directory has no size.
abbrev pub parsed_as : List ℕ → (type size : ℕ) → Parsed
parsed_as name type size = member name type (if type == ustar_regular then size else 0)

module _ {h : ℕ} {name : List ℕ} {type size : ℕ} {m : Memory} (safe : IsSafe name)
    (nn : NoNull name) (short : length name < 100) (small : size < 2 ^ 31)
    (kind : (type ≡ ustar_regular) ⊎ (type ≡ ustar_directory))
    (hd : IsHeader h name type size m) where
  parse_size_lem : parse_size h m ≡ parsed_as name type size
  unfolding parse_size
  parse_size_lem =
      let ends = hd.padding (length name) (omega arith) short in
      let read = string_at_lem name 100 h m nn short hd.chars ends in
      let fits : ltb (2 ^ 31 - 1) size ≡ false = ground arith in
      rw (read, strip_antisocial_prefixes_self name safe, hd.type_field)
        (elim (Bool-cases (type == ustar_regular)) [
          | inl e ↦ rw (e, hd.size_field) (rw fits refl)
          | inr e ↦ rw e refl
        ])

  pub ustar_parse_header-IsHeader : ustar_parse_header h m ≡ parsed_as name type size
  unfolding ustar_parse_header
  ustar_parse_header-IsHeader =
      let some_bytes : is_all_zeros 512 h m ≡ false =
        not_zeros 512 h Field.version m (omega arith) (omega (arith, hd.version)) in
      let named : m (h + 99) ≡ 0 = hd.padding 99 (omega arith) (omega arith) in
      let known : (not (type == ustar_regular) && not (type == ustar_directory)) ≡ false =
        ground (arith, kind) in
      rw
        (
          some_bytes,
          hd.magic,
          hd.magic_end,
          hd.version,
          hd.version_end,
          hd.checksum,
          eq→== (calculate_chksum h m) (calculate_chksum h m) refl,
          named,
          hd.prefix,
          hd.type_field,
          known,
        )
        parse_size_lem
