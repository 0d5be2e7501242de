-- ===== src/Ustar/Made.antt =====
-- Headers that are made are parsed as what they were made from.
use projectmod.Base.{
  ℕ, suc, ◌+◌, ◌*◌, ◌^◌, ◌≤◌, ◌<◌, ◌≡◌, refl, sym, ◌⊎◌, inl, inr, true, false, ◌||◌, some, List, [],
  ◌∷◌, arith, ◌==◌, ltb, lt→ltb, ◌++◌, length, ap, ◌∙◌,
}
use projectmod.Strings.{Memory}
use projectmod.Printf.Text.{codes}
use projectmod.Ustar.Field
use projectmod.Ustar.{
  ustar_regular, ustar_directory, calculate_chksum, fill_back, fill, strip_antisocial_prefixes,
  ustar_make_header,
}
use projectmod.Ustar.Parse.{parse_octal_field, ustar_parse_header}
use projectmod.Ustar.Names.{strip_antisocial_prefixes_lem, strip_antisocial_prefixes-IsSafe}
use projectmod.Ustar.Octal.{parse_octal_field_lem}
use projectmod.Ustar.Numbers.{PutsNumber, put_number-PutsNumber, prints_seven, prints_eleven}
use projectmod.Ustar.Fields.{fill_front-Front, fill_back-Back, has_bytes_lem}
use projectmod.Ustar.Header.{
  NoNull, IsHeader, parsed_as, chksum_from_le, chksum_from_same, ustar_parse_header-IsHeader,
}

-- A number that was put is read back where no byte of its field has changed since.
PutsNumber-parse :
    (dst w v : ℕ) (m m' m'' : Memory)
    → PutsNumber dst w v m m'
    → 0 < w
    → v < 2 ^ 32
    → ((a : ℕ) → dst ≤ a → a < dst + suc w → m'' a ≡ m' a)
    → parse_octal_field dst (suc w) m'' ≡ some v
PutsNumber-parse dst w v m m' m'' puts pos small same =
    let octal = puts.octal in
    parse_octal_field_lem puts.text dst (suc w) m''
      (record {
        digits = λ j p.
            same (dst + j) (omega arith) (omega (arith, octal.long)) ∙ (puts.field).digits j p;
        ends =
            same (dst + length puts.text) (omega arith) (omega (arith, octal.long))
            ∙ (puts.field).ends;
      })
      octal.all (omega (arith, octal.long)) (omega (arith, octal.long)) (omega (arith, octal.val))
    ∙ ap some octal.val

-- The steps of `ustar_make_header` behind its checks.
module _ (h : ℕ) (name : List ℕ) (type size : ℕ) (m : Memory) (fits : h + 512 ≤ 2 ^ 32)
    (short : length name < 100) (small : size < 2 ^ 31) where
  record IsMade (m' : Memory) : Type 0 where
    steps : fill h name type size m ≡ some m'
    header : IsHeader h name type size m'
    outside : (a : ℕ) → (a < h) ⊎ (h + 512 ≤ a) → m' a ≡ m a

  made : (m' : Memory) × IsMade m'
  unfolding fill calculate_chksum
  made =
      let (m1, e1, front) = fill_front-Front h name type m fits short in
      let (m2, e2, sized) =
        put_number-PutsNumber (h + Field.size) 11 size m1 (omega arith) (omega arith) (omega arith)
          (omega arith) (codes "%011o") (prints_eleven size (omega arith)) in
      let (m3, e3, timed) =
        put_number-PutsNumber (h + Field.mtime) 11 1136102400 m2 (omega arith) (omega arith)
          (omega arith) (omega arith) (codes "%011o") (prints_eleven 1136102400 (omega arith)) in
      let m4 = fill_back h type m3 in
      let back = fill_back-Back h type m3 in
      let sum = calculate_chksum h m4 in
      let low : sum ≤ 255 * 512 = chksum_from_le 512 0 h m4 in
      let (m5, e5, summed) =
        put_number-PutsNumber (h + Field.chksum) 7 sum m4 (omega arith) (omega arith)
          (omega (arith, low)) (omega (arith, low)) (codes "%07o")
          (prints_seven sum (omega (arith, low))) in
      let first : (a : ℕ) → (a < h + Field.size) ⊎ (h + Field.prefix ≤ a) → m5 a ≡ m1 a = λ a p.
        elim p [
          | inl q ↦
              summed.outside a (inl (omega arith))
              ∙ back.before a (omega arith)
              ∙ timed.outside a (inl (omega arith))
              ∙ sized.outside a (inl q)
          | inr q ↦
              summed.outside a (inr (omega arith))
              ∙ back.behind a q
              ∙ timed.outside a (inr (omega arith))
              ∙ sized.outside a (inr (omega arith))
        ] in
      let last : (a : ℕ) → h + Field.typeflag ≤ a → m5 a ≡ m4 a =
        λ a p. summed.outside a (inr (omega arith)) in
      (
        m5,
        record {
          steps = rw (e1, e2, e3, e5) refl;
          header = record {
            chars = λ j p. first (h + j) (inl (omega arith)) ∙ front.chars j p;
            padding = λ j p q. first (h + j) (inl (omega arith)) ∙ front.padding j p q;
            prefix = first (h + Field.prefix) (inr (omega arith)) ∙ front.prefix;
            size_field =
                PutsNumber-parse (h + Field.size) 11 size m1 m2 m5 sized (omega arith) (omega arith)
                  (λ a p q.
                    summed.outside a (inl (omega arith))
                    ∙ back.before a (omega arith)
                    ∙ timed.outside a (inl (omega arith)));
            type_field = last (h + Field.typeflag) (omega arith) ∙ back.type_field;
            magic =
                has_bytes_lem (codes "ustar") (h + Field.magic) m5
                  (λ j p. last (h + Field.magic + j) (omega arith) ∙ back.magic j p);
            magic_end = last (h + Field.magic + 5) (omega arith) ∙ back.magic_end;
            version = last (h + Field.version) (omega arith) ∙ back.version;
            version_end = last (h + Field.version + 1) (omega arith) ∙ back.version_end;
            checksum =
                PutsNumber-parse (h + Field.chksum) 7 sum m4 m5 m5 summed (omega arith)
                  (omega (arith, low)) (λ a p q. refl)
                ∙ ap some (sym (chksum_from_same 512 0 h m4 m5 summed.outside));
          };
          outside = λ a p. elim p [
            | inl q ↦ first a (inl (omega arith)) ∙ front.outside a (inl q)
            | inr q ↦ first a (inr (omega arith)) ∙ front.outside a (inr q)
          ];
        },
      )

NoNull-suffix : (p t s : List ℕ) → p ++ t ≡ s → NoNull s → NoNull t
NoNull-suffix p t s e nn = behind p t (rw e nn)
  where
    behind : (p t : List ℕ) → NoNull (p ++ t) → NoNull t
    behind [] t nn = nn
    behind (c ∷ p) t nn = behind p t nn.1

strip-NoNull : (s : List ℕ) → NoNull s → NoNull (strip_antisocial_prefixes s)
strip-NoNull s nn = elim (strip_antisocial_prefixes_lem s).1 [
  | inl here ↦ rw here (omega arith, tt)
  | inr (p, e) ↦ NoNull-suffix p (strip_antisocial_prefixes s) s e nn
]

-- A header made for a regular file or a directory, in memory that does not wrap around, with a size
-- below 2 ^ 31: if the name without its dangerous prefixes has at most 99 characters, the header is
-- made, no byte outside it changes, and parsing it gives that name, the type, and the size, or 0 for a
-- directory. If that name is longer nothing is written and the result is false.
pub parse-make :
    (file_name : List ℕ) (type size h : ℕ) (m : Memory)
    → NoNull file_name
    → h + 512 ≤ 2 ^ 32
    → size < 2 ^ 31
    → (type ≡ ustar_regular) ⊎ (type ≡ ustar_directory)
    → (length (strip_antisocial_prefixes file_name) ≤ 99
        → (m' : Memory) × (ustar_make_header file_name type size h m ≡ some (true, m'))
          × (ustar_parse_header h m' ≡ parsed_as (strip_antisocial_prefixes file_name) type size)
          × ((a : ℕ) → (a < h) ⊎ (h + 512 ≤ a) → m' a ≡ m a))
      × (99 < length (strip_antisocial_prefixes file_name)
          → ustar_make_header file_name type size h m ≡ some (false, m))
unfolding ustar_make_header
parse-make file_name type size h m nn fits small kind =
    let name = strip_antisocial_prefixes file_name in
    let safe = strip_antisocial_prefixes-IsSafe file_name in
    let known : ((type == ustar_regular) || (type == ustar_directory)) ≡ true =
      ground (arith, kind) in
    (
      λ short.
          let (m', done) = made h name type size m fits (omega arith) small in
          let room : ltb 99 (length name) ≡ false = ground (arith, short) in
          (
            m',
            rw (known, room, done.steps) refl,
            ustar_parse_header-IsHeader safe (strip-NoNull file_name nn) (omega arith) small kind
                done.header,
            done.outside,
          ),
      λ long. rw (known, lt→ltb 99 (length name) long) refl,
    )
