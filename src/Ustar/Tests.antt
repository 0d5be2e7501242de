-- ===== src/Ustar/Tests.antt =====
-- A header that is made and parsed, and the theorems at concrete names.
use projectmod.Base.{
  ℕ, ◌+◌, ◌≤◌, ◌<◌, ◌≡◌, refl, ◌⊎◌, inl, true, false, none, some, List, ◌++◌, arith, length,
}
use projectmod.Strings.{Memory}
use projectmod.Ustar.Names.{IsInside, strip_antisocial_prefixes_lem}
use projectmod.Ustar.Header.{parsed_as}
use projectmod.Ustar.Made.{parse-make}
use projectmod.Printf.{accumulate, pad_zeros, rendered_precision, begin_octal}
use projectmod.Printf.Text.{codes}
use projectmod.Palloc.{memset}
use projectmod.Printf.Format.{vsnprintf}
use projectmod.Ustar.{chksum_from, strip_antisocial_prefixes, ustar_make_header}
use projectmod.Ustar.Parse.{Parsed, archive_end, member, parse_size, ustar_parse_header}

abbrev made_and_parsed : Parsed
unfolding ustar_make_header ustar_parse_header memset accumulate pad_zeros rendered_precision
    begin_octal vsnprintf chksum_from parse_size
made_and_parsed = elim (ustar_make_header (codes "/../a.txt") b'0' 1234 4096 (λ a. 7)) [
  | none ↦ archive_end
  | some (ok, m) ↦ ustar_parse_header 4096 m
]

round : made_and_parsed ≡ member (codes "a.txt") b'0' 1234
unfolding made_and_parsed ustar_make_header ustar_parse_header memset accumulate pad_zeros
    rendered_precision begin_octal vsnprintf chksum_from parse_size
round = refl

strip_antisocial_prefixes_lem_example :
    IsInside (strip_antisocial_prefixes (codes "/.././..//"))
    × ((strip_antisocial_prefixes (codes "/.././..//") ≡ codes ".")
        ⊎ ((p : List ℕ) × (p ++ strip_antisocial_prefixes (codes "/.././..//")
              ≡ codes "/.././..//")))
strip_antisocial_prefixes_lem_example = strip_antisocial_prefixes_lem (codes "/.././..//")

parse-make_example :
    (length (strip_antisocial_prefixes (codes "../a")) ≤ 99
      → (m' : Memory) × (ustar_make_header (codes "../a") b'0' 1234 4096 (λ a. 7) ≡ some (true, m'))
        × (ustar_parse_header 4096 m'
            ≡ parsed_as (strip_antisocial_prefixes (codes "../a")) b'0' 1234)
        × ((a : ℕ) → (a < 4096) ⊎ (4096 + 512 ≤ a) → m' a ≡ 7))
    × (99 < length (strip_antisocial_prefixes (codes "../a"))
        → ustar_make_header (codes "../a") b'0' 1234 4096 (λ a. 7) ≡ some (false, λ a. 7))
parse-make_example =
    parse-make (codes "../a") b'0' 1234 4096 (λ a. 7) (omega arith) (omega arith) (omega arith)
      (inl refl)
