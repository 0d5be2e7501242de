-- ===== src/Ustar.antt =====
-- lib/ustar.c: headers of ustar archives, in memory at an address. A file name is the list of its bytes
-- before the null. The message for a name that is too long is left out.
pub mod Field
pub mod Parse
mod Names
mod Octal
mod Numbers
mod Fields
mod Header
mod Made
mod Tests
use projectmod.Base.{
  ℕ, zero, suc, ◌+◌, ◌-◌, ◌*◌, ◌/◌, ◌%◌, ◌^◌, Bool, true, false, not, ◌&&◌, ◌||◌, Option, none,
  some, List, [], ◌∷◌, ◌==◌, ltb, leb, if◌then◌else◌, ◌>>=◌, length, take, drop,
}
use projectmod.Ustar.Field
use projectmod.Strings.{Memory, store}
use projectmod.Palloc.{memset}
use projectmod.Printf.Text.{codes}
use projectmod.Printf.Args.{word}
use projectmod.Printf.Format.{vsnprintf}

-- enum ustar_type; USTAR_EOF is -1 and stands for itself in what `ustar_parse_header` returns.
abbrev pub ustar_regular : ℕ
ustar_regular = b'0'

abbrev pub ustar_directory : ℕ
ustar_directory = b'5'

-- `header[i]`, or a space in the chksum field
unfoldable pub summand : Memory → ℕ → ℕ → ℕ
summand m h i = if leb Field.chksum i && ltb i (Field.chksum + 8) then b' ' else m (h + i) % 256

-- `calculate_chksum` from byte `i` on, with `n` bytes to go; the sum is far below 2 ^ 32.
unfoldable pub chksum_from : (n i h : ℕ) → Memory → ℕ
unfolding summand
chksum_from zero i h m = 0
chksum_from (suc n) i h m = summand m h i + chksum_from n (i + 1) h m

unfoldable pub calculate_chksum : ℕ → Memory → ℕ
calculate_chksum h m = chksum_from 512 0 h m

-- What stands behind the first slash.
unfoldable pub after_slash : List ℕ → List ℕ
after_slash [] = []
after_slash (c ∷ s) = let rest = after_slash s in if c == b'/' then s else rest

-- `*file_name == '/' || !memcmp (file_name, "./", 2) || !memcmp (file_name, "../", 3)`
unfoldable pub is_antisocial : List ℕ → Bool
is_antisocial [] = false
is_antisocial (a ∷ []) = a == b'/'
is_antisocial (a ∷ b ∷ []) = (a == b'/') || ((a == b'.') && (b == b'/'))
is_antisocial (a ∷ b ∷ c ∷ s) =
    (a == b'/') || ((a == b'.') && (b == b'/') || ((a == b'.') && ((b == b'.') && (c == b'/'))))

-- The loop of `strip_antisocial_prefixes`, with fuel for its rounds.
unfoldable pub strip_loop : (fuel : ℕ) → List ℕ → List ℕ
unfolding is_antisocial after_slash
strip_loop zero s = s
strip_loop (suc f) s = elim (is_antisocial s) [ true ↦ strip_loop f (after_slash s) | false ↦ s ]

unfoldable pub is_parent : List ℕ → Bool
is_parent [] = false
is_parent (a ∷ []) = false
is_parent (a ∷ b ∷ []) = (a == b'.') && (b == b'.')
is_parent (a ∷ b ∷ c ∷ s) = false

unfoldable pub or_here : List ℕ → List ℕ
unfolding is_parent
or_here [] = codes "."
or_here (a ∷ s) = if is_parent (a ∷ s) then codes "." else a ∷ s

unfoldable pub strip_antisocial_prefixes : List ℕ → List ℕ
unfolding strip_loop or_here
strip_antisocial_prefixes file_name = or_here (strip_loop (length file_name) file_name)

-- `strlcpy` of a text to an address.
unfoldable pub write_bytes : ℕ → List ℕ → Memory → Memory
write_bytes dst [] m = m
write_bytes dst (c ∷ s) m = write_bytes (dst + 1) s (store dst c m)

unfoldable pub put_string : (dst size : ℕ) → List ℕ → Memory → Memory
unfolding write_bytes
put_string dst size s m =
    let dst_len = if ltb (length s) (size - 1) then length s else size - 1 in
    store (dst + dst_len) 0 (write_bytes dst (take dst_len s) m)

-- `snprintf` of one number
unfoldable pub put_number : (dst size : ℕ) → List ℕ → ℕ → Memory → Option Memory
put_number dst size format n m =
    vsnprintf (suc (length format)) dst size format (word n ∷ []) m >>= λ (len, m'). some m'

-- The fields before the number of the size, and those behind it but the checksum.
unfoldable pub fill_front : ℕ → List ℕ → ℕ → Memory → Option Memory
unfolding put_string put_number
fill_front h name type m =
    put_number (h + Field.mode) 8 (codes "%07o") (if type == ustar_regular then 420 else 493)
      (put_string h 100 name (memset 512 h 0 m))
    >>= λ m'. some (
        put_string (h + Field.gid) 8 (codes "0000000")
          (put_string (h + Field.uid) 8 (codes "0000000") m'))

unfoldable pub fill_back : ℕ → ℕ → Memory → Memory
unfolding put_string
fill_back h type m = put_string (h + Field.uname) 32 (codes "root") (
    put_string (h + Field.gname) 32 (codes "root") (
      store (h + Field.version) b'0' (
        store (h + Field.version + 1) b'0'
          (put_string (h + Field.magic) 6 (codes "ustar") (store (h + Field.typeflag) type m)))))

-- All of the header.
unfoldable pub fill : (h : ℕ) → List ℕ → (type size : ℕ) → Memory → Option Memory
unfolding fill_front fill_back put_number calculate_chksum
fill h name type size m = fill_front h name type m >>= λ m1.
    put_number (h + Field.size) 12 (codes "%011o") size m1 >>= λ m2.
    put_number (h + Field.mtime) 12 (codes "%011o") 1136102400 m2 >>= λ m3.
    let m4 = fill_back h type m3 in
    put_number (h + Field.chksum) 8 (codes "%07o") (calculate_chksum h m4) m4

-- `ustar_make_header`: whether it succeeds, and the memory. `none` is an ASSERT that fails.
unfoldable pub ustar_make_header :
    (file_name : List ℕ) (type size h : ℕ) → Memory → Option (Bool × Memory)
unfolding strip_antisocial_prefixes fill
ustar_make_header file_name type size h m =
    let name = strip_antisocial_prefixes file_name in
    if (type == ustar_regular) || (type == ustar_directory)
    then (if ltb 99 (length name)
        then some (false, m)
        else (fill h name type size m >>= λ m'. some (true, m')))
    else none
