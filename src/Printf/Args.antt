-- ===== src/Printf/Args.antt =====
-- The arguments of `__vprintf` of lib/stdio.c, as `va_arg` fetches them on a machine of 32 bits.
use projectmod.Base.{
  ℕ, ◌-◌, ◌*◌, ◌%◌, ◌^◌, Bool, true, false, Option, none, some, List, [], ◌∷◌, ltb, if◌then◌else◌,
  ◌>>=◌,
}
use projectmod.Printf.{ArgType, char, short, int, intmax, long, longlong, ptrdifft, sizet}
use projectmod.Printf.Text.{codes}

-- What `va_arg` can fetch: a word of 32 bits, one of 64, and a string or the null pointer in its place.
pub data Arg : Type 0 where
  word : ℕ → Arg
  wide : ℕ → Arg
  text : List ℕ → Arg
  null_text : Arg

abbrev pub Args : Type 0
Args = List Arg

-- `va_arg` of a type that the argument does not have is undefined.
unfoldable pub next_word : Args → Option (ℕ × Args)
next_word [] = none
next_word (word n ∷ args) = some (n % 2 ^ 32, args)
next_word (wide n ∷ args) = none
next_word (text s ∷ args) = none
next_word (null_text ∷ args) = none

unfoldable pub next_wide : Args → Option (ℕ × Args)
next_wide [] = none
next_wide (word n ∷ args) = none
next_wide (wide n ∷ args) = some (n % 2 ^ 64, args)
next_wide (text s ∷ args) = none
next_wide (null_text ∷ args) = none

-- The string that `%s` gets.
unfoldable pub next_text : Args → Option (List ℕ × Args)
next_text [] = none
next_text (word n ∷ args) = none
next_text (wide n ∷ args) = none
next_text (text s ∷ args) = some (s, args)
next_text (null_text ∷ args) = some (codes "(null)", args)

-- An integer of `w` bits, the sign first, and its absolute value.
unfoldable pub signed_of : ℕ → ℕ → Bool × ℕ
signed_of half n =
    if ltb (n % (2 * half)) half then (false, n % (2 * half)) else (true, 2 * half - n % (2 * half))

unfoldable pub signed_arg : ArgType → Args → Option ((Bool × ℕ) × Args)
unfolding next_word next_wide signed_of
signed_arg char args = next_word args >>= λ (n, rest). some (signed_of 128 n, rest)
signed_arg short args = next_word args >>= λ (n, rest). some (signed_of (2 ^ 15) n, rest)
signed_arg int args = next_word args >>= λ (n, rest). some (signed_of (2 ^ 31) n, rest)
signed_arg intmax args = next_wide args >>= λ (n, rest). some (signed_of (2 ^ 63) n, rest)
signed_arg long args = next_word args >>= λ (n, rest). some (signed_of (2 ^ 31) n, rest)
signed_arg longlong args = next_wide args >>= λ (n, rest). some (signed_of (2 ^ 63) n, rest)
signed_arg ptrdifft args = next_word args >>= λ (n, rest). some (signed_of (2 ^ 31) n, rest)
signed_arg sizet args = next_word args >>= λ (n, rest). some (signed_of (2 ^ 31) n, rest)

unfoldable pub unsigned_arg : ArgType → Args → Option (ℕ × Args)
unfolding next_word next_wide
unsigned_arg char args = next_word args >>= λ (n, rest). some (n % 256, rest)
unsigned_arg short args = next_word args >>= λ (n, rest). some (n % 2 ^ 16, rest)
unsigned_arg int args = next_word args
unsigned_arg intmax args = next_wide args
unsigned_arg long args = next_word args
unsigned_arg longlong args = next_wide args
unsigned_arg ptrdifft args = next_word args
unsigned_arg sizet args = next_word args
