-- ===== src/Printf/Ends.antt =====
-- The loop of `__vprintf` ends, and prints the format piece by piece.
use projectmod.Base.{
  ℕ, ◌≤◌, ◌≡◌, ◌⊎◌, Bool, false, ◌++◌, Option, none, some, List, [], ◌∷◌, ◌==◌, length,
}
use projectmod.Printf.{Conversion}
use projectmod.Printf.Args.{Args}
use projectmod.Printf.Parse.{parse_conversion}
use projectmod.Printf.Format.{convert}

-- Whether a `%` follows that of a conversion.
unfoldable pub begins_escape : List ℕ → Bool
begins_escape [] = false
begins_escape (ch ∷ s) = ch == b'%'

-- What `__vprintf` prints of a format, piece by piece.
pub data Prints : List ℕ → Args → List ℕ → Type 0 where
  nothing : (args : Args) → Prints [] args []
  literal :
      (ch : ℕ) (s : List ℕ) (args : Args) (out : List ℕ)
      → (ch == b'%') ≡ false
      → Prints s args out
      → Prints (ch ∷ s) args (ch ∷ out)
  escape :
      (s : List ℕ) (args : Args) (out : List ℕ)
      → Prints s args out
      → Prints (b'%' ∷ b'%' ∷ s) args (b'%' ∷ out)
  conversion :
      (s t : List ℕ) (c : Conversion) (ch : ℕ) (args before after : Args) (piece out : List ℕ)
      → begins_escape s ≡ false
      → parse_conversion s args ≡ some (c, ch ∷ t, before)
      → convert ch c before ≡ some (piece, after)
      → Prints t after out
      → Prints (b'%' ∷ s) args (piece ++ out)

-- The formats that it cannot get through: somewhere a conversion lacks an argument, or the format ends
-- in it.
pub data Fails : List ℕ → Args → Type 0 where
  literal_fails :
      (ch : ℕ) (s : List ℕ) (args : Args)
      → (ch == b'%') ≡ false
      → Fails s args
      → Fails (ch ∷ s) args
  escape_fails : (s : List ℕ) (args : Args) → Fails s args → Fails (b'%' ∷ b'%' ∷ s) args
  later_fails :
      (s t : List ℕ) (c : Conversion) (ch : ℕ) (args before after : Args) (piece : List ℕ)
      → begins_escape s ≡ false
      → parse_conversion s args ≡ some (c, ch ∷ t, before)
      → convert ch c before ≡ some (piece, after)
      → Fails t after
      → Fails (b'%' ∷ s) args
  not_parsed :
      (s : List ℕ) (args : Args)
      → begins_escape s ≡ false
      → parse_conversion s args ≡ none
      → Fails (b'%' ∷ s) args
  not_finished :
      (s : List ℕ) (c : Conversion) (args before : Args)
      → begins_escape s ≡ false
      → parse_conversion s args ≡ some (c, [], before)
      → Fails (b'%' ∷ s) args
  not_converted :
      (s t : List ℕ) (c : Conversion) (ch : ℕ) (args before : Args)
      → begins_escape s ≡ false
      → parse_conversion s args ≡ some (c, ch ∷ t, before)
      → convert ch c before ≡ none
      → Fails (b'%' ∷ s) args

abbrev pub Outcome : List ℕ → Args → Option (List ℕ) → Type 0
Outcome s args r =
    ((out : List ℕ) × (r ≡ some out) × Prints s args out) ⊎ ((r ≡ none) × Fails s args)

-- What is printed for formats of at most `n` characters is known.
abbrev Known : ℕ → (List ℕ → Args → Option (List ℕ)) → Type 0
Known n next = (s : List ℕ) (args : Args) → length s ≤ n → Outcome s args (next s args)
