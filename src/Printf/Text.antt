-- ===== src/Printf/Text.antt =====
-- Texts of the source as the list of their bytes, which are ASCII.
use Prim.Native.Char.{code}
use Prim.Native.String.{String}
use projectmod.Base.{ℕ, List, [], ◌∷◌}

abbrev pub codes : String → List ℕ
codes String.[] = []
codes (String.◌∷◌ c s) = code c ∷ codes s
