-- ===== src/Bytes/Text.antt =====
-- The bytes of a literal string.
use Prim.Native.Char.{code}
use Prim.Native.String.{String}
use learn_apue.Base.{ℕ, Bool, ◌||◌, str_eq, List, [], ◌∷◌}

-- The code points of a string are its bytes, if it is ASCII. `String` has its own `[]` and `∷`.
abbrev pub codes : String → List ℕ
codes String.[] = []
codes (String.◌∷◌ c s) = code c ∷ codes s

-- The name of an entry of a directory is "." or "..".
unfoldable pub is_dots : List ℕ → Bool
is_dots name = str_eq name (codes ".") || str_eq name (codes "..")
