-- ===== src/Text/Codes.antt =====
-- A Python string is a sequence of code points; its length is their number.
use Prim.Native.Char.{code}
use Prim.Native.String.{String}
use baobab_erp.Common.{ℕ, List, [], ◌∷◌, length}

abbrev pub codes : String → List ℕ
codes String.[] = []
codes (String.◌∷◌ c s) = code c ∷ codes s

-- `len(value)`
unfoldable pub len : String → ℕ
len s = length (codes s)
