-- ===== src/Egress/Paths.antt =====
-- Paths of requests: `str.strip("/")`, `str.split("/")` and the tests on texts that
-- modules/integration/native_finance_guard.py makes.
use Prim.Native.Char.{code}
use baobab_erp.Common.{
  String, string_eq, nat_eq, ◌≡◌, refl, Bool, false, ◌&&◌, List, [], ◌∷◌, ◌==◌, any, if◌then◌else◌,
}
use baobab_erp.Text.{codes}

-- the text before the first slash, put before the other parts
push : Prim.Native.Char.Char → List String → List String
push c [] = String.◌∷◌ c "" ∷ []
push c (part ∷ parts) = String.◌∷◌ c part ∷ parts

-- `value.split("/")`
unfoldable pub split_slash : String → List String
unfolding push
split_slash String.[] = "" ∷ []
split_slash (String.◌∷◌ c s) =
    let rest = split_slash s in if code c == b'/' then "" ∷ rest else push c rest

strip_left : String → String
strip_left String.[] = ""
strip_left (String.◌∷◌ c s) =
    let rest = strip_left s in if code c == b'/' then rest else String.◌∷◌ c s

strip_right : String → String
strip_right String.[] = ""
strip_right (String.◌∷◌ c s) =
    let rest = strip_right s in if code c == b'/' && rest == "" then "" else String.◌∷◌ c rest

-- `value.strip("/")`
unfoldable pub strip_slashes : String → String
unfolding strip_left strip_right
strip_slashes s = strip_right (strip_left s)

-- `value.endswith("/")`
unfoldable pub ends_with_slash : String → Bool
ends_with_slash String.[] = false
ends_with_slash (String.◌∷◌ c s) =
    let rest = ends_with_slash s in if s == "" then code c == b'/' else rest

-- `"%" in value`
unfoldable pub has_percent : String → Bool
has_percent s = any (λ c. c == b'%') (codes s)

runs : split_slash (strip_slashes "/models/C_Order/") ≡ "models" ∷ "C_Order" ∷ []
unfolding split_slash strip_slashes
runs = refl
