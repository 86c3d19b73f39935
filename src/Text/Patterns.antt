-- ===== src/Text/Patterns.antt =====
-- Regular expressions, matched by derivatives: `fullmatch` of Python's `re` for the patterns that
-- the program writes.
use baobab_erp.Common.{
  ℕ, suc, zero, Bool, true, false, ◌&&◌, ◌||◌, List, [], ◌∷◌, leb, if◌then◌else◌,
}
use Prim.Native.String.{String}
use baobab_erp.Text.Codes.{codes}

pub data Regex : Type 0 where
  none_of : Regex
  eps : Regex
  cls : List (ℕ × ℕ) → Regex
  seq : Regex → Regex → Regex
  alt : Regex → Regex → Regex
  star : Regex → Regex

-- a character class: inclusive ranges
unfoldable pub in_class : List (ℕ × ℕ) → ℕ → Bool
in_class [] c = false
in_class ((lo, hi) ∷ rs) c = (leb lo c && leb c hi) || in_class rs c

-- `seq` and `alt` without the parts that match nothing, so that derivatives stay small
unfoldable pub join : Regex → Regex → Regex
join none_of r = none_of
join eps r = r
join q r = seq q r

unfoldable pub either : Regex → Regex → Regex
either none_of r = r
either q none_of = q
either q r = alt q r

unfoldable pub nullable : Regex → Bool
nullable none_of = false
nullable eps = true
nullable (cls _) = false
nullable (seq q r) = nullable q && nullable r
nullable (alt q r) = nullable q || nullable r
nullable (star _) = true

unfoldable pub deriv : ℕ → Regex → Regex
unfolding in_class join either nullable
deriv c none_of = none_of
deriv c eps = none_of
deriv c (cls rs) = if in_class rs c then eps else none_of
deriv c (seq q r) =
    let first = join (deriv c q) r in if nullable q then either first (deriv c r) else first
deriv c (alt q r) = either (deriv c q) (deriv c r)
deriv c (star r) = join (deriv c r) (star r)

unfoldable pub match_codes : Regex → List ℕ → Bool
unfolding nullable deriv
match_codes r [] = nullable r
match_codes r (c ∷ cs) = match_codes (deriv c r) cs

-- `pattern.fullmatch(value)`
unfoldable pub fullmatch : Regex → String → Bool
unfolding match_codes
fullmatch r s = match_codes r (codes s)

-- the combinators that the patterns are written with
abbrev pub opt : Regex → Regex
opt r = alt eps r

abbrev pub plus : Regex → Regex
plus r = seq r (star r)

abbrev pub times : ℕ → Regex → Regex
times zero r = eps
times (suc n) r = seq r (times n r)

-- between `lo` and `lo + more` occurrences
abbrev pub up_to : ℕ → Regex → Regex
up_to zero r = eps
up_to (suc n) r = opt (seq r (up_to n r))

-- the literal text
abbrev pub lit_codes : List ℕ → Regex
lit_codes [] = eps
lit_codes (c ∷ cs) = seq (cls ((c, c) ∷ [])) (lit_codes cs)

abbrev pub lit : String → Regex
lit s = lit_codes (codes s)
