-- ===== src/Text/Tests.antt =====
-- The engine of patterns at a concrete pattern and word.
use baobab_erp.Common.{◌≡◌, ◌↔◌, true, [], ◌∷◌}
use baobab_erp.Text.Patterns.{seq, star, cls, match_codes}
use baobab_erp.Text.Match.{Lang, match_codes_iff}

match_codes_iff_example :
    (match_codes (seq (cls ((97, 122) ∷ [])) (star (cls ((48, 57) ∷ [])))) (98 ∷ 49 ∷ []) ≡ true)
    ↔ Lang (seq (cls ((97, 122) ∷ [])) (star (cls ((48, 57) ∷ [])))) (98 ∷ 49 ∷ [])
match_codes_iff_example =
    match_codes_iff (seq (cls ((97, 122) ∷ [])) (star (cls ((48, 57) ∷ [])))) (98 ∷ 49 ∷ [])
