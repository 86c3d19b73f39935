-- ===== src/Identifiers.antt =====
-- The identifier grammars of modules/mapping/identifiers.py.
use baobab_erp.Common.{ℕ, String, ◌≡◌, refl, ◌&&◌, [], ◌∷◌, leb, Result, ok, err, if◌then◌else◌}
use baobab_erp.Text.{Regex, cls, seq, star, plus, lit, fullmatch, len}

abbrev pub lower_digits : Regex
lower_digits = cls ((b'a', b'z') ∷ (b'0', b'9') ∷ [])

abbrev pub upper_digits : Regex
upper_digits = cls ((b'A', b'Z') ∷ (b'0', b'9') ∷ [])

-- `^tn_[a-z0-9]+$`, `^map_[a-z0-9]+$` and `^erp_[a-z0-9]+$`
abbrev pub tenant_pattern : Regex
tenant_pattern = seq (lit "tn_") (plus lower_digits)

abbrev pub mapping_pattern : Regex
mapping_pattern = seq (lit "map_") (plus lower_digits)

abbrev pub erp_resource_pattern : Regex
erp_resource_pattern = seq (lit "erp_") (plus lower_digits)

-- `^[A-Z][A-Z0-9]*(?:-[A-Z0-9]+)*$`
abbrev pub legal_entity_pattern : Regex
legal_entity_pattern =
    seq (cls ((b'A', b'Z') ∷ []))
      (seq (star upper_digits) (star (seq (lit "-") (plus upper_digits))))

pub data IdentifierError : Type 0 where
  identifier_error : IdentifierError

-- `_check`
unfoldable pub check : String → Regex → ℕ → ℕ → Result IdentifierError String
unfolding fullmatch len
check value pattern low high =
    if leb low (len value) && leb (len value) high && fullmatch pattern value
    then ok value
    else err identifier_error

unfoldable pub tenant_id : String → Result IdentifierError String
unfolding check
tenant_id value = check value tenant_pattern 6 63

unfoldable pub legal_entity_id : String → Result IdentifierError String
unfolding check
legal_entity_id value = check value legal_entity_pattern 3 63

unfoldable pub mapping_id : String → Result IdentifierError String
unfolding check
mapping_id value = check value mapping_pattern 8 63

unfoldable pub erp_resource_id : String → Result IdentifierError String
unfolding check
erp_resource_id value = check value erp_resource_pattern 8 63

tenant_ok : tenant_id "tn_acme1" ≡ ok "tn_acme1"
unfolding tenant_id
tenant_ok = refl

legal_entity_tests :
    (legal_entity_id "ZURI-KE" ≡ ok "ZURI-KE")
    × (legal_entity_id "ZURI-" ≡ err identifier_error)
    × (tenant_id "tn_A" ≡ err identifier_error)
unfolding legal_entity_id tenant_id
legal_entity_tests = (refl, refl, refl)
