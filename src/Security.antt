-- ===== src/Security.antt =====
-- Message signatures (modules/security/signing.py). `hmac` is `hmac.new(secret, body, sha256)` of
-- Python's standard library, as its hexadecimal text.
use baobab_erp.Common.{
  ℕ, String, ◌<>◌, string_eq, Bool, false, ◌||◌, List, ◌==◌, is_empty, if◌then◌else◌,
}
use baobab_erp.Events.{remove_prefix}

module _ (hmac : String → List ℕ → String) where
  unfoldable pub sign_body : List ℕ → String → String
  sign_body body secret = "sha256=" <> hmac secret body

  unfoldable pub verify_signature : List ℕ → String → String → Bool
  unfolding remove_prefix
  verify_signature body supplied_signature secret =
      if is_empty body || supplied_signature == "" || secret == ""
      then false
      else hmac secret body == remove_prefix "sha256=" supplied_signature
