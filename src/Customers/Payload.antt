-- ===== src/Customers/Payload.antt =====
-- The customer that a `customer.projected` event asks for (modules/customers/payload.py). `strip` is
-- `str.strip`; `digest_of` is the SHA-256 of the JSON of the type, the name and the status, and
-- `hashed` that of a text.
use baobab_erp.Common.{
  ℕ, String, string_eq, ◌<>◌, ◌==◌, ltb, leb, Bool, true, false, not, ◌&&◌, Option, none, some,
  List, [], ◌∷◌, any, Result, ok, err, ◌>>=◌, ◌>>◌, raise_if, or_raise, if◌then◌else◌,
}
use baobab_erp.Text.{Regex, cls, times, fullmatch, len, codes}
use baobab_erp.Json.{Value, Fields, text, int, obj, arr, null, get}
use baobab_erp.Identifiers
use baobab_erp.Orders.{is_resource_id}

pub record CustomerProjection : Type 0 where
  pub legal_entity_id : String
  pub customer_id : String
  pub customer_version : ℕ
  pub customer_type : String
  pub display_name : String
  pub status : String

-- PayloadError with its fixed reason, and the TypeError of a value that cannot be looked up in a set
pub data PayloadError : Type 0 where
  payload_error : String → PayloadError
  unhashable : PayloadError

abbrev customer_types : List String
customer_types = "person" ∷ "organisation" ∷ []

abbrev statuses : List String
statuses = "active" ∷ "suspended" ∷ "closed" ∷ []

abbrev max_name : ℕ
max_name = 255

abbrev capital : Regex
capital = cls ((b'A', b'Z') ∷ [])

abbrev fields_of : Value → Option Fields
fields_of (obj fs) = some fs
fields_of _ = none

abbrev entity_of : Value → Option String
entity_of (text s) = elim (Identifiers.legal_entity_id s) [ ok v ↦ some s | err e ↦ none ]
entity_of _ = none

abbrev resource_of : Value → Option String
resource_of (text s) = if is_resource_id s then some s else none
resource_of _ = none

-- a positive int that is no Boolean
abbrev version_of : Value → Option ℕ
version_of (int n) = if leb 1 n then some n else none
version_of _ = none

-- `value not in ...` of a frozenset: a list or an object cannot be looked up
abbrev one_of : List String → String → Value → Result PayloadError String
one_of allowed reason (text s) =
    if any (λ t. t == s) allowed then ok s else err (payload_error reason)
one_of allowed reason (obj fs) = err unhashable
one_of allowed reason (arr vs) = err unhashable
one_of allowed reason _ = err (payload_error reason)

-- absent, or so many capitals
abbrev is_code : ℕ → Value → Bool
is_code n null = true
is_code n (text s) = fullmatch (times n capital) s
is_code n _ = false

module _ (strip : String → String) where
  abbrev name_of : Value → Option String
  name_of (text s) =
      if not (strip s == "") && leb (len s) max_name && not (any (λ c. ltb c 32) (codes s))
      then some s
      else none
  name_of _ = none

  -- `parse_customer_projected`
  unfoldable pub parse_customer_projected : Value → Result PayloadError CustomerProjection
  unfolding get fullmatch len
  parse_customer_projected raw = do
    fs ← or_raise (fields_of raw) (payload_error "data is not an object")
    entity ←
        or_raise (entity_of (get "legal_entity_id" fs))
          (payload_error "legal_entity_id is missing or malformed")
    customer ←
        or_raise (resource_of (get "customer_id" fs))
          (payload_error "customer_id is missing or not a canonical resource id")
    version ←
        or_raise (version_of (get "customer_version" fs))
          (payload_error "customer_version must be a positive integer")
    kind ←
        one_of customer_types "customer_type must be person or organisation"
          (get "customer_type" fs)
    name ←
        or_raise (name_of (get "display_name" fs))
          (payload_error "display_name must be 1-255 printable characters")
    status ← one_of statuses "status must be active, suspended or closed" (get "status" fs)
    raise_if (not (is_code 2 (get "billing_country" fs)))
        (payload_error "billing_country must be an ISO 3166-1 alpha-2 code")
    raise_if (not (is_code 3 (get "preferred_currency" fs)))
        (payload_error "preferred_currency must be an ISO 4217 code")
    ok (record {
      legal_entity_id = entity;
      customer_id = customer;
      customer_version = version;
      customer_type = kind;
      display_name = strip name;
      status = status;
    })

-- `active`
unfoldable pub is_active : CustomerProjection → Bool
is_active c = c.status == "active"

abbrev max_marker : ℕ
max_marker = 255

-- `marker`
unfoldable pub marker : (String → String) → String → CustomerProjection → String
unfolding len
marker hashed tenant_id c =
    let written =
      "baobab-customer:" <> (tenant_id <> (":" <> (c.legal_entity_id <> (":" <> c.customer_id)))) in
    if leb (len written) max_marker then written else "baobab-customer-sha256:" <> hashed written
