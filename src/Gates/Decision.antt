-- ===== src/Gates/Decision.antt =====
-- What counts as a current decision for an operation (`LegalActorOperation.validate` and
-- `assert_current_decision` of modules/order_to_cash/legal_actor_gate.py). `valid_contract name value`
-- stands for the JSON schema validator and `read_time` for `datetime.fromisoformat` on the text of a
-- value: none where it raises, `some none` for a time without a zone. Instants are in microseconds.
use baobab_erp.Common.{
  ℕ, ◌+◌, ◌*◌, String, string_eq, Bool, true, false, not, ◌&&◌, ◌||◌, Option, none, some, List, [],
  ◌∷◌, ◌==◌, any, leb, ltb, Result, ok, ◌>>=◌, ◌>>◌, raise_if, or_raise, if◌then◌else◌,
}
use baobab_erp.Text.{cls, times, fullmatch}
use baobab_erp.Json.{
  Value, Items, Fields, text, arr, obj, end, field, stop, item, member, get, is_false, equals_text,
}

-- LegalActorNotAuthorised, or an exception of a port
pub data GateError : Type 0 where
  not_authorised : GateError
  unavailable : String → GateError

pub record LegalActorOperation : Type 0 where
  pub context_id : String
  pub tenant_id : String
  pub operating_organisation_id : String
  pub expected_legal_entity_id : String
  pub role : String
  pub activity : String
  pub market : String
  pub capability : String
  pub operation_reference : String

abbrev pub allowed_roles : List String
allowed_roles = "INVOICE_ISSUER" ∷ "ACCOUNTING_ENTITY" ∷ "CONTRACTING_PARTY" ∷ []

abbrev pub second : ℕ
second = 1_000_000

abbrev pub max_decision_age : ℕ
max_decision_age = 30 * second

-- the request that the assessor gets
unfoldable pub request_of : LegalActorOperation → Value
request_of op = obj (
    field "context_id" (text op.context_id) (
      field "role" (text op.role) (
        field "activity" (text op.activity) (
          field "market" (text op.market) (
            field "capability" (text op.capability)
              (field "operation_reference" (text op.operation_reference) end))))))

unfoldable pub has_empty : LegalActorOperation → Bool
has_empty op =
    any (λ s. s == "")
      (op.context_id ∷ op.tenant_id ∷ op.operating_organisation_id ∷ op.expected_legal_entity_id
        ∷ op.activity ∷ op.capability ∷ op.operation_reference ∷ [])

-- a text that is not empty
abbrev pub some_text : Value → Option String
some_text (text s) = if s == "" then none else some s
some_text _ = none

unfoldable pub all_texts : Items → Bool
all_texts stop = true
all_texts (item (text s) vs) = not (s == "") && all_texts vs
all_texts (item _ vs) = false

-- a list that is not empty, of texts that are not
abbrev pub is_evidence : Value → Bool
is_evidence (arr (item v vs)) = all_texts (item v vs)
is_evidence _ = false

abbrev pub as_object : Value → Option Fields
as_object (obj fs) = some fs
as_object _ = none

-- the members `evaluated_at` and `valid_until`, with a zone
abbrev pub zoned : Option (Option ℕ) → Option ℕ
zoned (some (some at)) = some at
zoned _ = none

-- the limits of a decision's validity
unfoldable pub is_current : ℕ → ℕ → ℕ → Bool
is_current now evaluated valid_until = not (
    ltb (now + second) evaluated
    || ltb (evaluated + max_decision_age) now
    || leb valid_until now
    || ltb (evaluated + max_decision_age + second) valid_until)

module _ (valid_contract : String → Value → Bool) (read_time : Value → Option (Option ℕ)) where
  unfoldable pub validate_operation : LegalActorOperation → Result GateError (Unit {0})
  validate_operation op = do
    raise_if (not (valid_contract "context_uuid" (text op.context_id))) not_authorised
    raise_if (not (valid_contract "legal_request" (request_of op))) not_authorised
    raise_if
        (has_empty op
          || not (any (λ r. r == op.role) allowed_roles)
          || not (fullmatch (times 2 (cls ((b'A', b'Z') ∷ []))) op.market))
        not_authorised
    ok tt

  -- the time of a member, which must be there
  abbrev pub time_of : String → Fields → Option ℕ
  time_of name fs = elim (member name fs) [ none ↦ none | some v ↦ zoned (read_time v) ]

  unfoldable pub check_resolution : LegalActorOperation → Fields → ℕ → Result GateError String
  check_resolution op resolution now = do
    raise_if (not (equals_text (get "outcome" resolution) "AUTHORIZED")) not_authorised
    raise_if
        (not
          (equals_text (get "responsible_legal_entity_id" resolution) op.expected_legal_entity_id))
        not_authorised
    mandate ← or_raise (some_text (get "mandate_id" resolution)) not_authorised
    raise_if (not (is_evidence (get "evidence_references" resolution))) not_authorised
    evaluated ← or_raise (time_of "evaluated_at" resolution) not_authorised
    valid_until ← or_raise (time_of "valid_until" resolution) not_authorised
    raise_if (not (is_current now evaluated valid_until)) not_authorised
    ok mandate

  -- `assert_current_decision`: the mandate
  unfoldable pub assert_current_decision :
      LegalActorOperation → Fields → ℕ → Result GateError String
  assert_current_decision op response now = do
    validate_operation op
    raise_if (not (valid_contract "legal_response" (obj response))) not_authorised
    raise_if
        (not (equals_text (get "context_id" response) op.context_id)
          || not (equals_text (get "operation_reference" response) op.operation_reference)
          || not (is_false (get "provider_permissions_granted" response)))
        not_authorised
    resolution ← or_raise (as_object (get "legal_actor_resolution" response)) not_authorised
    check_resolution op resolution now
