-- ===== src/Gates/Documentary.antt =====
-- The documentary restriction of the control plane (modules/order_to_cash/documentary_restriction.py):
-- what unblocks an operation. Contracts and times are read as in
-- Gates/Decision.antt.
use baobab_erp.Common.{
  ℕ, ◌+◌, ◌*◌, String, string_eq, nat_eq, Bool, not, ◌&&◌, ◌||◌, Option, none, some, leb, ltb,
  Result, ok, err, ◌>>=◌, ◌>>◌, raise_if, or_raise,
}
use baobab_erp.Json.{Value, Fields, text, obj, end, field, get, is_false, equals_text}
use baobab_erp.Gates.Decision.{
  GateError, not_authorised, LegalActorOperation, as_object, second, validate_operation, time_of,
}
use baobab_erp.Gates.Action.{Act}

abbrev pub policy : String
policy = "ADR-BCP-026/PEO-02T:negative-only"

abbrev pub max_lease : ℕ
max_lease = 2 * second

abbrev pub max_age : ℕ
max_age = 3 * second

-- `restriction_request`, after the validation of the operation
unfoldable pub restriction_request : LegalActorOperation → Fields
restriction_request op = field "context_id" (text op.context_id) (
    field "capability" (text op.capability) (
      field "market" (text op.market)
        (field "operation_reference" (text op.operation_reference) end)))

-- the answer is for this operation, under this policy
unfoldable pub is_for : LegalActorOperation → Fields → Bool
unfolding get
is_for op raw =
    equals_text (get "context_id" raw) op.context_id
    && equals_text (get "organisation_id" raw) op.operating_organisation_id
    && equals_text (get "capability" raw) op.capability
    && equals_text (get "market" raw) op.market
    && equals_text (get "operation_reference" raw) op.operation_reference
    && equals_text (get "policy_reference" raw) policy

-- the limits of an answer's lease
unfoldable pub is_fresh : ℕ → ℕ → ℕ → Bool
is_fresh now evaluated expires = not (
    ltb (now + second) evaluated
    || ltb (evaluated + max_age) now
    || leb expires now
    || leb expires evaluated
    || ltb (evaluated + max_lease) expires)

module _ (valid_contract : String → Value → Bool) (read_time : Value → Option (Option ℕ)) where
  -- `assert_documentary_scope_unblocked`
  unfoldable pub assert_unblocked : LegalActorOperation → Value → ℕ → Result GateError (Unit {0})
  unfolding is_for is_fresh get
  assert_unblocked op answer now = do
    validate_operation valid_contract read_time op
    raise_if (not (valid_contract "documentary_response" answer)) not_authorised
    raw ← or_raise (as_object answer) not_authorised
    raise_if
        (not (is_for op raw)
          || not (is_false (get "blocked" raw))
          || not (is_false (get "authority_granted" raw)))
        not_authorised
    evaluated ← or_raise (time_of valid_contract read_time "evaluated_at" raw) not_authorised
    expires ← or_raise (time_of valid_contract read_time "expires_at" raw) not_authorised
    raise_if (not (is_fresh now evaluated expires)) not_authorised
    ok tt

  module _ {W : Type 0} where
    -- every error of the assessor is a refusal
    abbrev pub answered :
        LegalActorOperation → ℕ → Result GateError Value × W → Result GateError (Unit {0}) × W
    answered op now (ok answer, w) = (assert_unblocked op answer now, w)
    answered op now (err e, w) = (err not_authorised, w)

    abbrev pub asked :
        Result GateError (Unit {0})
        → (Value → Act W Value)
        → LegalActorOperation
        → ℕ
        → Act W (Unit {0})
    asked (err e) assess op now w = (err not_authorised, w)
    asked (ok valid) assess op now w = answered op now (assess (obj (restriction_request op)) w)

    -- `require_documentary_scope_unblocked`
    unfoldable pub require_unblocked :
        Option (Value → Act W Value) → LegalActorOperation → ℕ → Act W (Unit {0})
    require_unblocked none op now w = (err not_authorised, w)
    require_unblocked (some assess) op now w =
        asked (validate_operation valid_contract read_time op) assess op now w
