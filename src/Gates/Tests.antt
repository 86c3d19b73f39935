-- ===== src/Gates/Tests.antt =====
-- The legal-actor gate at a concrete operation. The world counts the native calls; every document
-- meets its schema; the texts "start" and "end" are read as two instants.
use baobab_erp.Common.{
  ℕ, ◌+◌, String, string_eq, ◌==◌, ◌≡◌, refl, Bool, true, false, Option, none, some, ok, err,
  if◌then◌else◌,
}
use baobab_erp.Json.{
  Value, Fields, bool, text, arr, obj, end, field, stop, item, get, member, is_false, equals_text,
}
use baobab_erp.Text.{fullmatch}
use baobab_erp.Gates.Decision.{
  not_authorised, LegalActorOperation, as_object, is_current, all_texts, has_empty,
  validate_operation, check_resolution, assert_current_decision,
}
use baobab_erp.Gates.Action.{Act, Ports, assess_now, perform_governed}
use baobab_erp.Gates.Authority.{
  Authorises, assert_current_decision-Authorises, Assessed, perform_governed-Assessed, nothing,
  refused_without_effect,
}

abbrev any_contract : String → Value → Bool
any_contract name v = true

abbrev two_instants : Value → Option (Option ℕ)
two_instants (text s) =
    if s == "start"
    then some (some 100_000_000)
    else if s == "end"
    then some (some 120_000_000)
    else none
two_instants _ = none

abbrev invoice : LegalActorOperation
invoice = record {
  context_id = "ctx";
  tenant_id = "tn_acme1";
  operating_organisation_id = "org_1";
  expected_legal_entity_id = "ZURI-KE";
  role = "INVOICE_ISSUER";
  activity = "invoice";
  market = "KE";
  capability = "post";
  operation_reference = "inv_1";
}

abbrev resolution : Fields
resolution = field "outcome" (text "AUTHORIZED") (
    field "responsible_legal_entity_id" (text "ZURI-KE") (
      field "mandate_id" (text "m1") (
        field "evidence_references" (arr (item (text "e1") stop))
          (field "evaluated_at" (text "start") (field "valid_until" (text "end") end)))))

abbrev decision : Fields
decision = field "context_id" (text "ctx") (
    field "operation_reference" (text "inv_1") (
      field "provider_permissions_granted" (bool false)
        (field "legal_actor_resolution" (obj resolution) end)))

decision_is_current :
    assert_current_decision any_contract two_instants invoice decision 105_000_000 ≡ ok "m1"
unfolding assert_current_decision validate_operation has_empty fullmatch check_resolution all_texts
    is_current get member
decision_is_current = refl

assert_current_decision-Authorises_example :
    (equals_text (get "context_id" decision) "ctx" ≡ true)
    × (equals_text (get "operation_reference" decision) "inv_1" ≡ true)
    × (is_false (get "provider_permissions_granted" decision) ≡ true)
    × ((r : Fields) × (as_object (get "legal_actor_resolution" decision) ≡ some r)
        × Authorises any_contract two_instants invoice r 105_000_000 "m1")
assert_current_decision-Authorises_example =
    assert_current_decision-Authorises any_contract two_instants invoice decision 105_000_000
      decision_is_current

abbrev ports : Ports ℕ
ports = record {
  assess = λ request w. (ok (obj decision), w);
  ensure_usable = λ op mandate w. (ok tt, w);
}

-- the native call, which gives a number and is counted
abbrev post : Act ℕ ℕ
post w = (ok 7, w + 1)

posted :
    perform_governed any_contract two_instants ports invoice 105_000_000 106_000_000 post 0
    ≡ (ok 7, 1)
unfolding perform_governed assess_now assert_current_decision validate_operation has_empty fullmatch
    check_resolution all_texts is_current get member
posted = refl

perform_governed-Assessed_example :
    (mandate : String) × ((w1 : ℕ) × ((w2 : ℕ) × ((w3 : ℕ) × Assessed any_contract two_instants
            ports invoice 105_000_000 mandate 0 w1
          × (ports.ensure_usable invoice mandate w1 ≡ (ok tt, w2))
          × Assessed any_contract two_instants ports invoice 106_000_000 mandate w2 w3
          × (post w3 ≡ (ok 7, 1)))))
perform_governed-Assessed_example =
    perform_governed-Assessed any_contract two_instants ports invoice 105_000_000 106_000_000 post 0
      1 posted

-- the second reading of the clock is after the end of the decision
refused_late :
    perform_governed any_contract two_instants ports invoice 105_000_000 120_000_000 nothing 0
    ≡ (err not_authorised, 0)
unfolding perform_governed assess_now assert_current_decision validate_operation has_empty fullmatch
    check_resolution all_texts is_current get member
refused_late = refl

refused_without_effect_example :
    perform_governed any_contract two_instants ports invoice 105_000_000 120_000_000 post 0
    ≡ (err not_authorised, 0)
refused_without_effect_example =
    refused_without_effect any_contract two_instants ports invoice 105_000_000 120_000_000 post 0 0
      refused_late
