-- ===== src/Gates/NativeTests.antt =====
-- A governed creation of a sales order: the control plane's and the provider's answers, the gates and
-- the native call, which the world counts.
use baobab_erp.Common.{
  ℕ, ◌+◌, String, string_eq, ◌==◌, ◌≡◌, refl, subst, Bool, true, false, Option, none, some, [], ◌∷◌,
  ok, err, if◌then◌else◌,
}
use baobab_erp.Json.{Value, Fields, bool, text, arr, obj, end, field, stop, item, get, member}
use baobab_erp.Text.{fullmatch, len}
use baobab_erp.Egress.{TenantScope, Permits, no_permits, with_native_action, with_invoice_post}
use baobab_erp.Gates.Decision.{
  GateError, not_authorised, unavailable, LegalActorOperation, as_object, is_current, all_texts,
  has_empty, validate_operation, check_resolution, assert_current_decision,
}
use baobab_erp.Gates.Action.{Act, assess_now, perform_governed}
use baobab_erp.Gates.Documentary.{policy, is_for, is_fresh, assert_unblocked, require_unblocked}
use baobab_erp.Gates.ControlPlane.{
  Service, is_capability, only_request_keys, filled, is_scope_request, read_reply, ask, assess,
}
use baobab_erp.Gates.Native.{
  NativeActionPolicy, role_of, is_exact, is_posting, Clock, Authorities, ensure_both, ports_of,
  perform_native, post_governed,
}
use baobab_erp.Gates.Exact.{IsUnblocked, assert_unblocked-IsUnblocked}
use baobab_erp.Gates.Governed.{IsApproved, perform_native-IsApproved}
use baobab_erp.Gates.Invariants.{AuthoritiesKeep}
use baobab_erp.Gates.Refusals.{require_unblocked-err}
use baobab_erp.Gates.Leaving.{Kept, perform_native-Kept}

abbrev any_contract : String → Value → Bool
any_contract name v = true

abbrev instants : Value → Option (Option ℕ)
instants (text s) =
    if s == "t100"
    then some (some 100_000_000)
    else if s == "t102"
    then some (some 102_000_000)
    else if s == "t120"
    then some (some 120_000_000)
    else none
instants _ = none

abbrev op : LegalActorOperation
op = record {
  context_id = "ctx";
  tenant_id = "tn_acme1";
  operating_organisation_id = "org_1";
  expected_legal_entity_id = "ZURI-KE";
  role = "CONTRACTING_PARTY";
  activity = "sale";
  market = "KE";
  capability = "sales.order";
  operation_reference = "ord_1";
}

abbrev decision : Fields
decision = field "context_id" (text "ctx") (
    field "operation_reference" (text "ord_1") (
      field "provider_permissions_granted" (bool false) (
        field "legal_actor_resolution"
          (obj (
            field "outcome" (text "AUTHORIZED") (
              field "responsible_legal_entity_id" (text "ZURI-KE") (
                field "mandate_id" (text "m1") (
                  field "evidence_references" (arr (item (text "e1") stop)) (
                    field "evaluated_at" (text "t100") (field "valid_until" (text "t120") end)))))))
          end)))

abbrev answer : Fields
answer = field "context_id" (text "ctx") (
    field "organisation_id" (text "org_1") (
      field "capability" (text "sales.order") (
        field "market" (text "KE") (
          field "operation_reference" (text "ord_1") (
            field "policy_reference" (text policy) (
              field "blocked" (bool false) (
                field "authority_granted" (bool false)
                  (field "evaluated_at" (text "t100") (field "expires_at" (text "t102") end)))))))))

answer_unblocks : assert_unblocked any_contract instants op (obj answer) 101_000_000 ≡ ok tt
unfolding assert_unblocked validate_operation has_empty fullmatch is_for is_fresh get member
answer_unblocks = refl

assert_unblocked-IsUnblocked_example :
    (raw : Fields) × (as_object (obj answer) ≡ some raw)
    × IsUnblocked any_contract instants op raw 101_000_000
assert_unblocked-IsUnblocked_example =
    assert_unblocked-IsUnblocked any_contract instants op (obj answer) 101_000_000 answer_unblocks

-- the lease has run out
answer_has_expired :
    assert_unblocked any_contract instants op (obj answer) 102_000_000 ≡ err not_authorised
unfolding assert_unblocked validate_operation has_empty fullmatch is_for is_fresh get member
answer_has_expired = refl

abbrev W : Type 0
W = Permits × ℕ

abbrev deciding : Value → Act W Value
deciding request w = (ok (obj decision), w)

abbrev unblocking : Value → Act W Value
unblocking request w = (ok (obj answer), w)

abbrev ready : LegalActorOperation → String → Act W (Unit {0})
ready o mandate w = (ok tt, w)

abbrev authorities : Authorities W
authorities = record {
  assessor = some deciding;
  provider = some ready;
  documentary = some unblocking;
}

abbrev clock : Clock
clock = record {
  first = 101_000_000;
  before_provider = 101_000_000;
  after_provider = 101_500_000;
  last = 101_600_000;
}

inj : {A : Type 0} {a b : A} → some a ≡ some b → a ≡ b
inj e = cc e

abbrev scope : TenantScope
scope = record {
  tenant_id = "tn_acme1";
  legal_entity_id = "ZURI-KE";
  ad_client_id = 11;
  ad_org_id = 12;
}

abbrev creation : NativeActionPolicy
creation = record {
  action = "create_sales_order";
  activity = "sale";
  capability = "sales.order";
  authority_reference = "contract 7";
}

abbrev create : Act W ℕ
create (p, n) = (ok 1000, (p, n + 1))

created :
    perform_native any_contract instants
      (some creation)
      op
      scope
      "ord_1"
      authorities
      clock
      create
      (no_permits, 0)
    ≡ (ok 1000, (no_permits, 1))
unfolding perform_native is_exact role_of ports_of perform_governed assess_now ensure_both
    require_unblocked assert_unblocked is_for is_fresh with_native_action assert_current_decision
    validate_operation has_empty fullmatch check_resolution all_texts is_current get member
created = refl

perform_native-IsApproved_example :
    (bound : NativeActionPolicy) × (some creation ≡ some bound)
    × (is_exact bound op scope "ord_1" ≡ true)
    × ((u : W) × IsApproved any_contract instants op authorities clock (no_permits, 0) u
        × (with_native_action scope bound.action "ord_1" create u ≡ (ok 1000, (no_permits, 1))))
perform_native-IsApproved_example =
    perform_native-IsApproved any_contract instants op scope "ord_1" authorities clock create
      (some creation) (no_permits, 0) (no_permits, 1) created

-- another order than the operation's
not_exact :
    perform_native any_contract instants
      (some creation)
      op
      scope
      "ord_2"
      authorities
      clock
      create
      (no_permits, 0)
    ≡ (err not_authorised, (no_permits, 0))
unfolding perform_native is_exact role_of
not_exact = refl

pub authorities_keep : (w : W) → AuthoritiesKeep (Kept w) authorities
authorities_keep w = record {
  assessor_keeps = λ assess e x v h. subst (λ f. Kept w (f x v).1) (inj e) h;
  provider_keeps = λ usable e o m v h. subst (λ f. Kept w (f o m v).1) (inj e) h;
  documentary_keeps = λ assess e x v h. subst (λ f. Kept w (f x v).1) (inj e) h;
}

perform_native-Kept_example :
    Kept
      (no_permits, 0)
      (perform_native any_contract instants
        (some creation)
        op
        scope
        "ord_1"
        authorities
        clock
        create
        (no_permits, 0)).1
perform_native-Kept_example =
    perform_native-Kept any_contract instants (some creation) op scope "ord_1" authorities clock
      create (no_permits, 0) (authorities_keep (no_permits, 0))

abbrev posting : LegalActorOperation
posting = record op { role = "INVOICE_ISSUER"; capability = "accounting.customer-invoice.post" }

abbrev unblocking_posting : Value → Act W Value
unblocking_posting request w =
    (ok (obj (field "capability" (text "accounting.customer-invoice.post") answer)), w)

abbrev issuing : Authorities W
issuing = record authorities { documentary = some unblocking_posting }

posted :
    post_governed any_contract instants posting scope "ord_1" issuing clock create (no_permits, 0)
    ≡ (ok 1000, (no_permits, 1))
unfolding post_governed is_posting ports_of perform_governed assess_now ensure_both
    require_unblocked assert_unblocked is_for is_fresh with_invoice_post assert_current_decision
    validate_operation has_empty fullmatch check_resolution all_texts is_current get member
posted = refl

-- the client of the control plane
abbrev service : Service ℕ
service = record {
  token = λ w. (ok "token", w);
  correlation = λ w. (ok "c1", w);
  exchange = λ token correlation request w. (ok (record { status = 200; body = 123 ∷ [] }), w + 1);
  is_blank = λ s. s == "";
  loads = λ bytes. some (obj answer);
}

abbrev asked_for : Fields
asked_for = field "context_id" (text "ctx") (
    field "capability" (text "sales.order")
      (field "market" (text "KE") (field "operation_reference" (text "ord_1") end)))

is_answered : assess any_contract service asked_for 4 ≡ (ok (obj answer), 5)
unfolding assess is_scope_request only_request_keys filled is_capability fullmatch len get member
    ask read_reply
is_answered = refl

-- a member too many
is_refused :
    assess any_contract service (field "tenant" (text "x") asked_for) 4 ≡ (err not_authorised, 4)
unfolding assess is_scope_request only_request_keys
is_refused = refl

-- an assessor that fails is a refusal like any other
abbrev failing : Value → Act W Value
failing request w = (err (unavailable "TimeoutError"), w)

refused :
    require_unblocked any_contract instants (some failing) op 101_000_000 (no_permits, 0)
    ≡ (err not_authorised, (no_permits, 0))
unfolding require_unblocked validate_operation has_empty fullmatch
refused = refl

require_unblocked-err_example : ◌≡◌ {A = GateError} not_authorised not_authorised
require_unblocked-err_example =
    require_unblocked-err any_contract instants (some failing) op 101_000_000 (no_permits, 0)
      (no_permits, 0) refused
