-- ===== src/Gates/Native.antt =====
-- Governed native actions: `_DocumentaryAndNativeReadiness` and `post_customer_invoice_governed` of
-- modules/order_to_cash/governed_service.py, and modules/order_to_cash/native_action_gate.py. The
-- world is that of Egress/Scopes.antt; each reading of the clock is an argument.
use baobab_erp.Common.{
  ℕ, String, string_eq, Bool, true, false, not, ◌&&◌, Option, none, some, ◌==◌, err, if◌then◌else◌,
  option_eq,
}
use baobab_erp.Json.{Value}
use baobab_erp.Egress.{TenantScope, Permits, with_native_action, with_invoice_post}
use baobab_erp.Gates.Decision.{not_authorised, LegalActorOperation}
use baobab_erp.Gates.Action.{Act, Ports, continue_with, perform_governed}
use baobab_erp.Gates.Documentary.{require_unblocked}

-- `_ACTION_ROLE.get(action)`
unfoldable pub role_of : String → Option String
role_of action =
    if action == "create_sales_order"
    then some "CONTRACTING_PARTY"
    else if action == "complete_sales_order"
    then some "CONTRACTING_PARTY"
    else if action == "create_shipment"
    then some "CONTRACTING_PARTY"
    else if action == "complete_shipment"
    then some "CONTRACTING_PARTY"
    else if action == "create_customer_invoice"
    then some "INVOICE_ISSUER"
    else if action == "create_payment"
    then some "ACCOUNTING_ENTITY"
    else if action == "complete_payment"
    then some "ACCOUNTING_ENTITY"
    else if action == "allocate_payment"
    then some "ACCOUNTING_ENTITY"
    else none

pub record NativeActionPolicy : Type 0 where
  pub action : String
  pub activity : String
  pub capability : String
  pub authority_reference : String

-- the operation is the one that the policy binds the action to, in this scope, on this resource
unfoldable pub is_exact : NativeActionPolicy → LegalActorOperation → TenantScope → String → Bool
unfolding role_of
is_exact policy op scope reference =
    role_of policy.action == some op.role
    && not (policy.activity == "")
    && not (policy.capability == "")
    && not (policy.authority_reference == "")
    && op.activity == policy.activity
    && op.capability == policy.capability
    && op.tenant_id == scope.tenant_id
    && op.expected_legal_entity_id == scope.legal_entity_id
    && op.operation_reference == reference
    && not (reference == "")

-- the operation is the posting of this invoice in this scope
unfoldable pub is_posting : LegalActorOperation → TenantScope → String → Bool
is_posting op scope invoice_id =
    op.role == "INVOICE_ISSUER"
    && op.capability == "accounting.customer-invoice.post"
    && op.operation_reference == invoice_id
    && op.tenant_id == scope.tenant_id
    && op.expected_legal_entity_id == scope.legal_entity_id

-- the readings of the clock, in the order in which they are taken
pub record Clock : Type 0 where
  pub first : ℕ
  pub before_provider : ℕ
  pub after_provider : ℕ
  pub last : ℕ

-- what a composition injects, and each may be missing
pub record Authorities (W : Type 0) : Type 0 where
  pub assessor : Option (Value → Act W Value)
  pub provider : Option (LegalActorOperation → String → Act W (Unit {0}))
  pub documentary : Option (Value → Act W Value)

module _ (valid_contract : String → Value → Bool) (read_time : Value → Option (Option ℕ)) where
  module _ {W : Type 0} where
    -- `_DocumentaryAndNativeReadiness.ensure_legal_actor_usable`
    unfoldable pub ensure_both :
        Clock
        → (Value → Act W Value)
        → (LegalActorOperation → String → Act W (Unit {0}))
        → LegalActorOperation
        → String
        → Act W (Unit {0})
    ensure_both clock documentary native op mandate w =
        continue_with
          (require_unblocked valid_contract read_time (some documentary) op clock.before_provider w)
          λ _ w1. continue_with (native op mandate w1) λ _.
            require_unblocked valid_contract read_time (some documentary) op clock.after_provider

    -- the ports of the gate, where every authority is there
    unfoldable pub ports_of : Clock → Authorities W → Option (Ports W)
    ports_of clock a = elim a.assessor [
      | none ↦ none
      | some assess ↦ elim a.provider [
        | none ↦ none
        | some native ↦ elim a.documentary [
          | none ↦ none
          | some documentary ↦
              some
                (record { assess = assess; ensure_usable = ensure_both clock documentary native })
        ]
      ]
    ]

    abbrev pub governed :
        {A : Type 0} → Bool → Option (Ports W) → LegalActorOperation → Clock → Act W A → Act W A
    governed false ports op clock execute w = (err not_authorised, w)
    governed true none op clock execute w = (err not_authorised, w)
    governed true (some ports) op clock execute w =
        perform_governed valid_contract read_time ports op clock.first clock.last execute w

  module _ {V A : Type 0} where
    -- `perform_governed_native_action`
    unfoldable pub perform_native :
        Option NativeActionPolicy
        → LegalActorOperation
        → TenantScope
        → String
        → Authorities (Permits × V)
        → Clock
        → Act (Permits × V) A
        → Act (Permits × V) A
    unfolding is_exact ports_of
    perform_native none op scope reference authorities clock execute w = (err not_authorised, w)
    perform_native (some policy) op scope reference authorities clock execute w =
        governed (is_exact policy op scope reference) (ports_of clock authorities) op clock
          (with_native_action scope policy.action reference execute) w

    -- `post_customer_invoice_governed`; `post` is `post_customer_invoice`
    unfoldable pub post_governed :
        LegalActorOperation
        → TenantScope
        → String
        → Authorities (Permits × V)
        → Clock
        → Act (Permits × V) A
        → Act (Permits × V) A
    unfolding is_posting ports_of
    post_governed op scope invoice_id authorities clock post w =
        governed (is_posting op scope invoice_id) (ports_of clock authorities) op clock
          (with_invoice_post scope invoice_id post) w
