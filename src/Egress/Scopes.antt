-- ===== src/Egress/Scopes.antt =====
-- The permits of native financial actions: the context variables of modules/order_to_cash/service.py
-- and modules/integration/native_finance_guard.py, and the scopes that set them and set them back.
-- A world is the permits of the running task and all else, `V`.
use baobab_erp.Common.{
  ℕ, String, string_eq, Bool, true, false, not, ◌&&◌, ◌||◌, Option, none, some, [], ◌∷◌, ◌==◌, any,
  Result,
}

-- the members of `TenantScope` (modules/order_to_cash/model.py)
pub record TenantScope : Type 0 where
  pub tenant_id : String
  pub legal_entity_id : String
  pub ad_client_id : ℕ
  pub ad_org_id : ℕ

-- `_native_action_execution`: the action and the resource that the running operation is for
pub record NativeMarker : Type 0 where
  pub scope : TenantScope
  pub action : String
  pub reference : String

-- `_invoice_post_execution`
pub record InvoiceMarker : Type 0 where
  pub scope : TenantScope
  pub invoice_id : String

-- `_native_request`: one exact request
pub record Request : Type 0 where
  pub method : String
  pub path : String
  pub digest : String

pub record Permits : Type 0 where
  pub native : Option NativeMarker
  pub invoice : Option InvoiceMarker
  pub request : Option Request
  pub spent : Bool

-- the defaults of the context variables
abbrev pub no_permits : Permits
no_permits = record { native = none; invoice = none; request = none; spent = true }

-- a call that reads and changes the world, and may raise an error of `E`
abbrev pub Call : Type 0 → Type 0 → Type 0 → Type 0
Call E W A = W → Result E A × W

module _ {E V A : Type 0} where
  -- `_authorised_native_action`, in whose scope one financial mutation is fresh
  unfoldable pub with_native_action :
      TenantScope → String → String → Call E (Permits × V) A → Call E (Permits × V) A
  with_native_action scope action reference body (p, v) =
      let marker : NativeMarker = record {
        scope = scope;
        action = action;
        reference = reference;
      } in
      let (r, (q, w)) = body (record p { native = some marker; spent = false }, v) in
      (r, (record q { native = p.native; spent = p.spent }, w))

  -- `_authorised_invoice_post`
  unfoldable pub with_invoice_post :
      TenantScope → String → Call E (Permits × V) A → Call E (Permits × V) A
  with_invoice_post scope invoice_id body (p, v) =
      let marker : InvoiceMarker = record { scope = scope; invoice_id = invoice_id } in
      let (r, (q, w)) = body (record p { invoice = some marker; spent = false }, v) in
      (r, (record q { invoice = p.invoice; spent = p.spent }, w))

  -- `authorised_native_financial_request`
  unfoldable pub with_request : Request → Call E (Permits × V) A → Call E (Permits × V) A
  with_request request body (p, v) =
      let (r, (q, w)) = body (record p { request = some request }, v) in
      (r, (record q { request = p.request }, w))

-- `_protected_finance_runtime`: `deployment` and `gate` are the texts of BAOBAB_DEPLOYMENT_ENV and
-- BAOBAB_REQUIRE_LEGAL_ACTOR_GATE, empty where they are not set, and `lower` is `str.lower`
unfoldable pub protected_finance_runtime : (String → String) → String → String → Bool
protected_finance_runtime lower deployment gate =
    not (any (λ d. d == lower deployment) ("development" ∷ "test" ∷ [])) || lower gate == "true"

-- the marker is for this very action
unfoldable pub is_marked : TenantScope → String → String → Option NativeMarker → Bool
is_marked scope action reference none = false
is_marked scope action reference (some m) =
    m.scope.tenant_id == scope.tenant_id
    && m.scope.legal_entity_id == scope.legal_entity_id
    && m.action == action
    && m.reference == reference

-- `_deny_legacy_native_action` does not raise
unfoldable pub native_action_allowed : Bool → TenantScope → String → String → Permits → Bool
unfolding is_marked
native_action_allowed protected scope action reference p =
    not protected || is_marked scope action reference p.native

unfoldable pub is_marked_invoice : TenantScope → String → Option InvoiceMarker → Bool
is_marked_invoice scope invoice_id none = false
is_marked_invoice scope invoice_id (some m) =
    m.scope.tenant_id == scope.tenant_id
    && m.scope.legal_entity_id == scope.legal_entity_id
    && m.invoice_id == invoice_id

-- `_deny_legacy_invoice_post` does not raise
unfoldable pub invoice_post_allowed : Bool → TenantScope → String → Permits → Bool
unfolding is_marked_invoice
invoice_post_allowed protected scope invoice_id p =
    not protected || is_marked_invoice scope invoice_id p.invoice
