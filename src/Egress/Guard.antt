-- ===== src/Egress/Guard.antt =====
-- The guard at the native REST egress (`require_native_financial_authority` of
-- modules/integration/native_finance_guard.py). A body is the members of a JSON object; a float is
-- taken to differ from an integer.
use baobab_erp.Common.{
  ℕ, String, string_eq, nat_eq, Bool, true, false, not, ◌&&◌, ◌||◌, Option, none, some, List, [],
  ◌∷◌, ◌==◌, any, all, keep, leb, is_some, Result, ok, err, ◌>>=◌, ◌>>◌, raise_if, or_raise,
  if◌then◌else◌, option_eq,
}
use baobab_erp.Json.{Value, Fields, bool, text, int, minus, field, end, member, get, equals_text}
use baobab_erp.Egress.Scopes.{TenantScope, NativeMarker, InvoiceMarker, Request, Permits}
use baobab_erp.Egress.Paths.{split_slash, strip_slashes, ends_with_slash, has_percent}

-- NativeFinancialMutationDenied
pub data Denied : Type 0 where
  denied : Denied

-- the company that the credentials of the engine are for
pub record Company : Type 0 where
  pub client_id : ℕ
  pub organization_id : ℕ

-- what `urlsplit` yields
pub record Target : Type 0 where
  pub path : String
  pub query : String
  pub fragment : String

abbrev among : String → List String → Bool
among s names = any (λ n. n == s) names

abbrev finance_tables : List String
finance_tables =
    "C_ORDER" ∷ "C_ORDERLINE" ∷ "M_INOUT" ∷ "M_INOUTLINE" ∷ "C_INVOICE" ∷ "C_INVOICELINE"
    ∷ "C_PAYMENT" ∷ "C_PAYMENTALLOCATE" ∷ "C_ALLOCATIONHDR" ∷ "C_ALLOCATIONLINE" ∷ "FACT_ACCT"
    ∷ "GL_JOURNAL" ∷ "GL_JOURNALLINE" ∷ "C_BANKSTATEMENT" ∷ "C_BANKSTATEMENTLINE" ∷ "C_CASH"
    ∷ "C_CASHLINE" ∷ "C_ACCTSCHEMA" ∷ "C_PERIOD" ∷ "C_YEAR" ∷ "C_CALENDAR" ∷ "C_CONVERSION_RATE"
    ∷ "C_TAX" ∷ "C_TAXCATEGORY" ∷ []

unfoldable pub is_finance_table : String → Bool
is_finance_table table = among table finance_tables

-- `_CREATION_ACTIONS.get(table)`
unfoldable pub creation_action : String → Option String
creation_action table =
    if table == "C_ORDER"
    then some "create_sales_order"
    else if table == "M_INOUT"
    then some "create_shipment"
    else if table == "C_INVOICE"
    then some "create_customer_invoice"
    else if table == "C_PAYMENT"
    then some "create_payment"
    else none

-- `_PROCESS_ID_ENV[action]`, of the five actions that a process may be
unfoldable pub process_variable : String → String
process_variable action =
    if action == "complete_sales_order"
    then "IDEMPIERE_PROCESS_COMPLETE_SALES_ORDER"
    else if action == "complete_shipment"
    then "IDEMPIERE_PROCESS_COMPLETE_SHIPMENT"
    else if action == "post_customer_invoice"
    then "IDEMPIERE_PROCESS_POST_CUSTOMER_INVOICE"
    else if action == "complete_payment"
    then "IDEMPIERE_PROCESS_COMPLETE_PAYMENT"
    else "IDEMPIERE_PROCESS_ALLOCATE_PAYMENT"

-- `_COMPLETE_ACTIONS`
unfoldable pub complete_action : String → String
complete_action key =
    if key == "C_Order_ID"
    then "complete_sales_order"
    else if key == "M_InOut_ID"
    then "complete_shipment"
    else if key == "C_Invoice_ID"
    then "post_customer_invoice"
    else "complete_payment"

abbrev document_keys : List String
document_keys = "C_Order_ID" ∷ "M_InOut_ID" ∷ "C_Invoice_ID" ∷ "C_Payment_ID" ∷ []

abbrev status_keys : List String
status_keys = "DOCSTATUS" ∷ "DOCACTION" ∷ "POSTED" ∷ "PROCESSED" ∷ []

-- `_company_bound`
unfoldable pub is_bound : TenantScope → Company → Bool
is_bound scope c =
    scope.ad_client_id == c.client_id
    && scope.ad_org_id == c.organization_id
    && not (scope.tenant_id == "")
    && not (scope.legal_entity_id == "")

unfoldable pub native_bound : Option NativeMarker → Company → String → Bool
unfolding is_bound
native_bound none c action = false
native_bound (some m) c action = is_bound m.scope c && m.action == action

unfoldable pub invoice_bound : Option InvoiceMarker → Company → Bool
unfolding is_bound
invoice_bound none c = false
invoice_bound (some m) c = is_bound m.scope c

-- `_valid_record_id`
abbrev pub is_record_id : Option Value → Bool
is_record_id (some (int n)) = leb 1 n
is_record_id _ = false

-- `isinstance(value, (str, int))`, of which a Boolean is one
abbrev is_amount : Value → Bool
is_amount (text _) = true
is_amount (int _) = true
is_amount (minus _) = true
is_amount (bool _) = true
is_amount _ = false

abbrev pub has : Fields → String → Bool
has body key = is_some (member key body)

-- the member is absent, or this very number
abbrev pub agrees : Option Value → ℕ → Bool
agrees none n = true
agrees (some (int m)) n = m == n
agrees (some _) n = false

-- `set(data) == required`
unfoldable pub only_keys : List String → Fields → Bool
only_keys names end = true
only_keys names (field k v fs) = among k names && only_keys names fs

unfoldable pub keys_are : List String → Fields → Bool
unfolding only_keys member
keys_are names body = only_keys names body && all (has body) names

module _ (upper : String → String) where
  unfoldable pub has_status : Fields → Bool
  has_status end = false
  has_status (field k v fs) = among (upper k) status_keys || has_status fs

  unfoldable pub is_mutation : String → Bool
  is_mutation method = among (upper method) ("POST" ∷ "PUT" ∷ "PATCH" ∷ "DELETE" ∷ [])

-- the reference of the marker, which an order's POReference must be
abbrev pub reference_of : Option NativeMarker → String
reference_of none = ""
reference_of (some m) = m.reference

abbrev pub same_request : Option Request → Request → Bool
same_request none r = false
same_request (some p) r = p.method == r.method && p.path == r.path && p.digest == r.digest

-- `_require_exact_request`: what is left of the permits
unfoldable pub require_exact : Request → Bool → Permits → Result Denied Permits
require_exact request consume p = do
  raise_if (not (same_request p.request request)) denied
  raise_if p.spent denied
  ok (if consume then record p { request = none; spent = true } else p)

abbrev pub present_keys : Fields → List String
present_keys body = keep (has body) document_keys

-- the action that a process's parameters are for
unfoldable pub process_action : List String → Fields → Result Denied String
unfolding complete_action get member
process_action [] body = err denied
process_action (key ∷ []) body =
    if equals_text (get "DocAction" body) "CO" then ok (complete_action key) else err denied
process_action (key ∷ other ∷ []) body =
    if key == "C_Invoice_ID"
      && other == "C_Payment_ID"
      && not (has body "DocAction")
      && is_amount (get "Amount" body)
    then ok "allocate_payment"
    else err denied
process_action (_ ∷ _ ∷ _ ∷ _) body = err denied

abbrev pub required_keys : String → List String → List String
required_keys action present =
    if action == "allocate_payment"
    then "C_Payment_ID" ∷ "C_Invoice_ID" ∷ "Amount" ∷ []
    else elim present [ [] ↦ "DocAction" ∷ [] | key ∷ _ ↦ key ∷ "DocAction" ∷ [] ]

abbrev pub process_bound : String → Company → Permits → Bool
process_bound action c p =
    if action == "post_customer_invoice"
    then invoice_bound p.invoice c
    else native_bound p.native c action

unfoldable pub is_plain : Target → Bool
unfolding ends_with_slash has_percent
is_plain t =
    t.query == "" && t.fragment == "" && not (ends_with_slash t.path) && not (has_percent t.path)

-- the first part of the path is `models` or `processes`
abbrev pub is_governed : List String → Bool
is_governed [] = false
is_governed (kind ∷ _) = among kind ("models" ∷ "processes" ∷ [])

-- What the guard takes from Python and its process: `str.upper`, `urlsplit`, the SHA-256 of a body's
-- JSON, the number of a text that `isdigit` takes, and the environment, with an empty text for what
-- is not set.
pub record Host : Type 0 where
  pub upper : String → String
  pub urlsplit : String → Target
  pub digest : Fields → String
  pub digits : String → Option ℕ
  pub environ : String → String

module _ (host : Host) where
  open host use {upper, urlsplit, digest, digits, environ}

  -- the request of the guard's arguments
  abbrev pub request_for : String → String → Fields → Request
  request_for method path body = record { method = upper method; path = path; digest = digest body }

  -- a record may be created: the branch for `models`
  unfoldable pub check_creation :
      String → List String → Fields → Company → Permits → Result Denied (Unit {0})
  unfolding creation_action is_finance_table native_bound has_status member get
  check_creation method [] body c p = err denied
  check_creation method (table ∷ rest) body c p = do
    raise_if (not (is_finance_table (upper table))) denied
    raise_if (not (method == "POST")) denied
    raise_if (elim rest [ [] ↦ false | x ∷ xs ↦ true ]) denied
    action ← or_raise (creation_action (upper table)) denied
    raise_if (not (native_bound p.native c action)) denied
    raise_if
        (upper table == "C_ORDER"
          && not (equals_text (get "POReference" body) (reference_of p.native)))
        denied
    raise_if (has_status upper body) denied
    raise_if
        (not (agrees (member "AD_Client_ID" body) c.client_id)
          || not (agrees (member "AD_Org_ID" body) c.organization_id))
        denied
    ok tt

  -- the installation's process for the action is the one that is called
  unfoldable pub is_configured : String → ℕ → Bool
  unfolding process_variable
  is_configured action called = elim (digits (environ (process_variable action))) [
    | none ↦ false
    | some n ↦ leb 1 n && n == called
  ]

  -- a process may be executed: the branch for `processes`
  unfoldable pub check_process :
      String → List String → Fields → Company → Permits → Result Denied String
  unfolding process_action is_configured keys_are native_bound invoice_bound member
  check_process method (id ∷ []) body c p = do
    raise_if (not (method == "POST")) denied
    called ← or_raise (digits id) denied
    raise_if (not (leb 1 called)) denied
    raise_if (any (λ k. not (is_record_id (member k body))) (present_keys body)) denied
    action ← process_action (present_keys body) body
    raise_if (not (is_configured action called)) denied
    raise_if (not (keys_are (required_keys action (present_keys body)) body)) denied
    raise_if (not (process_bound action c p)) denied
    ok action
  check_process method _ body c p = err denied

  -- the target of the request and its parts
  abbrev pub parts_of : String → List String
  parts_of path = split_slash (strip_slashes (urlsplit path).path)

  unfoldable pub check_target :
      String → List String → Target → Fields → Company → Permits → Result Denied (Unit {0})
  unfolding is_plain check_creation check_process
  check_target method [] target body c p = err denied
  check_target method (kind ∷ rest) target body c p = do
    raise_if (not (is_plain target)) denied
    if kind == "models"
        then check_creation method rest body c p
        else check_process method rest body c p >>= λ _. ok tt

  -- `require_native_financial_authority`, where `protected` tells a protected runtime
  unfoldable pub require_authority :
      Bool → String → String → Fields → Company → Bool → Permits → Result Denied Permits
  unfolding is_mutation split_slash strip_slashes check_target require_exact
  require_authority protected method path body c consume p =
      if not protected || not (is_mutation upper method) || not (is_governed (parts_of path))
      then ok p
      else check_target method (parts_of path) (urlsplit path) body c p
        >> require_exact (request_for method path body) consume p
