-- ===== src/Execution/World.antt =====
-- What an executor works on: the business tables, the session on them, the permits of the task and
-- the engine; and what every executor needs of them (modules/inbox/execution_support.py). `N` is the
-- state of the engine.
use baobab_erp.Common.{
  ℕ, String, string_eq, pair_eq, nat_eq, Bool, ◌&&◌, ◌||◌, Option, none, some, List, ◌==◌,
  find_where, Result, if◌then◌else◌,
}
use baobab_erp.Json.{Value, Fields, int, text, obj, get}
use baobab_erp.Egress.{
  Permits, ClientError, mutation_denied, unauthenticated, api_error, unreachable,
}
use baobab_erp.Inbox.{retry, blocked, dead_letter, Outcome, outcome, Session, commit, rollback}
use baobab_erp.Orders
use baobab_erp.Outbox

-- a row of `baobab.tenant_mapping`
pub record TenantRow : Type 0 where
  pub tenant_id : String
  pub entity_id : String
  pub is_active : Bool
  pub ad_client_id : ℕ
  pub ad_org_id : ℕ
  pub engine_instance_id : Option String

-- a row of `baobab.erp_master_data_mapping`
pub record MasterRow : Type 0 where
  pub engine_instance_id : String
  pub legal_entity_id : String
  pub resource_kind : String
  pub canonical_id : String
  pub native_id : ℕ

-- a row of `baobab.order_execution`, whose key is the tenant and the order
pub record ExecutionRow : Type 0 where
  pub tenant_id : String
  pub commerce_order_id : String
  pub legal_entity_id : String
  pub order_version : ℕ
  pub erp_order_id : String
  pub native_id : ℕ
  pub source_event_id : String
  pub adopted : Bool

pub record Business : Type 0 where
  pub tenants : List TenantRow
  pub masters : List MasterRow
  pub consequences : Orders.Table
  pub executions : List ExecutionRow
  pub outbox : Outbox.Table

-- what an attempt reads and changes
abbrev pub World : Type 0 → Type 0
World N = Permits × (Session Business × N)

-- how a call of the attempt can end other than by returning: `Stop`, OrderToCashError, or another
-- exception with the name of its type
pub data Failure : Type 0 where
  stopped : Outcome → Failure
  not_permitted : Failure
  raised : String → Failure

-- `dead` and `blocked`
abbrev pub dead : String → String → Failure
dead code detail = stopped (outcome dead_letter code detail)

abbrev pub block : String → String → Failure
block code detail = stopped (outcome blocked code detail)

-- `engine_errors`, which `_find_or_create` repeats: a refused request is refused again, any other
-- failure of the engine is retried. `http_status` is the text "HTTP" with the status.
unfoldable pub engine_failure : (ℕ → String) → ClientError → Failure
engine_failure http_status (api_error status) =
    if status == 400 || status == 422
    then dead "ENGINE_REJECTED" (http_status status)
    else stopped (outcome retry "ENGINE_UNAVAILABLE" (http_status status))
engine_failure http_status mutation_denied =
    stopped (outcome retry "ENGINE_UNAVAILABLE" "the engine could not be reached")
engine_failure http_status unauthenticated =
    stopped (outcome retry "ENGINE_UNAVAILABLE" "the engine could not be reached")
engine_failure http_status unreachable =
    stopped (outcome retry "ENGINE_UNAVAILABLE" "the engine could not be reached")

pub record Target : Type 0 where
  pub ad_client_id : ℕ
  pub ad_org_id : ℕ
  pub engine_instance_id : Option String

abbrev target_of : Option TenantRow → Option Target
target_of none = none
target_of (some r) = some (record {
  ad_client_id = r.ad_client_id;
  ad_org_id = r.ad_org_id;
  engine_instance_id = r.engine_instance_id;
})

-- `PostgresMasterData.target`
unfoldable pub target : Business → String → String → Option Target
target db tenant_id legal_entity_id = target_of (
    find_where (λ r. r.tenant_id == tenant_id && r.entity_id == legal_entity_id && r.is_active)
      db.tenants)

abbrev native_of : Option MasterRow → Option ℕ
native_of none = none
native_of (some r) = some r.native_id

-- `PostgresMasterData.native`
unfoldable pub native : Business → String → String → String → String → Option ℕ
native db engine_instance_id legal_entity_id kind canonical_id = native_of (
    find_where
      (λ r.
        r.engine_instance_id == engine_instance_id
        && r.legal_entity_id == legal_entity_id
        && r.resource_kind == kind
        && r.canonical_id == canonical_id)
      db.masters)

-- a session with the lock of a key: taking it commits, and leaving rolls back and commits
abbrev pub leave : {A : Type 0} → A × Session Business → A × Session Business
leave (a, s) = (a, commit (rollback s))

-- `IdempiereOrders`: the engine as the executor calls it
pub record Engine (N : Type 0) : Type 0 where
  pub get_record : String → ℕ → N → Result ClientError Fields × N
  pub query_orders : String → N → Result ClientError (List Fields) × N  -- C_Order by its POReference
  pub create_record : String → Fields → Permits → N → Result ClientError ℕ × (Permits × N)

-- `_reference`: the bare id or an object that carries it; `digits` is the number of a text that
-- `isdigit` takes
abbrev pub bare_reference : (String → Option ℕ) → Value → Option ℕ
bare_reference digits (int n) = some n
bare_reference digits (text s) = digits s
bare_reference digits _ = none

unfoldable pub reference : (String → Option ℕ) → Value → Option ℕ
unfolding get
reference digits (obj fs) = bare_reference digits (get "id" fs)
reference digits v = bare_reference digits v
