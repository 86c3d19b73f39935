-- ===== src/Execution/Env.antt =====
-- What the worker injects into an attempt (modules/order_to_cash/inbox_execution.py,
-- modules/application/inbox_worker.py).
use baobab_erp.Common.{ℕ, String, string_eq, pair_eq, nat_eq, Bool, Option}
use baobab_erp.Json.{Value}
use baobab_erp.Egress.{Permits}
use baobab_erp.Gates.{LegalActorOperation, Clock, Authorities, NativeActionPolicy}
use baobab_erp.Orders.{Number}
use baobab_erp.Execution.World.{Engine}
use baobab_erp.Execution.Announcement.{Texts}
use baobab_erp.Execution.Native.{Python}

-- what `engine_for` yields for a client and an organisation, EngineOrgMismatch included
pub data EngineFor (N : Type 0) : Type 0 where
  org_mismatch unconfigured : EngineFor N
  engine : Engine N → EngineFor N

-- `InboxNativeAuthority`
pub record Authority (N : Type 0) : Type 0 where
  pub policy : NativeActionPolicy
  pub operation : LegalActorOperation
  pub authorities : Authorities (Permits × N)

-- what the worker injects, what the code takes from Python and its libraries, and the readings of the
-- clocks
pub record Env (N : Type 0) : Type 0 where
  pub number_of : String → Option Number
  pub python : Python
  pub texts : Texts
  pub erp_order_id : String → String → String
  pub fresh_id : String
  pub valid_contract : String → Value → Bool
  pub read_time : Value → Option (Option ℕ)
  pub is_free : String → Bool
  pub engine_for : ℕ → ℕ → EngineFor N
  pub protected : Bool
  pub authority : Option (Authority N)
  pub clock : Clock
  pub now : ℕ
  pub database : ℕ
