-- ===== src/Provisioning/Lifecycle.antt =====
-- The lifecycle of a legal entity (modules/provisioning/lifecycle.py).
use baobab_erp.Common.{Bool, true, false, List, [], ◌∷◌, any, Result, ok, err, ◌>>=◌, if◌then◌else◌}

pub data LifecycleState : Type 0 where
  requested isolation_profile_selected engine_instance_assigned accounting_configured active
        suspended :
      LifecycleState
  decommissioning decommissioned : LifecycleState

pub data LifecycleError : Type 0 where
  invalid_transition : LifecycleError

abbrev pub same_state : LifecycleState → LifecycleState → Bool
same_state requested requested = true
same_state isolation_profile_selected isolation_profile_selected = true
same_state engine_instance_assigned engine_instance_assigned = true
same_state accounting_configured accounting_configured = true
same_state active active = true
same_state suspended suspended = true
same_state decommissioning decommissioning = true
same_state decommissioned decommissioned = true
same_state _ _ = false

-- `_ALLOWED_TRANSITIONS`
unfoldable pub allowed : LifecycleState → List LifecycleState
allowed requested = isolation_profile_selected ∷ []
allowed isolation_profile_selected = engine_instance_assigned ∷ []
allowed engine_instance_assigned = accounting_configured ∷ []
allowed accounting_configured = active ∷ []
allowed active = suspended ∷ decommissioning ∷ []
allowed suspended = active ∷ decommissioning ∷ []
allowed decommissioning = decommissioned ∷ []
allowed decommissioned = []

unfoldable pub transition : LifecycleState → LifecycleState → Result LifecycleError LifecycleState
unfolding allowed
transition current target =
    if any (same_state target) (allowed current) then ok target else err invalid_transition

-- successive transitions
unfoldable pub run : LifecycleState → List LifecycleState → Result LifecycleError LifecycleState
unfolding transition
run current [] = ok current
run current (target ∷ targets) = do reached ← transition current target; run reached targets
