-- ===== src/Provisioning/Tests.antt =====
-- The lifecycle and the command state at concrete values.
use baobab_erp.Common.{String, string_eq, ◌≡◌, refl, true, some, List, [], ◌∷◌, arith, ok}
use baobab_erp.Provisioning.Lifecycle.{
  requested, isolation_profile_selected, engine_instance_assigned, accounting_configured, active,
  suspended, LifecycleState, run,
}
use baobab_erp.Provisioning.CommandState.{contains, failed_code, derive}
use baobab_erp.Provisioning.Onboarding.{passed, run-is_live}

abbrev onboarding : List LifecycleState
onboarding =
    isolation_profile_selected ∷ engine_instance_assigned ∷ accounting_configured ∷ active
    ∷ suspended ∷ active ∷ []

onboarded : run requested onboarding ≡ ok active
unfolding run
onboarded = refl

run-is_live_example :
    (passed isolation_profile_selected onboarding ≡ true)
    × (passed engine_instance_assigned onboarding ≡ true)
    × (passed accounting_configured onboarding ≡ true)
run-is_live_example = run-is_live onboarding {s = active} onboarded refl

one_failed : derive ("ready" ∷ "failed" ∷ []) ≡ ok ("failed", some failed_code)
unfolding derive
one_failed = refl

same_statuses :
    (s : String)
    → contains ("ready" ∷ "applying" ∷ []) s ≡ contains ("applying" ∷ "ready" ∷ "ready" ∷ []) s
same_statuses s = ground arith
