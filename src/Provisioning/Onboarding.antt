-- ===== src/Provisioning/Onboarding.antt =====
-- What a legal entity has been through when it is in use (Provisioning/Lifecycle.antt).
use baobab_erp.Common.{Bool, true, false, ◌≡◌, refl, List, [], ◌∷◌, any, arith, ok, err}
use baobab_erp.Provisioning.Lifecycle.{
  LifecycleState, requested, isolation_profile_selected, engine_instance_assigned,
  accounting_configured, active, suspended, decommissioning, decommissioned, invalid_transition,
  same_state, run,
}

abbrev pub passed : LifecycleState → List LifecycleState → Bool
passed s targets = any (same_state s) targets

-- the entity has been or is in use
abbrev pub is_live : LifecycleState → Bool
is_live active = true
is_live suspended = true
is_live decommissioning = true
is_live decommissioned = true
is_live _ = false

from_accounting :
    (ts : List LifecycleState) {s : LifecycleState}
    → run engine_instance_assigned ts ≡ ok s
    → is_live s ≡ true
    → passed accounting_configured ts ≡ true
unfolding run
from_accounting [] {s} h live = ground (arith, h, live)
from_accounting (accounting_configured ∷ ts) {s} h live = refl
from_accounting (_ ∷ ts) {s} h live = absurd (ground (arith, h))

from_instance :
    (ts : List LifecycleState) {s : LifecycleState}
    → run isolation_profile_selected ts ≡ ok s
    → is_live s ≡ true
    → (passed engine_instance_assigned ts ≡ true) × (passed accounting_configured ts ≡ true)
unfolding run
from_instance [] {s} h live = absurd (ground (arith, h, live))
from_instance (engine_instance_assigned ∷ ts) {s} h live = (refl, from_accounting ts h live)
from_instance (_ ∷ ts) {s} h live = absurd (ground (arith, h))

-- An entity that was requested and is or has been in use went through the selection of an isolation
-- profile, the assignment of an engine instance and the configuration of its accounting.
pub run-is_live :
    (ts : List LifecycleState) {s : LifecycleState}
    → run requested ts ≡ ok s
    → is_live s ≡ true
    → (passed isolation_profile_selected ts ≡ true)
      × (passed engine_instance_assigned ts ≡ true)
      × (passed accounting_configured ts ≡ true)
unfolding run
run-is_live [] {s} h live = absurd (ground (arith, h, live))
run-is_live (isolation_profile_selected ∷ ts) {s} h live =
    let (e, a) = from_instance ts h live in (refl, e, a)
run-is_live (_ ∷ ts) {s} h live = absurd (ground (arith, h))

-- Nothing follows decommissioning.
pub run-decommissioned :
    (t : LifecycleState) (ts : List LifecycleState)
    → run decommissioned (t ∷ ts) ≡ err invalid_transition
unfolding run
run-decommissioned t ts = refl
