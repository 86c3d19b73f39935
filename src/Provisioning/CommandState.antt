-- ===== src/Provisioning/CommandState.antt =====
-- The state of a provisioning command (modules/provisioning/command_state.py). `derive` builds the set
-- of the statuses first; its tests on the set are tests on the list here.
use baobab_erp.Common.{
  String, string_eq, Bool, not, Option, none, some, List, [], ◌∷◌, ◌++◌, ◌==◌, any, all, is_empty,
  Result, ok, err, if◌then◌else◌,
}

pub data StatusError : Type 0 where
  no_legal_entity unknown_status : StatusError

abbrev pub failed_code : String
failed_code = "ERP_PROVISIONING_FAILED"

abbrev pub done : List String
done = "ready" ∷ "active" ∷ []

abbrev pub in_flight : List String
in_flight = "applying" ∷ []

abbrev pub settling : List String
settling = "reconciling" ∷ "suspended" ∷ []

abbrev pub not_started : List String
not_started = "requested" ∷ "planned" ∷ []

abbrev pub known : List String
known = done ++ in_flight ++ settling ++ not_started ++ "validating" ∷ "failed" ∷ []

abbrev pub contains : List String → String → Bool
contains ss s = any (λ x. x == s) ss

-- `seen <= group`
abbrev pub within : List String → List String → Bool
within group seen = all (contains group) seen

-- `seen & group`
abbrev pub meets : List String → List String → Bool
meets group seen = any (contains group) seen

unfoldable pub derive : List String → Result StatusError (String × Option String)
derive seen =
    if is_empty seen
    then err no_legal_entity
    else if not (within known seen)
    then err unknown_status
    else if contains seen "failed"
    then ok ("failed", some failed_code)
    else if within done seen
    then ok ("active", none)
    else if meets in_flight seen
    then ok ("provisioning", none)
    else if within not_started seen
    then ok ("accepted", none)
    else if within ("validating" ∷ not_started) seen
    then ok ("validating", none)
    else if within (done ++ settling) seen
    then ok ("reconciling", none)
    else ok ("provisioning", none)
