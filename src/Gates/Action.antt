-- ===== src/Gates/Action.antt =====
-- `perform_governed_financial_action` of modules/order_to_cash/legal_actor_gate.py. `W` is the world
-- that the ports and the native action read and change; the clock is read twice.
use baobab_erp.Common.{
  ℕ, String, string_eq, Bool, not, ◌==◌, Option, Result, ok, err, raise_if, or_raise,
}
use baobab_erp.Json.{Value}
use baobab_erp.Gates.Decision.{
  GateError, not_authorised, LegalActorOperation, request_of, as_object, validate_operation,
  assert_current_decision,
}

-- a call that reads and changes the world, and may raise
abbrev pub Act : Type 0 → Type 0 → Type 0
Act W A = W → Result GateError A × W

module _ {W A B : Type 0} where
  abbrev pub continue_with : Result GateError A × W → (A → Act W B) → Result GateError B × W
  continue_with (ok a, w) next = next a w
  continue_with (err e, w) next = (err e, w)

  infixl 5 ◌>>=◌
  abbrev pub ◌>>=◌ : Act W A → (A → Act W B) → Act W B
  (act >>= next) w = continue_with (act w) next

-- a check without effect
abbrev pub check : {W A : Type 0} → Result GateError A → Act W A
check r w = (r, w)

pub record Ports (W : Type 0) : Type 0 where
  pub assess : Value → Act W Value
  pub ensure_usable : LegalActorOperation → String → Act W (Unit {0})

module _ (valid_contract : String → Value → Bool) (read_time : Value → Option (Option ℕ))
    {W : Type 0} where
  -- one assessment, and the mandate of its decision at an instant
  unfoldable pub assess_now : Ports W → LegalActorOperation → ℕ → Act W String
  assess_now ports op now = do
    answer ← ports.assess (request_of op)
    decision ← check (or_raise (as_object answer) not_authorised)
    check (assert_current_decision valid_contract read_time op decision now)

  unfoldable pub perform_governed :
      {A : Type 0} → Ports W → LegalActorOperation → ℕ → ℕ → Act W A → Act W A
  perform_governed ports op now now_again execute = do
    valid ← check (validate_operation valid_contract read_time op)
    mandate ← assess_now ports op now
    usable ← ports.ensure_usable op mandate
    current ← assess_now ports op now_again
    same ← check (raise_if (not (current == mandate)) not_authorised)
    execute
