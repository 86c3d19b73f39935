-- ===== src/Gates/Refusals.antt =====
-- The documentary check fails closed (Gates/Documentary.antt, Gates/ControlPlane.antt).
use baobab_erp.Common.{
  ℕ, String, ◌≡◌, ap, Bool, Option, none, some, arith, Result, ok, err, Result-cases, inl, inr,
}
use baobab_erp.Json.{Value}
use baobab_erp.Gates.Decision.{GateError, not_authorised, LegalActorOperation, validate_operation}
use baobab_erp.Gates.Action.{Act}
use baobab_erp.Gates.Documentary.{assert_unblocked, answered, require_unblocked}

module _ (valid_contract : String → Value → Bool) (read_time : Value → Option (Option ℕ)) where
  assert_unblocked-err :
      (op : LegalActorOperation) (answer : Value) (now : ℕ) {e : GateError}
      → validate_operation valid_contract read_time op ≡ ok tt
      → assert_unblocked valid_contract read_time op answer now ≡ err e
      → e ≡ not_authorised
  unfolding assert_unblocked
  assert_unblocked-err op answer now valid h = ground arith

  module _ {W : Type 0} where
    answered-err :
        (op : LegalActorOperation) (now : ℕ) (r : Result GateError Value × W) {e : GateError}
        {v : W}
        → validate_operation valid_contract read_time op ≡ ok tt
        → answered valid_contract read_time op now r ≡ (err e, v)
        → e ≡ not_authorised
    answered-err op now (ok answer, w) valid h =
        assert_unblocked-err op answer now valid (ap (λ x. x.0) h)
    answered-err op now (err problem, w) valid h = let same = ap (λ x. x.0) h in cc same

    -- Whatever goes wrong, a missing assessor and its exceptions included, the check raises that the
    -- operation is not authorised, and nothing else.
    pub require_unblocked-err :
        (assessor : Option (Value → Act W Value)) (op : LegalActorOperation) (now : ℕ) (w v : W)
        {e : GateError}
        → require_unblocked valid_contract read_time assessor op now w ≡ (err e, v)
        → e ≡ not_authorised
    unfolding require_unblocked
    require_unblocked-err none op now w v h = let same = ap (λ x. x.0) h in cc same
    require_unblocked-err (some assess) op now w v h =
        elim (Result-cases (validate_operation valid_contract read_time op)) [
          | inl (tt, valid) ↦ answered-err op now _ valid (rw valid at h)
          | inr (problem, invalid) ↦
              let refused = rw invalid at h in let same = ap (λ x. x.0) refused in cc same
        ]
