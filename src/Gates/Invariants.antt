-- ===== src/Gates/Invariants.antt =====
-- What every authority and the action keep, a governed action keeps (Gates/Native.antt).
use baobab_erp.Common.{
  ℕ, String, string_eq, ◌≡◌, Bool, true, false, not, Option, some, ◌==◌, Result, ok, err, raise_if,
  or_raise, Option-cases, inl, inr,
}
use baobab_erp.Json.{Value, obj}
use baobab_erp.Gates.Decision.{
  GateError, not_authorised, LegalActorOperation, as_object, request_of, validate_operation,
}
use baobab_erp.Gates.Action.{Act, Ports, continue_with, assess_now, perform_governed}
use baobab_erp.Gates.Documentary.{restriction_request, require_unblocked, answered, asked}
use baobab_erp.Gates.Native.{Clock, Authorities, ensure_both, ports_of, governed}

module _ {W : Type 0} (P : W → Type 0) where
  -- a call keeps `P`
  abbrev pub Keeps : {A : Type 0} → Act W A → Type 0
  Keeps act = (w : W) → P w → P (act w).1

  continue_with-keeps :
      {A B : Type 0} (r : Result GateError A × W) (next : A → Act W B)
      → P r.1
      → ((a : A) → Keeps (next a))
      → P (continue_with r next).1
  continue_with-keeps (ok a, w) next h step = step a w h
  continue_with-keeps (err e, w) next h step = h

  -- each authority that is there keeps `P`
  pub record AuthoritiesKeep (a : Authorities W) : Type 0 where
    pub assessor_keeps :
        (assess : Value → Act W Value) → a.assessor ≡ some assess → (x : Value) → Keeps (assess x)
    pub provider_keeps :
        (usable : LegalActorOperation → String → Act W (Unit {0}))
        → a.provider ≡ some usable
        → (op : LegalActorOperation) (mandate : String) → Keeps (usable op mandate)
    pub documentary_keeps :
        (assess : Value → Act W Value)
        → a.documentary ≡ some assess
        → (x : Value) → Keeps (assess x)

  module _ (valid_contract : String → Value → Bool) (read_time : Value → Option (Option ℕ)) where
    module _ (assess : Value → Act W Value) (assess_keeps : (x : Value) → Keeps (assess x)) where
      assess_now-Keeps :
          (usable : LegalActorOperation → String → Act W (Unit {0})) (op : LegalActorOperation)
          (at : ℕ)
          → Keeps (
              assess_now valid_contract read_time
                (record { assess = assess; ensure_usable = usable })
                op
                at)
      unfolding assess_now
      assess_now-Keeps usable op at w h =
          continue_with-keeps (assess (request_of op) w) _ (assess_keeps (request_of op) w h)
            (λ answer v k.
              continue_with-keeps (or_raise (as_object answer) not_authorised, v) _ k
                (λ decision u m. m))

      answered-keeps :
          (op : LegalActorOperation) (at : ℕ) (r : Result GateError Value × W)
          → P r.1
          → P (answered valid_contract read_time op at r).1
      answered-keeps op at (ok answer, v) h = h
      answered-keeps op at (err e, v) h = h

      asked-Keeps :
          (valid : Result GateError (Unit {0})) (op : LegalActorOperation) (at : ℕ)
          → Keeps (asked valid_contract read_time valid assess op at)
      asked-Keeps (err e) op at w h = h
      asked-Keeps (ok valid) op at w h =
          answered-keeps op at (assess (obj (restriction_request op)) w)
            (assess_keeps (obj (restriction_request op)) w h)

      require_unblocked-Keeps :
          (op : LegalActorOperation) (at : ℕ)
          → Keeps (require_unblocked valid_contract read_time (some assess) op at)
      unfolding require_unblocked
      require_unblocked-Keeps op at w h =
          asked-Keeps (validate_operation valid_contract read_time op) op at w h

    ensure_both-Keeps :
        (documentary : Value → Act W Value)
        (usable : LegalActorOperation → String → Act W (Unit {0})) (clock : Clock)
        (op : LegalActorOperation) (mandate : String)
        → ((x : Value) → Keeps (documentary x))
        → Keeps (usable op mandate)
        → Keeps (ensure_both valid_contract read_time clock documentary usable op mandate)
    unfolding ensure_both
    ensure_both-Keeps documentary usable clock op mandate documentary_keeps usable_keeps w h =
        continue_with-keeps
          (require_unblocked valid_contract read_time (some documentary) op clock.before_provider w)
          _ (require_unblocked-Keeps documentary documentary_keeps op clock.before_provider w h)
          (λ _ v k.
            continue_with-keeps (usable op mandate v) _ (usable_keeps v k)
              (λ _. require_unblocked-Keeps documentary documentary_keeps op clock.after_provider))

    perform_governed-Keeps :
        {A : Type 0} (assess : Value → Act W Value)
        (ensure : LegalActorOperation → String → Act W (Unit {0})) (op : LegalActorOperation)
        (now now_again : ℕ) (execute : Act W A)
        → ((x : Value) → Keeps (assess x))
        → ((mandate : String) → Keeps (ensure op mandate))
        → Keeps execute
        → Keeps (
            perform_governed valid_contract read_time
              (record { assess = assess; ensure_usable = ensure })
              op
              now
              now_again
              execute)
    unfolding perform_governed
    perform_governed-Keeps assess ensure op now now_again execute assess_keeps ensure_keeps
          execute_keeps w h =
        let ports : Ports W = record { assess = assess; ensure_usable = ensure } in
        continue_with-keeps (validate_operation valid_contract read_time op, w) _ h
          (λ _ w0 h0.
            continue_with-keeps (assess_now valid_contract read_time ports op now w0) _
              (assess_now-Keeps assess assess_keeps ensure op now w0 h0)
              (λ mandate w1 h1.
                continue_with-keeps (ensure op mandate w1) _ (ensure_keeps mandate w1 h1)
                  (λ _ w2 h2.
                    continue_with-keeps (assess_now valid_contract read_time ports op now_again w2)
                      _ (assess_now-Keeps assess assess_keeps ensure op now_again w2 h2)
                      (λ current w3 h3.
                        continue_with-keeps (raise_if (not (current == mandate)) not_authorised, w3)
                          _ h3 (λ _. execute_keeps)))))

    -- Whatever the authorities and the action keep, the governed action keeps, however it ends.
    pub governed-Keeps :
        {A : Type 0} (exact : Bool) (authorities : Authorities W) (op : LegalActorOperation)
        (clock : Clock) (execute : Act W A)
        → AuthoritiesKeep authorities
        → Keeps execute
        → Keeps (
            governed valid_contract read_time exact
              (ports_of valid_contract read_time clock authorities)
              op
              clock
              execute)
    unfolding ports_of
    governed-Keeps false authorities op clock execute keep execute_keeps w h = h
    governed-Keeps true authorities op clock execute keep execute_keeps w h =
        elim (Option-cases authorities.assessor) [
          | inl e ↦ rw e h
          | inr (assess, ha) ↦ elim (Option-cases authorities.provider) [
            | inl e ↦ rw (ha, e) h
            | inr (usable, hp) ↦ elim (Option-cases authorities.documentary) [
              | inl e ↦ rw (ha, hp, e) h
              | inr (documentary, hd) ↦
                  rw (ha, hp, hd)
                    (perform_governed-Keeps assess
                      (ensure_both valid_contract read_time clock documentary usable) op clock.first
                      clock.last execute (keep.assessor_keeps assess ha)
                      (λ mandate.
                        ensure_both-Keeps documentary usable clock op mandate
                          (keep.documentary_keeps documentary hd)
                          (keep.provider_keeps usable hp op mandate))
                      execute_keeps w h)
            ]
          ]
        ]
