-- ===== src/Gates/Authority.antt =====
-- What the legal-actor gate promises: an action runs only under two current decisions for this very
-- operation, with one mandate, around the provider's readiness; otherwise it has no influence at all.
use baobab_erp.Common.{
  ℕ, ◌+◌, ◌≤◌, ◌<◌, String, string_eq, eq_law, ◌≡◌, refl, sym, ap, subst, ◌∙◌, Bool, true, not,
  Option, some, ◌==◌, arith, Result, ok, err, raise_if, or_raise, Option-cases, inl, inr,
}
use baobab_erp.Json.{Value, Fields, obj, get, is_false, equals_text}
use baobab_erp.Gates.Decision.{
  GateError, not_authorised, LegalActorOperation, request_of, as_object, some_text, is_evidence,
  is_current, time_of, second, max_decision_age, validate_operation, check_resolution,
  assert_current_decision,
}
use baobab_erp.Gates.Action.{Act, Ports, assess_now, perform_governed, continue_with, check}

-- an action that does nothing
abbrev pub nothing : {W : Type 0} → Act W (Unit {0})
nothing w = (ok tt, w)

-- Inversion of a call and what follows it, where both returned.
pub continue_with-ok :
    {W A B : Type 0} (r : Result GateError A × W) (next : A → Act W B) {b : B} {v : W}
    → continue_with r next ≡ (ok b, v)
    → (a : A) × ((w : W) × (r ≡ (ok a, w)) × (next a w ≡ (ok b, v)))
continue_with-ok (ok a, w) next h = (a, (w, refl, h))
continue_with-ok (err e, w) next h = absurd (ground (arith, h))

-- What follows a call may be put after the whole, step by step.
fuse :
    {W A B C : Type 0} (r : Result GateError A × W) (f : A → Act W C) (g : A → Act W B)
    (h : B → Act W C)
    → ((a : A) (w : W) → f a w ≡ continue_with (g a w) h)
    → continue_with r f ≡ continue_with (continue_with r g) h
fuse (ok a, w) f g h step = step a w
fuse (err e, w) f g h step = refl

pub check-ok :
    {W A : Type 0} (r : Result GateError A) (w : W) {a : A} {v : W}
    → check r w ≡ (ok a, v)
    → (r ≡ ok a) × (w ≡ v)
check-ok r w h = (ap (λ x. x.0) h, ap (λ x. x.1) h)

as_object-some :
    (v : Value) {fs : Fields} → or_raise (as_object v) not_authorised ≡ ok fs → v ≡ obj fs
as_object-some (obj gs) h = cc h
as_object-some _ h = absurd (ground (arith, h))

module _ (valid_contract : String → Value → Bool) (read_time : Value → Option (Option ℕ)) where
  -- the resolution names the operation's legal entity as authorised under the mandate, was evaluated at
  -- most 30 seconds ago, and has not run out
  pub record Authorises (op : LegalActorOperation) (resolution : Fields) (now : ℕ)
      (mandate : String) : Type 0 where
    pub outcome : equals_text (get "outcome" resolution) "AUTHORIZED" ≡ true
    pub entity :
        equals_text (get "responsible_legal_entity_id" resolution) op.expected_legal_entity_id
        ≡ true
    pub named : some_text (get "mandate_id" resolution) ≡ some mandate
    pub evidence : is_evidence (get "evidence_references" resolution) ≡ true
    pub evaluated : ℕ
    pub valid_until : ℕ
    pub evaluated_at : time_of valid_contract read_time "evaluated_at" resolution ≡ some evaluated
    pub ends_at : time_of valid_contract read_time "valid_until" resolution ≡ some valid_until
    pub not_early : evaluated ≤ now + second
    pub not_old : now ≤ evaluated + max_decision_age
    pub not_over : now < valid_until

  is_current-bounds :
      (now evaluated valid_until : ℕ)
      → is_current now evaluated valid_until ≡ true
      → (evaluated ≤ now + second) × (now ≤ evaluated + max_decision_age) × (now < valid_until)
  unfolding is_current
  is_current-bounds now evaluated valid_until h = ground arith

  check_resolution-Authorises :
      (op : LegalActorOperation) (resolution : Fields) (now : ℕ) {mandate : String}
      → check_resolution valid_contract read_time op resolution now ≡ ok mandate
      → Authorises op resolution now mandate
  unfolding check_resolution
  check_resolution-Authorises op resolution now {mandate} h =
      elim (Option-cases (some_text (get "mandate_id" resolution))) [
        | inl e ↦ absurd (ground arith)
        | inr (m, named) ↦
            elim (Option-cases (time_of valid_contract read_time "evaluated_at" resolution)) [
              | inl e ↦ absurd (ground arith)
              | inr (evaluated, at) ↦
                  elim (Option-cases (time_of valid_contract read_time "valid_until" resolution)) [
                    | inl e ↦ absurd (ground arith)
                    | inr (until, to) ↦
                        let current : is_current now evaluated until ≡ true = ground arith in
                        let bounds = is_current-bounds now evaluated until current in
                        let same : m ≡ mandate = ground arith in
                        record {
                          outcome = ground arith;
                          entity = ground arith;
                          named = named ∙ ap some same;
                          evidence = ground arith;
                          evaluated = evaluated;
                          valid_until = until;
                          evaluated_at = at;
                          ends_at = to;
                          not_early = bounds.0;
                          not_old = bounds.1;
                          not_over = bounds.2;
                        }
                  ]
            ]
      ]

  -- A decision that gives a mandate is the answer to this operation, grants the provider nothing, and
  -- authorises the operation's legal entity now.
  pub assert_current_decision-Authorises :
      (op : LegalActorOperation) (response : Fields) (now : ℕ) {mandate : String}
      → assert_current_decision valid_contract read_time op response now ≡ ok mandate
      → (equals_text (get "context_id" response) op.context_id ≡ true)
        × (equals_text (get "operation_reference" response) op.operation_reference ≡ true)
        × (is_false (get "provider_permissions_granted" response) ≡ true)
        × ((resolution : Fields) × (as_object (get "legal_actor_resolution" response)
              ≡ some resolution)
            × Authorises op resolution now mandate)
  unfolding assert_current_decision
  assert_current_decision-Authorises op response now {mandate} h =
      elim (Option-cases (as_object (get "legal_actor_resolution" response))) [
        | inl e ↦ absurd (ground arith)
        | inr (resolution, e) ↦
            let checked : check_resolution valid_contract read_time op resolution now ≡ ok mandate =
              ground arith in
            (
              ground arith,
              ground arith,
              ground arith,
              (resolution, e, check_resolution-Authorises op resolution now checked),
            )
      ]

  module _ {W : Type 0} (ports : Ports W) (op : LegalActorOperation) where
    -- an assessment that gave a mandate at an instant, from `w` to `v`
    abbrev pub Assessed : ℕ → String → W → W → Type 0
    Assessed at mandate w v =
        (response : Fields) × (ports.assess (request_of op) w ≡ (ok (obj response), v))
        × (assert_current_decision valid_contract read_time op response at ≡ ok mandate)

    assess_now-Assessed :
        (at : ℕ) (w v : W) {mandate : String}
        → assess_now valid_contract read_time ports op at w ≡ (ok mandate, v)
        → Assessed at mandate w v
    unfolding assess_now
    assess_now-Assessed at w v {mandate} h =
        let (answer, (w1, asked, h1)) = continue_with-ok (ports.assess (request_of op) w) _ h in
        let (decision, (w2, read, h2)) =
          continue_with-ok (or_raise (as_object answer) not_authorised, w1)
            (λ decision. check (assert_current_decision valid_contract read_time op decision at))
            h1 in
        let (is_read, stay) = check-ok (or_raise (as_object answer) not_authorised) w1 read in
        let (decided, stay2) =
          check-ok (assert_current_decision valid_contract read_time op decision at) w2 h2 in
        (decision, asked ∙ rw (as_object-some answer is_read, stay, stay2), decided)

    module _ (now now_again : ℕ) {A : Type 0} (execute : Act W A) where
      -- An action that has run was preceded by an assessment that gave a mandate, the provider's
      -- readiness for it, and a second assessment that gave the same mandate, in this order and with
      -- nothing in between.
      pub perform_governed-Assessed :
          (w v : W) {a : A}
          → perform_governed valid_contract read_time ports op now now_again execute w ≡ (ok a, v)
          → (mandate : String) × ((w1 : W) × ((w2 : W) × ((w3 : W) × Assessed now mandate w w1
                  × (ports.ensure_usable op mandate w1 ≡ (ok tt, w2))
                  × Assessed now_again mandate w2 w3
                  × (execute w3 ≡ (ok a, v)))))
      unfolding perform_governed
      perform_governed-Assessed w v {a} h =
          let (_, (w0, valid, h1)) =
            continue_with-ok (validate_operation valid_contract read_time op, w) _ h in
          let (mandate, (w1, first, h2)) =
            continue_with-ok (assess_now valid_contract read_time ports op now w0) _ h1 in
          let (_, (w2, usable, h3)) = continue_with-ok (ports.ensure_usable op mandate w1) _ h2 in
          let (current, (w3, second_time, h4)) =
            continue_with-ok (assess_now valid_contract read_time ports op now_again w2) _ h3 in
          let (_, (w4, agreed, ran)) =
            continue_with-ok (raise_if (not (current == mandate)) not_authorised, w3) (λ _. execute)
              h4 in
          let start = (check-ok (validate_operation valid_contract read_time op) w valid).1 in
          let (equal, stay) =
            check-ok (raise_if (not (current == mandate)) not_authorised) w3 agreed in
          let same : current ≡ mandate = ground (arith, equal, eq_law current mandate) in
          (
            mandate,
            (
              w1,
              (
                w2,
                (
                  w3,
                  subst (λ x. Assessed now mandate x w1) (sym start)
                      (assess_now-Assessed now w0 w1 first),
                  usable,
                  subst (λ m. Assessed now_again m w2 w3) same
                      (assess_now-Assessed now_again w2 w3 second_time),
                  subst (λ x. execute x ≡ (ok a, v)) (sym stay) ran,
                ),
              ),
            ),
          )

    -- Performing an action is performing the gate alone, and then the action if the gate returned.
    pub perform_governed_lem :
        (now now_again : ℕ) {A : Type 0} (execute : Act W A) (w : W)
        → perform_governed valid_contract read_time ports op now now_again execute w
          ≡ continue_with
              (perform_governed valid_contract read_time ports op now now_again nothing w)
              (λ _. execute)
    unfolding perform_governed
    perform_governed_lem now now_again execute w =
        fuse (validate_operation valid_contract read_time op, w) _ _ (λ _. execute)
          (λ _ w0.
            fuse (assess_now valid_contract read_time ports op now w0) _ _ (λ _. execute)
              (λ mandate w1.
                fuse (ports.ensure_usable op mandate w1) _ _ (λ _. execute)
                  (λ _ w2.
                    fuse (assess_now valid_contract read_time ports op now_again w2) _ _
                      (λ _. execute)
                      (λ current w3.
                        fuse (raise_if (not (current == mandate)) not_authorised, w3) _ _
                          (λ _. execute) (λ _ w4. refl)))))

    -- Where the gate refuses, with an error and a world, every action is refused with this error, and
    -- the world is the same whatever the action would have done.
    pub refused_without_effect :
        (now now_again : ℕ) {A : Type 0} (execute : Act W A) (w v : W) {e : GateError}
        → perform_governed valid_contract read_time ports op now now_again nothing w ≡ (err e, v)
        → perform_governed valid_contract read_time ports op now now_again execute w ≡ (err e, v)
    refused_without_effect now now_again execute w v refused =
        perform_governed_lem now now_again execute w ∙ rw refused
