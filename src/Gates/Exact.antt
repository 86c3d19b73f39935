-- ===== src/Gates/Exact.antt =====
-- What a governed native action was preceded by (Gates/Native.antt, Gates/Documentary.antt).
use baobab_erp.Common.{
  ℕ, ◌+◌, ◌≤◌, ◌<◌, String, string_eq, ◌≡◌, refl, ap, ◌∙◌, Bool, true, false, not, ◌||◌, Option,
  some, arith, Result, ok, err, Result-cases, inl, inr, option_eq, then-eq-ok, unless-eq-ok,
  or_raise-eq-ok, true_of_not,
}
use baobab_erp.Json.{Value, Fields, obj, get, is_false}
use baobab_erp.Gates.Decision.{
  GateError, not_authorised, LegalActorOperation, as_object, second, time_of, validate_operation,
}
use baobab_erp.Gates.Action.{Act}
use baobab_erp.Gates.Authority.{continue_with-ok}
use baobab_erp.Gates.Documentary.{
  max_age, max_lease, restriction_request, answered, is_for, is_fresh, assert_unblocked,
  require_unblocked,
}
use baobab_erp.Gates.Native.{Clock, ensure_both}

module _ (valid_contract : String → Value → Bool) (read_time : Value → Option (Option ℕ)) where
  -- an answer that unblocks the operation at an instant: it is for this operation under the policy,
  -- blocks nothing and grants nothing, is at most three seconds old, and its lease of at most two
  -- seconds is running
  pub record IsUnblocked (op : LegalActorOperation) (raw : Fields) (now : ℕ) : Type 0 where
    pub for_op : is_for op raw ≡ true
    pub open_scope : is_false (get "blocked" raw) ≡ true
    pub no_authority : is_false (get "authority_granted" raw) ≡ true
    pub evaluated : ℕ
    pub expires : ℕ
    pub evaluated_at : time_of valid_contract read_time "evaluated_at" raw ≡ some evaluated
    pub expires_at : time_of valid_contract read_time "expires_at" raw ≡ some expires
    pub not_early : evaluated ≤ now + second
    pub not_old : now ≤ evaluated + max_age
    pub running : now < expires
    pub short : expires ≤ evaluated + max_lease

  is_fresh-bounds :
      (now evaluated expires : ℕ)
      → is_fresh now evaluated expires ≡ true
      → (evaluated ≤ now + second)
        × (now ≤ evaluated + max_age)
        × (now < expires)
        × (expires ≤ evaluated + max_lease)
  unfolding is_fresh
  is_fresh-bounds now evaluated expires h = ground arith

  three_hold :
      (a b c : Bool) → (not a || not b || not c) ≡ false → (a ≡ true) × (b ≡ true) × (c ≡ true)
  three_hold a b c h = ground arith

  -- An answer that the check lets pass unblocks the operation at that instant.
  pub assert_unblocked-IsUnblocked :
      (op : LegalActorOperation) (answer : Value) (now : ℕ)
      → assert_unblocked valid_contract read_time op answer now ≡ ok tt
      → (raw : Fields) × (as_object answer ≡ some raw) × IsUnblocked op raw now
  unfolding assert_unblocked
  assert_unblocked-IsUnblocked op answer now h =
      let (_, h1) = then-eq-ok (validate_operation valid_contract read_time op) _ h in
      let (_, h2) =
        unless-eq-ok (not (valid_contract "documentary_response" answer)) not_authorised _ h1 in
      let (raw, is_object, h3) = or_raise-eq-ok (as_object answer) not_authorised _ h2 in
      let (matches, h4) =
        unless-eq-ok
          (not (is_for op raw)
            || not (is_false (get "blocked" raw))
            || not (is_false (get "authority_granted" raw)))
          not_authorised _ h3 in
      let (evaluated, at, h5) =
        or_raise-eq-ok (time_of valid_contract read_time "evaluated_at" raw) not_authorised _ h4 in
      let (expires, to, h6) =
        or_raise-eq-ok (time_of valid_contract read_time "expires_at" raw) not_authorised _ h5 in
      let (fresh, _) = unless-eq-ok (not (is_fresh now evaluated expires)) not_authorised _ h6 in
      let (for_op, unblocked, powerless) = three_hold _ _ _ matches in
      let (early, old, running, short) =
        is_fresh-bounds now evaluated expires (true_of_not _ fresh) in
      (
        raw,
        is_object,
        record {
          for_op = for_op;
          open_scope = unblocked;
          no_authority = powerless;
          evaluated = evaluated;
          expires = expires;
          evaluated_at = at;
          expires_at = to;
          not_early = early;
          not_old = old;
          running = running;
          short = short;
        },
      )

  module _ {W : Type 0} (documentary : Value → Act W Value) (op : LegalActorOperation) where
    -- the control plane was asked about the operation, and its answer unblocks it at an instant
    abbrev pub Unblocked : ℕ → W → W → Type 0
    Unblocked now w v =
        (answer : Value) × (documentary (obj (restriction_request op)) w ≡ (ok answer, v))
        × ((raw : Fields) × (as_object answer ≡ some raw) × IsUnblocked op raw now)

    answered-Unblocked :
        (now : ℕ) (w v : W) (r : Result GateError Value × W)
        → documentary (obj (restriction_request op)) w ≡ r
        → answered valid_contract read_time op now r ≡ (ok tt, v)
        → Unblocked now w v
    answered-Unblocked now w v (ok answer, u) asked h = (
      answer,
      asked ∙ ap (λ x. (ok answer, x)) (ap (λ x. x.1) h),
      assert_unblocked-IsUnblocked op answer now (ap (λ x. x.0) h),
    )
    answered-Unblocked now w v (err e, u) asked h = absurd (cc (ap (λ x. x.0) h))

    require_unblocked-Unblocked :
        (now : ℕ) (w v : W)
        → require_unblocked valid_contract read_time (some documentary) op now w ≡ (ok tt, v)
        → Unblocked now w v
    unfolding require_unblocked
    require_unblocked-Unblocked now w v h =
        elim (Result-cases (validate_operation valid_contract read_time op)) [
          | inl (_, e) ↦
              answered-Unblocked now w v (documentary (obj (restriction_request op)) w) refl
                (rw e at h)
          | inr (problem, e) ↦ let refused = rw e at h in absurd (cc (ap (λ x. x.0) refused))
        ]

    -- the provider's readiness, with the control plane's answers before and after it
    abbrev pub Ready :
        Clock → (LegalActorOperation → String → Act W (Unit {0})) → String → W → W → Type 0
    Ready clock native mandate w v =
        (w1 : W) × ((w2 : W) × Unblocked clock.before_provider w w1
          × (native op mandate w1 ≡ (ok tt, w2))
          × Unblocked clock.after_provider w2 v)

    pub ensure_both-Ready :
        (clock : Clock) (native : LegalActorOperation → String → Act W (Unit {0}))
        (mandate : String) (w v : W)
        → ensure_both valid_contract read_time clock documentary native op mandate w ≡ (ok tt, v)
        → Ready clock native mandate w v
    unfolding ensure_both
    ensure_both-Ready clock native mandate w v h =
        let (_, (w1, before, h1)) =
          continue_with-ok
            (require_unblocked valid_contract read_time (some documentary) op clock.before_provider
              w)
            _ h in
        let (_, (w2, ready, later)) = continue_with-ok (native op mandate w1) _ h1 in
        (
          w1,
          (
            w2,
            require_unblocked-Unblocked clock.before_provider w w1 before,
            ready,
            require_unblocked-Unblocked clock.after_provider w2 v later,
          ),
        )
