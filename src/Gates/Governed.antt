-- ===== src/Gates/Governed.antt =====
-- What a governed native action was preceded by, and what it leaves behind (Gates/Native.antt).
use baobab_erp.Common.{
  ℕ, String, ◌≡◌, refl, ap, Bool, true, false, Option, none, some, ok, Option-cases, inl, inr,
}
use baobab_erp.Json.{Value}
use baobab_erp.Egress.{TenantScope, Permits, with_native_action, with_invoice_post}
use baobab_erp.Gates.Decision.{LegalActorOperation}
use baobab_erp.Gates.Action.{Act, Ports}
use baobab_erp.Gates.Authority.{Assessed, perform_governed-Assessed}
use baobab_erp.Gates.Native.{
  NativeActionPolicy, is_exact, is_posting, Clock, Authorities, ensure_both, ports_of,
  perform_native, post_governed, governed,
}
use baobab_erp.Gates.Exact.{Ready, ensure_both-Ready}

module _ (valid_contract : String → Value → Bool) (read_time : Value → Option (Option ℕ)) where
  -- the authorities that were asked, and the worlds between their answers: a decision with a mandate,
  -- the control plane and the provider, and a second decision with the same mandate
  pub record IsApproved {W : Type 0} (op : LegalActorOperation) (authorities : Authorities W)
      (clock : Clock) (w v : W) : Type 0 where
    pub assess : Value → Act W Value
    pub native : LegalActorOperation → String → Act W (Unit {0})
    pub documentary : Value → Act W Value
    pub has_assessor : authorities.assessor ≡ some assess
    pub has_provider : authorities.provider ≡ some native
    pub has_documentary : authorities.documentary ≡ some documentary
    pub mandate : String
    pub w1 : W
    pub w2 : W
    pub first :
        Assessed valid_contract read_time
          (record {
            assess = assess;
            ensure_usable = ensure_both valid_contract read_time clock documentary native;
          })
          op
          clock.first
          mandate
          w
          w1
    pub ready : Ready valid_contract read_time documentary op clock native mandate w1 w2
    pub last :
        Assessed valid_contract read_time
          (record {
            assess = assess;
            ensure_usable = ensure_both valid_contract read_time clock documentary native;
          })
          op
          clock.last
          mandate
          w2
          v

  module _ {W A : Type 0} (op : LegalActorOperation) (authorities : Authorities W) (clock : Clock)
      (execute : Act W A) (w v : W) (a : A) where
    -- an action that ran under the gate of these authorities
    abbrev Ran : Type 0
    Ran = (u : W) × IsApproved op authorities clock w u × (execute u ≡ (ok a, v))

    with_ports :
        (assess : Value → Act W Value) (native : LegalActorOperation → String → Act W (Unit {0}))
        (documentary : Value → Act W Value)
        → authorities.assessor ≡ some assess
        → authorities.provider ≡ some native
        → authorities.documentary ≡ some documentary
        → governed valid_contract read_time true
            (some (record {
              assess = assess;
              ensure_usable = ensure_both valid_contract read_time clock documentary native;
            }))
            op
            clock
            execute
            w
          ≡ (ok a, v)
        → Ran
    with_ports assess native documentary ha hn hd h =
        let ports : Ports W = record {
          assess = assess;
          ensure_usable = ensure_both valid_contract read_time clock documentary native;
        } in
        let (mandate, (w1, (w2, (w3, first, usable, last, ran)))) =
          perform_governed-Assessed valid_contract read_time ports op clock.first clock.last execute
            w v h in
        (
          w3,
          record {
            assess = assess;
            native = native;
            documentary = documentary;
            has_assessor = ha;
            has_provider = hn;
            has_documentary = hd;
            mandate = mandate;
            w1 = w1;
            w2 = w2;
            first = first;
            ready =
                ensure_both-Ready valid_contract read_time documentary op clock native mandate w1 w2
                  usable;
            last = last;
          },
          ran,
        )

    governed-Ran :
        (exact : Bool)
        → governed valid_contract read_time exact
            (ports_of valid_contract read_time clock authorities)
            op
            clock
            execute
            w
          ≡ (ok a, v)
        → (exact ≡ true) × Ran
    unfolding ports_of
    governed-Ran false h = absurd (cc (ap (λ x. x.0) h))
    governed-Ran true h = (
      refl,
      elim (Option-cases authorities.assessor) [
        | inl e ↦ let refused = rw e at h in absurd (cc (ap (λ x. x.0) refused))
        | inr (assess, ha) ↦ elim (Option-cases authorities.provider) [
          | inl e ↦ let refused = rw (ha, e) at h in absurd (cc (ap (λ x. x.0) refused))
          | inr (native, hn) ↦ elim (Option-cases authorities.documentary) [
            | inl e ↦ let refused = rw (ha, hn, e) at h in absurd (cc (ap (λ x. x.0) refused))
            | inr (documentary, hd) ↦
                with_ports assess native documentary ha hn hd (rw (ha, hn, hd) at h)
          ]
        ]
      ],
    )

  module _ {V A : Type 0} (op : LegalActorOperation) (scope : TenantScope) (reference : String)
      (authorities : Authorities (Permits × V)) (clock : Clock)
      (execute : Act (Permits × V) A) where
    -- A native action that returned was bound by its policy to this operation, scope and resource, was
    -- approved by a decision, the control plane, the provider, the control plane and a second decision
    -- under one mandate, in this order and with nothing in between, and ran next, under the marker of
    -- this action in this scope on this resource.
    pub perform_native-IsApproved :
        (policy : Option NativeActionPolicy) (w v : Permits × V) {a : A}
        → perform_native valid_contract read_time policy op scope reference authorities clock
            execute w
          ≡ (ok a, v)
        → (bound : NativeActionPolicy) × (policy ≡ some bound)
          × (is_exact bound op scope reference ≡ true)
          × ((u : Permits × V) × IsApproved op authorities clock w u
              × (with_native_action scope bound.action reference execute u ≡ (ok a, v)))
    unfolding perform_native
    perform_native-IsApproved none w v h = absurd (cc (ap (λ x. x.0) h))
    perform_native-IsApproved (some policy) w v {a} h =
        let (exact, ran) =
          governed-Ran op authorities clock
            (with_native_action scope policy.action reference execute) w v a
            (is_exact policy op scope reference) h in
        (policy, refl, exact, ran)

    -- An invoice posting that returned was for this invoice in this scope, was approved in the same
    -- way, and ran next, under the marker of this invoice.
    post_governed-IsApproved :
        (w v : Permits × V) {a : A}
        → post_governed valid_contract read_time op scope reference authorities clock execute w
          ≡ (ok a, v)
        → (is_posting op scope reference ≡ true)
          × ((u : Permits × V) × IsApproved op authorities clock w u
              × (with_invoice_post scope reference execute u ≡ (ok a, v)))
    unfolding post_governed
    post_governed-IsApproved w v {a} h =
        governed-Ran op authorities clock (with_invoice_post scope reference execute) w v a
          (is_posting op scope reference) h
