-- ===== src/Egress/Once.antt =====
-- One financial mutation for each governed action (Egress/Client.antt).
use baobab_erp.Common.{
  ℕ, ◌+◌, ◌≤◌, ◌≡◌, refl, ap, ◌∙◌, ◌⊎◌, String, Bool, true, false, some, List, [], ◌∷◌, All, arith,
  Result, ok, err, Result-cases, inl, inr, if◌then◌else◌,
}
use baobab_erp.Json.{Fields}
use baobab_erp.Egress.Scopes.{
  Permits, NativeMarker, Call, with_request, TenantScope, with_native_action,
}
use baobab_erp.Egress.Guard.{
  Company, denied, Host, is_mutation, is_governed, parts_of, request_for, require_authority,
}
use baobab_erp.Egress.Authority.{after, require_authority-IsPermitted}
use baobab_erp.Egress.Client.{
  ClientError, mutation_denied, unauthenticated, World, Transport, beside, guarded, sent,
  raw_request, call, permitted_call, run_all, continue_with, on_unauthenticated, api_error,
  unreachable,
}

-- how many mutations may still be sent
abbrev pub budget : Permits → ℕ
budget p = if p.spent then 0 else 1

abbrev pub total : {V : Type 0} → World V → ℕ
total (p, (n, v)) = n + budget p

module _ {V A B : Type 0} where
  continue_with-total :
      (r : Result ClientError A × World V) (next : A → Call ClientError (World V) B) (m : ℕ)
      → total r.1 ≤ m
      → ((a : A) (w : World V) → total (next a w).1 ≤ total w)
      → total (continue_with r next).1 ≤ m
  continue_with-total (ok a, w) next m h step = omega (arith, h, step a w)
  continue_with-total (err e, w) next m h step = h

module _ {V A : Type 0} where
  on_unauthenticated-total :
      (r : Result ClientError A × World V) (retry : Call ClientError (World V) A) (m : ℕ)
      → total r.1 ≤ m
      → ((w : World V) → total (retry w).1 ≤ total w)
      → total (on_unauthenticated r retry).1 ≤ m
  on_unauthenticated-total (ok a, w) retry m h step = h
  on_unauthenticated-total (err unauthenticated, w) retry m h step = omega (arith, h, step w)
  on_unauthenticated-total (err mutation_denied, w) retry m h step = h
  on_unauthenticated-total (err (api_error n), w) retry m h step = h
  on_unauthenticated-total (err unreachable, w) retry m h step = h

beside-total :
    {V A : Type 0} (act : V → Result ClientError A × V) (w : World V)
    → total (beside act w).1 ≡ total w
unfolding beside
beside-total act (p, (n, v)) = refl

module _ (host : Host) (company : Company) {V : Type 0} (transport : Transport V) where
  -- a request that is not sent leaves the count; a permit is spent before its request is sent
  module _ (method path : String) (body : Fields) (mutates : is_mutation host.upper method ≡ true)
      (governed : is_governed (parts_of host path) ≡ true) where
    require_cases :
        (consume : Bool) (p : Permits)
        → (require_authority host true method path body company consume p ≡ err denied)
          ⊎ ((p.spent ≡ false)
              × (require_authority host true method path body company consume p
                  ≡ ok (after host consume p)))
    require_cases consume p =
        elim (Result-cases (require_authority host true method path body company consume p)) [
          | inl (q, e) ↦
              let (_, permitted, left) =
                require_authority-IsPermitted host method path body company consume p mutates
                  governed e in
              inr (permitted.fresh, e ∙ ap ok left)
          | inr (denied, e) ↦ inl e
        ]

    guarded-total :
        (w : World V)
        → total (guarded host true company transport method path body false w).1 ≤ total w
    unfolding guarded
    guarded-total (p, (n, v)) = elim (require_cases false p) [
      | inl e ↦ rw e (omega arith)
      | inr (fresh, e) ↦ rw e (omega arith)
    ]

    raw_request-total :
        (token : String) (w : World V)
        → total (raw_request host true company transport method path body token w).1 ≤ total w
    unfolding raw_request guarded sent
    raw_request-total token (p, (n, v)) = elim (require_cases true p) [
      | inl e ↦ rw e (omega arith)
      | inr (fresh, e) ↦ rw (e, fresh) (omega arith)
    ]

    call-total :
        (w : World V) → total (call host true company transport method path body w).1 ≤ total w
    unfolding call
    call-total w =
        continue_with-total (guarded host true company transport method path body false w) _
          (total w) (guarded-total w)
          (λ _ w1.
            continue_with-total (beside transport.ensure_token w1) _ (total w1)
              (omega (arith, beside-total transport.ensure_token w1))
              (λ token w2.
                on_unauthenticated-total
                  (raw_request host true company transport method path body token w2) _ (total w2)
                  (raw_request-total token w2)
                  (λ w3.
                    continue_with-total (beside transport.authenticate w3) _ (total w3)
                      (omega (arith, beside-total transport.authenticate w3))
                      (λ again w4. raw_request-total again w4))))

    permitted_call-total :
        (w : World V)
        → total (permitted_call host true company transport method path body w).1 ≤ total w
    unfolding permitted_call with_request
    permitted_call-total (p, (n, v)) =
        call-total (record p { request = some (request_for host method path body) }, (n, v))

  -- a mutating request to a model or a process
  abbrev pub Mutates : String × (String × Fields) → Type 0
  Mutates (method, (path, body)) =
      (is_mutation host.upper method ≡ true) × (is_governed (parts_of host path) ≡ true)

  run_all-total :
      (requests : List (String × (String × Fields))) (w : World V)
      → All Mutates requests
      → total (run_all host true company transport requests w).1 ≤ total w
  unfolding run_all
  run_all-total [] w h = omega arith
  run_all-total ((method, (path, body)) ∷ rest) w h =
      let first = permitted_call-total method path body h.0.0 h.0.1 w in
      omega (
        arith,
        first,
        run_all-total rest (permitted_call host true company transport method path body w).1 h.1,
      )

  -- Under one governed action, whatever mutating requests are made and whatever the engine answers, a
  -- rejected token included, at most one of them is sent.
  pub one_mutation :
      (requests : List (String × (String × Fields))) (scope : TenantScope)
      (action reference : String) (p : Permits) (n : ℕ) (v : V)
      → All Mutates requests
      → (with_native_action scope action reference
          (run_all host true company transport requests)
          (p, (n, v))).1.1.0
        ≤ n + 1
  unfolding with_native_action
  one_mutation requests scope action reference p n v h =
      let marker : NativeMarker = record {
        scope = scope;
        action = action;
        reference = reference;
      } in
      omega
        (arith, run_all-total requests (record p { native = some marker; spent = false }, (n, v)) h)
