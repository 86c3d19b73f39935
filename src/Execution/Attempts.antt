-- ===== src/Execution/Attempts.antt =====
-- Attempts never make a second engine order (Execution/Attempt.antt), however they end.
use baobab_erp.Common.{
  ℕ, ◌≤◌, ◌≡◌, refl, ap, String, string_eq, Bool, true, false, Option, none, some, List, [], ◌∷◌,
  ◌==◌, All, arith, Result, ok, err, Option-cases, Bool-cases, inl, inr,
}
use baobab_erp.Egress.{TenantScope, Permits, with_native_action}
use baobab_erp.Gates.{Act, is_exact, perform_native}
use baobab_erp.Gates.Invariants.{Keeps, AuthoritiesKeep, governed-Keeps}
use baobab_erp.Inbox.{Outcome, Claim, Session, commit, Raised}
use baobab_erp.Orders.{
  PlacedOrder, PayloadError, payload_error, OrderConsequence, parse_placed_order,
}
use baobab_erp.Execution.World.{Business, World, Failure, Engine, Target, target, native}
use baobab_erp.Execution.Native.{NativeLine, resolve_lines, customer_kind}
use baobab_erp.Execution.Env.{EngineFor, org_mismatch, unconfigured, engine, Authority, Env}
use baobab_erp.Execution.Rows.{write_rows}
use baobab_erp.Execution.Attempt.{
  native_order, conclude_rows, record_order, with_customer, with_engine, with_lines, unless_known,
  execute_locked, leave_lock, lock_key, at_instance, at_place, with_order, execute, business,
}
use baobab_erp.Execution.OneOrder.{KeepsOrders, find_or_create-orders}

module _ {N : Type 0} (orders : String → N → ℕ) (ref : String) where
  -- at most one order carries the reference
  abbrev pub AtMostOne : Permits × N → Type 0
  AtMostOne w = orders ref w.1 ≤ 1

  -- the engines keep their orders, and the authorities of the gate make none
  pub record EnvKeeps (env : Env N) : Type 0 where
    pub engines :
        (client org : ℕ) (ops : Engine N)
        → env.engine_for client org ≡ engine ops
        → KeepsOrders ops orders
    pub gate : (a : Authority N) → env.authority ≡ some a → AuthoritiesKeep AtMostOne a.authorities

  module _ (env : Env N) (claim : Claim) (keeps : EnvKeeps env) where
    with_native_action-Keeps :
        {A : Type 0} (scope : TenantScope) (action reference : String) (act : Act (Permits × N) A)
        → Keeps AtMostOne act
        → Keeps AtMostOne (with_native_action scope action reference act)
    unfolding with_native_action
    with_native_action-Keeps scope action reference act act_keeps (p, n) h = act_keeps _ h

    native_order-keeps :
        (ops : Engine N) (scope : TenantScope) (order : PlacedOrder) (customer : ℕ)
        (lines : List NativeLine) (w : Permits × N)
        → KeepsOrders ops orders
        → AtMostOne w
        → AtMostOne (native_order env claim ops scope order customer lines w).1
    unfolding native_order perform_native
    native_order-keeps ops scope order customer lines (p, n) ops_keep h =
        elim (Bool-cases env.protected) [
          | inr e ↦ rw e (
              find_or_create-orders env.python ops orders ops_keep ref false scope order customer
                lines p n h)
          | inl e ↦ elim (Option-cases env.authority) [
            | inl none_there ↦ rw (e, none_there) h
            | inr (a, there) ↦
                rw (e, there)
                  (governed-Keeps AtMostOne env.valid_contract env.read_time
                    (is_exact a.policy a.operation scope order.commerce_order_id) a.authorities
                    a.operation env.clock _ (keeps.gate a there)
                    (with_native_action-Keeps scope a.policy.action order.commerce_order_id _
                      (λ v k.
                        find_or_create-orders env.python ops orders ops_keep ref true scope order
                          customer lines v.0 v.1 k))
                    (p, n) h)
          ]
        ]

    conclude_rows-engine :
        (adopted : Bool) (written : Result Raised (Unit {0}) × Session Business) (p : Permits)
        (n : N)
        → (conclude_rows env claim adopted written p n).1.1.1 ≡ n
    conclude_rows-engine adopted (ok _, s) p n = refl
    conclude_rows-engine adopted (err e, s) p n = refl

    record_order-engine :
        (tenant_id : String) (order : PlacedOrder) (s : Session Business)
        (r : Result Failure (ℕ × Bool) × (Permits × N))
        → (record_order env claim tenant_id order s r).1.1.1 ≡ r.1.1
    record_order-engine tenant_id order s (err e, (p, n)) = refl
    record_order-engine tenant_id order s (ok (id, adopted), (p, n)) =
        conclude_rows-engine adopted (write_rows env claim tenant_id order id adopted s) p n

    -- what an attempt left of the engine
    abbrev pub engine_after : Result Raised Outcome × World N → N
    engine_after r = r.1.1.1

    with_customer-keeps :
        (tenant_id instance : String) (place : Target) (order : PlacedOrder)
        (lines : List NativeLine) (ops : Engine N) (customer : Option ℕ) (w : World N)
        → KeepsOrders ops orders
        → orders ref w.1.1 ≤ 1
        → orders ref
            (with_customer env claim tenant_id instance place order lines ops customer w).1.1.1
          ≤ 1
    with_customer-keeps tenant_id instance place order lines ops none w ops_keep h = h
    with_customer-keeps tenant_id instance place order lines ops (some customer) (p, (s, n))
          ops_keep h =
        let scope : TenantScope = record {
          tenant_id = tenant_id;
          legal_entity_id = order.legal_entity_id;
          ad_client_id = place.ad_client_id;
          ad_org_id = place.ad_org_id;
        } in
        omega (
          arith,
          ap (orders ref) (
              record_order-engine tenant_id order s
                (native_order env claim ops scope order customer lines (p, n))),
          native_order-keeps ops scope order customer lines (p, n) ops_keep h,
        )

    with_engine-keeps :
        (tenant_id instance : String) (place : Target) (order : PlacedOrder)
        (lines : List NativeLine) (found : EngineFor N) (w : World N)
        → env.engine_for place.ad_client_id place.ad_org_id ≡ found
        → orders ref w.1.1 ≤ 1
        → orders ref (with_engine env claim tenant_id instance place order lines found w).1.1.1 ≤ 1
    with_engine-keeps tenant_id instance place order lines org_mismatch w e h = h
    with_engine-keeps tenant_id instance place order lines unconfigured w e h = h
    with_engine-keeps tenant_id instance place order lines (engine ops) w e h =
        with_customer-keeps tenant_id instance place order lines ops
          (native (business env claim w) instance order.legal_entity_id customer_kind
            order.customer_id)
          w (keeps.engines place.ad_client_id place.ad_org_id ops e) h

    with_lines-keeps :
        (tenant_id instance : String) (place : Target) (order : PlacedOrder)
        (lines : Result Failure (List NativeLine)) (w : World N)
        → orders ref w.1.1 ≤ 1
        → orders ref (with_lines env claim tenant_id instance place order lines w).1.1.1 ≤ 1
    with_lines-keeps tenant_id instance place order (err e) w h = h
    with_lines-keeps tenant_id instance place order (ok lines) w h =
        with_engine-keeps tenant_id instance place order lines
          (env.engine_for place.ad_client_id place.ad_org_id) w refl h

    unless_known-keeps :
        (tenant_id instance : String) (place : Target) (order : PlacedOrder)
        (known : Option OrderConsequence) (w : World N)
        → orders ref w.1.1 ≤ 1
        → orders ref (unless_known env claim tenant_id instance place order known w).1.1.1 ≤ 1
    unless_known-keeps tenant_id instance place order (some r) w h = h
    unless_known-keeps tenant_id instance place order none w h =
        with_lines-keeps tenant_id instance place order
          (resolve_lines env.python.decimal (business env claim w) instance order) w h

    execute_locked-keeps :
        (tenant_id instance : String) (place : Target) (order : PlacedOrder) (w : World N)
        → orders ref w.1.1 ≤ 1
        → orders ref (execute_locked env claim tenant_id instance place order w).1.1.1 ≤ 1
    unfolding execute_locked
    execute_locked-keeps tenant_id instance place order (p, (s, n)) h =
        unless_known-keeps tenant_id instance place order _ (p, (_, n)) h

    leave_lock-engine :
        (r : Result Raised Outcome × World N) → (leave_lock env claim r).1.1.1 ≡ r.1.1.1
    leave_lock-engine (r, (p, (s, n))) = refl

    at_instance-keeps :
        (tenant_id : String) (order : PlacedOrder) (place : Target) (instance : Option String)
        (w : World N)
        → orders ref w.1.1 ≤ 1
        → orders ref (at_instance env claim tenant_id order place instance w).1.1.1 ≤ 1
    at_instance-keeps tenant_id order place none w h = h
    at_instance-keeps tenant_id order place (some instance) (p, (s, n)) h =
        elim (Bool-cases (env.is_free (lock_key env claim tenant_id order))) [
          | inl free ↦
              let locked =
                execute_locked env claim tenant_id instance place order (p, (commit s, n)) in
              rw free (
                omega (
                  arith,
                  ap (orders ref) (leave_lock-engine locked),
                  execute_locked-keeps tenant_id instance place order (p, (commit s, n)) h,
                ))
          | inr held ↦ rw held h
        ]

    at_place-keeps :
        (tenant_id : String) (order : PlacedOrder) (place : Option Target) (w : World N)
        → orders ref w.1.1 ≤ 1
        → orders ref (at_place env claim tenant_id order place w).1.1.1 ≤ 1
    at_place-keeps tenant_id order none w h = h
    at_place-keeps tenant_id order (some place) w h =
        at_instance-keeps tenant_id order place place.engine_instance_id w h

    with_order-keeps :
        (parsed : Result PayloadError PlacedOrder) (tenant : Option String) (w : World N)
        → orders ref w.1.1 ≤ 1
        → orders ref (with_order env claim parsed tenant w).1.1.1 ≤ 1
    with_order-keeps (err (payload_error detail)) tenant w h = h
    with_order-keeps (ok order) none w h = h
    with_order-keeps (ok order) (some tenant_id) w h = elim (Bool-cases (tenant_id == "")) [
      | inl e ↦ rw e h
      | inr e ↦ rw e (
          at_place-keeps tenant_id order
            (target (business env claim w) tenant_id order.legal_entity_id) w h)
    ]

    execute-keeps :
        (w : World N) → orders ref w.1.1 ≤ 1 → orders ref (execute env claim w).1.1.1 ≤ 1
    unfolding execute
    execute-keeps w h =
        with_order-keeps (parse_placed_order env.number_of claim.payload) claim.tenant_id w h

  -- an attempt at some claim, with the permits and the session that it starts from
  pub record Attempt : Type 0 where
    pub env : Env N
    pub claim : Claim
    pub permits : Permits
    pub session : Session Business

  -- attempts one after the other, on one engine
  unfoldable pub run_attempts : List Attempt → N → N
  run_attempts [] n = n
  run_attempts (a ∷ rest) n =
      run_attempts rest (execute a.env a.claim (a.permits, (a.session, n))).1.1.1

  -- However often orders are attempted, by whichever workers, whatever each attempt finds in the
  -- database, the rows of an attempt that died included: where every engine of the attempts keeps
  -- its orders, and at most one order has a reference at first and after each call of the gate's
  -- authorities that finds it so, at most one has it in the end.
  pub run_attempts-AtMostOne :
      (attempts : List Attempt) (n : N)
      → All (λ a. EnvKeeps a.env) attempts
      → orders ref n ≤ 1
      → orders ref (run_attempts attempts n) ≤ 1
  unfolding run_attempts
  run_attempts-AtMostOne [] n keeps h = h
  run_attempts-AtMostOne (a ∷ rest) n keeps h =
      run_attempts-AtMostOne rest (execute a.env a.claim (a.permits, (a.session, n))).1.1.1 keeps.1
        (execute-keeps a.env a.claim keeps.0 (a.permits, (a.session, n)) h)
