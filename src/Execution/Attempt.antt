-- ===== src/Execution/Attempt.antt =====
-- One attempt at a placed order (`_execute` and `run_claim` of
-- modules/order_to_cash/inbox_execution.py). Other sessions hold the keys for which `is_free` is
-- false, and otherwise do not touch the rows of this order while the lock is held.
use baobab_erp.Common.{
  ℕ, String, ◌<>◌, string_eq, pair_eq, nat_eq, Bool, true, false, Option, none, some, List, [], ◌∷◌,
  ◌==◌, ltb, Result, ok, err, if◌then◌else◌,
}
use baobab_erp.Egress.{TenantScope, Permits}
use baobab_erp.Gates.{GateError, not_authorised, unavailable, perform_native}
use baobab_erp.Inbox.{
  processed, retry, Outcome, outcome, contention_delay_seconds, Claim, Session, commit, rollback,
  Raised, stop, other, Times, settle,
}
use baobab_erp.Orders
use baobab_erp.Orders.{
  OrderConsequence, PlacedOrder, PayloadError, payload_error, Number, parse_placed_order,
  open_order,
}
use baobab_erp.Execution.World.{
  Business, World, Failure, stopped, not_permitted, raised, dead, block, Engine, Target, target,
  native,
}
use baobab_erp.Execution.Native.{NativeLine, resolve_lines, customer_kind, find_or_create}
use baobab_erp.Execution.Env.{EngineFor, org_mismatch, unconfigured, engine, Authority, Env}
use baobab_erp.Execution.Rows.{executed_code, write_rows}

abbrev pub engine_denied : Failure
engine_denied =
    block "LEGAL_ACTOR_DENIED"
      "current CP legal actor, documentary or native provider authority denied"

-- what `except (LegalActorNotAuthorised, OrderToCashError, ControlPlaneUnavailable)` makes of a
-- failure of the gate or of the native call under it
abbrev pub ungated : {A : Type 0} → Result GateError (Result Failure A) → Result Failure A
ungated (ok (ok a)) = ok a
ungated (ok (err not_permitted)) = err engine_denied
ungated (ok (err (stopped o))) = err (stopped o)
ungated (ok (err (raised name))) = err (raised name)
ungated (err not_authorised) = err engine_denied
ungated (err (unavailable name)) =
    if name == "ControlPlaneUnavailable" then err engine_denied else err (raised name)

module _ {N : Type 0} (env : Env N) (claim : Claim) where
  -- a call that does not touch the session
  abbrev Step : Type 0 → Type 0
  Step A = Permits × N → Result Failure A × (Permits × N)

  abbrev pub business : World N → Business
  business (p, (s, n)) = s.working.business

  -- the native call raises its own failures through the gate
  abbrev pub carried :
      {A : Type 0}
      → Result Failure A × (Permits × N)
      → Result GateError (Result Failure A) × (Permits × N)
  carried (r, w) = (ok r, w)

  abbrev pub uncarried :
      {A : Type 0}
      → Result GateError (Result Failure A) × (Permits × N)
      → Result Failure A × (Permits × N)
  uncarried (r, w) = (ungated r, w)

  abbrev pub governed_order :
      Option (Authority N) → TenantScope → PlacedOrder → Step (ℕ × Bool) → Step (ℕ × Bool)
  governed_order none scope order act w = (
    err (block "LEGAL_ACTOR_PENDING" "current CP legal actor and ERP provider checks required"),
    w,
  )
  governed_order (some a) scope order act w = uncarried (
      perform_native env.valid_contract env.read_time (some a.policy) a.operation scope
        order.commerce_order_id a.authorities env.clock (λ v. carried (act v)) w)

  -- the native order, in a protected runtime under the gate
  unfoldable pub native_order :
      Engine N → TenantScope → PlacedOrder → ℕ → List NativeLine → Step (ℕ × Bool)
  native_order ops scope order customer lines w =
      if env.protected
      then governed_order env.authority scope order
          (find_or_create env.python ops true scope order customer lines) w
      else find_or_create env.python ops false scope order customer lines w

  -- committed, or rolled back
  abbrev pub conclude_rows :
      Bool
      → Result Raised (Unit {0}) × Session Business
      → Permits
      → N
      → Result Raised Outcome × World N
  conclude_rows adopted (err e, s) p n = (err e, (p, (rollback s, n)))
  conclude_rows adopted (ok _, s) p n =
      (ok (outcome processed (executed_code adopted) ""), (p, (commit s, n)))

  abbrev pub as_raised : Failure → Raised
  as_raised (stopped o) = stop o
  as_raised not_permitted = other "OrderToCashError"
  as_raised (raised name) = other name

  abbrev pub record_order :
      String
      → PlacedOrder
      → Session Business
      → Result Failure (ℕ × Bool) × (Permits × N)
      → Result Raised Outcome × World N
  record_order tenant_id order s (err e, (p, n)) = (err (as_raised e), (p, (s, n)))
  record_order tenant_id order s (ok (native_id, adopted), (p, n)) =
      conclude_rows adopted (write_rows env claim tenant_id order native_id adopted s) p n

  -- an executed order is not executed again
  unfoldable pub known_outcome : ℕ → ℕ → Result Raised Outcome
  known_outcome version known =
      if version == known
      then ok (outcome processed "ALREADY_EXECUTED" "")
      else if ltb version known
      then ok (outcome processed "STALE_VERSION" "")
      else err (
          as_raised (
            dead "AMENDMENT_UNSUPPORTED"
              "a later version of an executed order; amendment is not implemented"))

  abbrev pub with_customer :
      String
      → String
      → Target
      → PlacedOrder
      → List NativeLine
      → Engine N
      → Option ℕ
      → World N
      → Result Raised Outcome × World N
  with_customer tenant_id instance place order lines ops none w = (
    err (as_raised (block "CUSTOMER_UNMAPPED" "the order's customer has no master-data mapping")),
    w,
  )
  with_customer tenant_id instance place order lines ops (some customer) (p, (s, n)) =
      record_order tenant_id order s (
        native_order ops
          (record {
            tenant_id = tenant_id;
            legal_entity_id = order.legal_entity_id;
            ad_client_id = place.ad_client_id;
            ad_org_id = place.ad_org_id;
          })
          order customer lines (p, n))

  abbrev pub with_engine :
      String
      → String
      → Target
      → PlacedOrder
      → List NativeLine
      → EngineFor N
      → World N
      → Result Raised Outcome × World N
  with_engine tenant_id instance place order lines org_mismatch w = (
    err (
        as_raised (
          block "ENGINE_ORG_MISMATCH"
            "the engine credentials are for another AD_Org than the tenant's mapping")),
    w,
  )
  with_engine tenant_id instance place order lines unconfigured w = (
    err (
        as_raised (block "ENGINE_UNCONFIGURED" "no engine credentials for the tenant's AD_Client")),
    w,
  )
  with_engine tenant_id instance place order lines (engine ops) w =
      with_customer tenant_id instance place order lines ops
        (native (business w) instance order.legal_entity_id customer_kind order.customer_id) w

  abbrev pub with_lines :
      String
      → String
      → Target
      → PlacedOrder
      → Result Failure (List NativeLine)
      → World N
      → Result Raised Outcome × World N
  with_lines tenant_id instance place order (err e) w = (err (as_raised e), w)
  with_lines tenant_id instance place order (ok lines) w =
      with_engine tenant_id instance place order lines
        (env.engine_for place.ad_client_id place.ad_org_id) w

  abbrev pub unless_known :
      String
      → String
      → Target
      → PlacedOrder
      → Option OrderConsequence
      → World N
      → Result Raised Outcome × World N
  unless_known tenant_id instance place order (some r) w =
      (known_outcome order.order_version r.order_version, w)
  unless_known tenant_id instance place order none w =
      with_lines tenant_id instance place order
        (resolve_lines env.python.decimal (business w) instance order) w

  -- with the lock of the order
  unfoldable pub execute_locked :
      String → String → Target → PlacedOrder → World N → Result Raised Outcome × World N
  unfolding known_outcome native_order write_rows
  execute_locked tenant_id instance place order (p, (s, n)) =
      unless_known tenant_id instance place order
        (Orders.get tenant_id order.commerce_order_id s.working.business.consequences)
        (p, (commit s, n))

  abbrev pub leave_lock : Result Raised Outcome × World N → Result Raised Outcome × World N
  leave_lock (r, (p, (s, n))) = (r, (p, (commit (rollback s), n)))

  abbrev pub lock_key : String → PlacedOrder → String
  lock_key tenant_id order = "baobab.order|" <> (tenant_id <> ("|" <> order.commerce_order_id))

  abbrev pub unmapped : World N → Result Raised Outcome × World N
  unmapped w = (
    err (
        as_raised
          (block "TENANT_UNMAPPED" "no active engine placement for the tenant and legal entity")),
    w,
  )

  -- `with AdvisoryLock(...)`, where another worker may be on this very order
  abbrev pub at_instance :
      String → PlacedOrder → Target → Option String → World N → Result Raised Outcome × World N
  at_instance tenant_id order place none w = unmapped w
  at_instance tenant_id order place (some instance) (p, (s, n)) =
      if env.is_free (lock_key tenant_id order)
      then leave_lock (execute_locked tenant_id instance place order (p, (commit s, n)))
      else (
        ok (record {
          status = retry;
          code = "ORDER_CONTENDED";
          detail = "";
          delay_seconds = some contention_delay_seconds;
          refund_attempt = true;
        }),
        (p, (commit s, n)),
      )

  abbrev pub at_place :
      String → PlacedOrder → Option Target → World N → Result Raised Outcome × World N
  at_place tenant_id order none w = unmapped w
  at_place tenant_id order (some place) w =
      at_instance tenant_id order place place.engine_instance_id w

  abbrev pub with_order :
      Result PayloadError PlacedOrder → Option String → World N → Result Raised Outcome × World N
  with_order (err (payload_error detail)) tenant w =
      (err (as_raised (dead "PAYLOAD_INVALID" detail)), w)
  with_order (ok order) none w =
      (err (as_raised (dead "TENANT_MISSING" "a tenant-scoped order event carries no tenant")), w)
  with_order (ok order) (some tenant_id) w =
      if tenant_id == ""
      then (
        err (as_raised (dead "TENANT_MISSING" "a tenant-scoped order event carries no tenant")),
        w,
      )
      else at_place tenant_id order (target (business w) tenant_id order.legal_entity_id) w

  -- `_execute`
  unfoldable pub execute : World N → Result Raised Outcome × World N
  unfolding execute_locked
  execute w = with_order (parse_placed_order env.number_of claim.payload) claim.tenant_id w

  abbrev pub settled_in_attempt : List String
  settled_in_attempt = "EXECUTED" ∷ "ADOPTED_NATIVE_ORDER" ∷ []

  -- `run_claim`: the attempt, and its settlement on the session
  unfoldable pub run_claim : Times → World N → Outcome × World N
  unfolding execute
  run_claim times (p, (s, n)) =
      let (r, (q, (t, m))) = execute (p, (s, n)) in
      let (o, u) = settle settled_in_attempt times claim (λ _. (r, t)) s in (o, (q, (u, m)))
