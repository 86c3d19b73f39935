-- ===== src/Execution/Together.antt =====
-- The rows of an executed order commit together or not at all (Execution/Attempt.antt).
use baobab_erp.Common.{
  ℕ, ◌≡◌, refl, ap, ◌⊎◌, String, string_eq, pair_eq, Bool, Option, none, some, List, ◌==◌, Result,
  ok, err, Result-cases, Bool-cases, inl, inr,
}
use baobab_erp.Egress.{Permits}
use baobab_erp.Inbox
use baobab_erp.Inbox.{
  processed, Outcome, outcome, Claim, QueueError, mark_processed, Db, Session, with_inbox, commit,
  rollback, Raised, other, lost,
}
use baobab_erp.Orders
use baobab_erp.Orders.{
  PlacedOrder, PayloadError, payload_error, OrderConsequence, parse_placed_order, open_order,
}
use baobab_erp.Execution.World.{Business, World, Failure, Engine, Target, target, native}
use baobab_erp.Execution.Native.{NativeLine, resolve_lines, customer_kind}
use baobab_erp.Execution.Env.{EngineFor, org_mismatch, unconfigured, engine, Env}
use baobab_erp.Execution.Rows.{executed_code, write_rows}
use baobab_erp.Execution.Attempt.{
  native_order, conclude_rows, record_order, with_customer, with_engine, unless_known,
  execute_locked, leave_lock, lock_key, at_instance, at_place, with_order, execute,
}
use baobab_erp.Execution.Statements.{
  at_rest, AllWritten, write_rows-committed, write_rows-AllWritten,
}

module _ {N : Type 0} (env : Env N) (claim : Claim) where
  -- either the database is as it was, or the order's rows are committed and reported
  abbrev pub NothingOrAll : Db Business → Result Raised Outcome × World N → Type 0
  NothingOrAll db r =
      (r.1.1.0 ≡ at_rest db)
      ⊎ ((tenant_id : String) × ((order : PlacedOrder) × ((native_id : ℕ) × ((adopted : Bool)
                × ((b : Business) × ((rows : Inbox.Table) × (r.1.1.0
                        ≡ at_rest (record { inbox = rows; business = b }))
                      × (r.0 ≡ ok (outcome processed (executed_code adopted) ""))
                      × (parse_placed_order env.number_of claim.payload ≡ ok order)
                      × (claim.tenant_id ≡ some tenant_id)
                      × AllWritten env claim tenant_id order native_id adopted db b rows))))))

  module _ (db : Db Business) (tenant_id : String) (order : PlacedOrder)
      (parsed : parse_placed_order env.number_of claim.payload ≡ ok order)
      (tenant : claim.tenant_id ≡ some tenant_id) where
    conclude-cases :
        (native_id : ℕ) (adopted : Bool) (written : Result Raised (Unit {0}) × Session Business)
        (p : Permits) (n : N)
        → write_rows env claim tenant_id order native_id adopted (at_rest db) ≡ written
        → written.1.committed ≡ db
        → NothingOrAll db (conclude_rows env claim adopted written p n)
    conclude-cases native_id adopted (err e, t) p n h same = inl (ap at_rest same)
    conclude-cases native_id adopted (ok _, t) p n h same =
        let all = write_rows-AllWritten env claim tenant_id order native_id adopted db t h in
        let b = t.working.business in
        let rows = t.working.inbox in
        inr
          (tenant_id, (order, (native_id, (adopted, (b, (rows, refl, refl, parsed, tenant, all))))))

    record_order-cases :
        (r : Result Failure (ℕ × Bool) × (Permits × N))
        → NothingOrAll db (record_order env claim tenant_id order (at_rest db) r)
    record_order-cases (err e, (p, n)) = inl refl
    record_order-cases (ok (native_id, adopted), (p, n)) =
        conclude-cases native_id adopted
          (write_rows env claim tenant_id order native_id adopted (at_rest db)) p n refl
          (write_rows-committed env claim tenant_id order native_id adopted (at_rest db))

    with_customer-cases :
        (instance : String) (place : Target) (lines : List NativeLine) (ops : Engine N)
        (customer : Option ℕ) (p : Permits) (n : N)
        → NothingOrAll db (
            with_customer env claim tenant_id instance place order lines ops customer
              (p, (at_rest db, n)))
    with_customer-cases instance place lines ops none p n = inl refl
    with_customer-cases instance place lines ops (some customer) p n =
        record_order-cases (native_order env claim ops _ order customer lines (p, n))

    with_engine-cases :
        (instance : String) (place : Target) (lines : List NativeLine) (found : EngineFor N)
        (p : Permits) (n : N)
        → NothingOrAll db
            (with_engine env claim tenant_id instance place order lines found (p, (at_rest db, n)))
    with_engine-cases instance place lines org_mismatch p n = inl refl
    with_engine-cases instance place lines unconfigured p n = inl refl
    with_engine-cases instance place lines (engine ops) p n =
        with_customer-cases instance place lines ops
          (native db.business instance order.legal_entity_id customer_kind order.customer_id) p n

    unless_known-cases :
        (instance : String) (place : Target) (known : Option OrderConsequence) (p : Permits) (n : N)
        → NothingOrAll db
            (unless_known env claim tenant_id instance place order known (p, (at_rest db, n)))
    unless_known-cases instance place (some r) p n = inl refl
    unless_known-cases instance place none p n =
        elim (Result-cases (resolve_lines env.python.decimal db.business instance order)) [
          | inr (e, unmapped) ↦ rw unmapped (inl refl)
          | inl (lines, mapped) ↦ rw mapped (
              with_engine-cases instance place lines
                (env.engine_for place.ad_client_id place.ad_org_id) p n)
        ]

    leave_lock-cases :
        (r : Result Raised Outcome × World N)
        → NothingOrAll db r
        → NothingOrAll db (leave_lock env claim r)
    leave_lock-cases (r, (p, (s, n))) (inl same) = inl (ap (λ x. commit (rollback x)) same)
    leave_lock-cases (r, (p, (s, n)))
          (inr (t, (o, (i, (a, (b, (rows, same, done, was_parsed, for_tenant, written))))))) =
        let left = ap (λ x. commit (rollback x)) same in
        inr (t, (o, (i, (a, (b, (rows, left, done, was_parsed, for_tenant, written))))))

    at_instance-cases :
        (place : Target) (instance : Option String) (p : Permits) (n : N)
        → NothingOrAll db
            (at_instance env claim tenant_id order place instance (p, (at_rest db, n)))
    unfolding execute_locked
    at_instance-cases place none p n = inl refl
    at_instance-cases place (some instance) p n =
        elim (Bool-cases (env.is_free (lock_key env claim tenant_id order))) [
          | inl free ↦ rw free (
              leave_lock-cases
                (execute_locked env claim tenant_id instance place order (p, (at_rest db, n)))
                (unless_known-cases instance place
                  (Orders.get tenant_id order.commerce_order_id db.business.consequences) p n))
          | inr held ↦ rw held (inl refl)
        ]

    at_place-cases :
        (place : Option Target) (p : Permits) (n : N)
        → NothingOrAll db (at_place env claim tenant_id order place (p, (at_rest db, n)))
    at_place-cases none p n = inl refl
    at_place-cases (some place) p n = at_instance-cases place place.engine_instance_id p n

  with_order-cases :
      (db : Db Business) (parsed : Result PayloadError PlacedOrder) (tenant : Option String)
      (p : Permits) (n : N)
      → parse_placed_order env.number_of claim.payload ≡ parsed
      → claim.tenant_id ≡ tenant
      → NothingOrAll db (with_order env claim parsed tenant (p, (at_rest db, n)))
  with_order-cases db (err (payload_error detail)) tenant p n is_parsed for_tenant = inl refl
  with_order-cases db (ok order) none p n is_parsed for_tenant = inl refl
  with_order-cases db (ok order) (some tenant_id) p n is_parsed for_tenant =
      elim (Bool-cases (tenant_id == "")) [
        | inl e ↦ rw e (inl refl)
        | inr e ↦ rw e (
            at_place-cases db tenant_id order is_parsed for_tenant
              (target db.business tenant_id order.legal_entity_id) p n)
      ]

  -- An attempt either leaves the database as it was, whatever it did on the engine and however it
  -- failed, or it reports the order as executed and has committed, in one transaction, the consequence
  -- record, the order link, the event that announces the record, and the settled inbox row.
  pub execute-NothingOrAll :
      (db : Db Business) (p : Permits) (n : N)
      → NothingOrAll db (execute env claim (p, (at_rest db, n)))
  unfolding execute
  execute-NothingOrAll db p n =
      with_order-cases db (parse_placed_order env.number_of claim.payload) claim.tenant_id p n refl
        refl
