-- ===== src/Execution/Rows.antt =====
-- The transaction of an executed order (`_execute` of modules/order_to_cash/inbox_execution.py).
use baobab_erp.Common.{
  ℕ, String, string_eq, pair_eq, nat_eq, Bool, true, false, Option, List, [], ◌∷◌, ◌++◌, is_some,
  find_key, Result, ok, err, ◌>>=◌, or_raise, if◌then◌else◌,
}
use baobab_erp.Inbox.{
  Ending, processed, retry, Outcome, outcome, contention_delay_seconds, Claim, QueueError,
  lease_lost, mark_processed, Session, commit, rollback, with_inbox, Raised, stop, lost, other,
  Times, settle,
}
use baobab_erp.Inbox
use baobab_erp.Orders
use baobab_erp.Orders.{
  OrderConsequence, PlacedOrder, PayloadError, payload_error, Number, parse_placed_order,
  open_order,
}
use baobab_erp.Outbox.{record_event}
use baobab_erp.Execution.World.{Business, ExecutionRow, Failure, raised}
use baobab_erp.Execution.Announcement.{consequence_changed_event}
use baobab_erp.Execution.Env.{Env}

abbrev pub execution_key : ExecutionRow → String × String
execution_key r = (r.tenant_id, r.commerce_order_id)

-- `INSERT INTO baobab.order_execution`
unfoldable pub insert_execution :
    ExecutionRow → List ExecutionRow → Result Failure (List ExecutionRow)
insert_execution r t =
    if is_some (find_key execution_key (execution_key r) t)
    then err (raised "UniqueViolation")
    else ok (t ++ r ∷ [])

abbrev pub executed_code : Bool → String
executed_code true = "ADOPTED_NATIVE_ORDER"
executed_code false = "EXECUTED"

-- an exception of a store, with the name of its type
abbrev pub or_other : {E A : Type 0} → String → Result E A → Result Raised A
or_other name (ok a) = ok a
or_other name (err e) = err (other name)

-- LeaseLostError
abbrev pub or_lost : {A : Type 0} → Result QueueError A → Result Raised A
or_lost (ok a) = ok a
or_lost (err e) = err lost

abbrev pub with_business : Session Business → Business → Session Business
with_business s b = record s { working = record { inbox = s.working.inbox; business = b } }

-- statements on the open transaction: one that fails leaves those before it there
abbrev pub Tx : Type 0 → Type 0
Tx A = Session Business → Result Raised A × Session Business

module _ {A B : Type 0} where
  abbrev pub then_tx :
      Result Raised A × Session Business → (A → Tx B) → Result Raised B × Session Business
  then_tx (ok a, s) next = next a s
  then_tx (err e, s) next = (err e, s)

module _ {A : Type 0} where
  abbrev pub stored :
      Session Business → Result Raised (A × Business) → Result Raised A × Session Business
  stored s (ok (a, b)) = (ok a, with_business s b)
  stored s (err e) = (err e, s)

  abbrev pub on_business : (Business → Result Raised (A × Business)) → Tx A
  on_business statement s = stored s (statement s.working.business)

abbrev pub linking_in : ExecutionRow → Business → Result Raised (Unit {0} × Business)
linking_in row b = do
  executions ← or_other "UniqueViolation" (insert_execution row b.executions)
  ok (tt, record b { executions = executions })

abbrev pub settled :
    Session Business → Result Raised Inbox.Table → Result Raised (Unit {0}) × Session Business
settled s (ok rows) = (ok tt, with_inbox s rows)
settled s (err e) = (err e, s)

module _ {N : Type 0} (env : Env N) (claim : Claim) where
  abbrev pub execution_row : String → PlacedOrder → OrderConsequence → ℕ → Bool → ExecutionRow
  execution_row tenant_id order entry native_id adopted = record {
    tenant_id = tenant_id;
    commerce_order_id = order.commerce_order_id;
    legal_entity_id = order.legal_entity_id;
    order_version = order.order_version;
    erp_order_id = entry.erp_order_id;
    native_id = native_id;
    source_event_id = claim.event_id;
    adopted = adopted;
  }

  -- `open_order`, of the order that is executed
  abbrev pub opening :
      String
      → PlacedOrder
      → Business
      → Result Orders.StoreError (Option OrderConsequence × Orders.Table)
  opening tenant_id order b =
      open_order tenant_id order.legal_entity_id order.commerce_order_id order.order_version
        (env.erp_order_id tenant_id order.commerce_order_id) env.now b.consequences

  abbrev pub opening_in :
      String → PlacedOrder → Business → Result Raised (OrderConsequence × Business)
  opening_in tenant_id order b = do
    opened ← or_other "UniqueViolation" (opening tenant_id order b)
    entry ← or_raise opened.0 (other "AttributeError")
    ok (entry, record b { consequences = opened.1 })

  abbrev pub announcing_in : OrderConsequence → Business → Result Raised (Unit {0} × Business)
  announcing_in entry b = do
    event ←
        or_other "EnvelopeError"
          (consequence_changed_event env.texts env.fresh_id entry claim.correlation_id)
    events ← or_other "EnvelopeError" (record_event env.database event b.outbox)
    ok (tt, record b { outbox = events })

  -- `consequences.open_order`, read back
  unfoldable pub open_record : String → PlacedOrder → Tx OrderConsequence
  open_record tenant_id order = on_business (opening_in tenant_id order)

  -- `INSERT INTO baobab.order_execution`
  unfoldable pub link_order : ExecutionRow → Tx (Unit {0})
  link_order row = on_business (linking_in row)

  -- the event of the record, on the outbox
  unfoldable pub announce : OrderConsequence → Tx (Unit {0})
  announce entry = on_business (announcing_in entry)

  -- `queue.processed`
  unfoldable pub settle_row : Bool → Tx (Unit {0})
  settle_row adopted s =
      settled s
        (or_lost (mark_processed env.database claim (executed_code adopted) s.working.inbox))

  -- the statements of the one transaction
  unfoldable pub write_rows : String → PlacedOrder → ℕ → Bool → Tx (Unit {0})
  unfolding open_record link_order announce settle_row
  write_rows tenant_id order native_id adopted s =
      then_tx (open_record tenant_id order s) λ entry s1.
        then_tx (link_order (execution_row tenant_id order entry native_id adopted) s1)
          λ _ s2. then_tx (announce entry s2) λ _. settle_row adopted
