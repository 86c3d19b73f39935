-- ===== src/Execution/Statements.antt =====
-- The statements of the transaction of an executed order (Execution/Attempt.antt), where they succeed.
use baobab_erp.Common.{
  ℕ, ◌≡◌, refl, sym, ap, ◌∙◌, String, string_eq, pair_eq, Bool, some, List, arith, Result, ok, err,
  ok_inj, bind-eq-ok, or_raise-eq-ok,
}
use baobab_erp.Events.{CloudEvent}
use baobab_erp.Inbox
use baobab_erp.Inbox.{
  processed, Outcome, outcome, Claim, QueueError, mark_processed, Db, Session, with_inbox, commit,
  rollback, Raised, other, lost,
}
use baobab_erp.Orders
use baobab_erp.Orders.{
  PlacedOrder, PayloadError, payload_error, OrderConsequence, parse_placed_order, open_order,
}
use baobab_erp.Outbox
use baobab_erp.Outbox.{record_event}
use baobab_erp.Execution.World.{Business, ExecutionRow}
use baobab_erp.Execution.Announcement.{consequence_changed_event}
use baobab_erp.Execution.Env.{Env}
use baobab_erp.Execution.Rows.{
  executed_code, insert_execution, open_record, link_order, announce, settle_row, then_tx, stored,
  on_business, settled, Tx, with_business, or_other, or_lost, opening, opening_in, linking_in,
  announcing_in, execution_row, write_rows,
}

-- nothing is open: the transaction sees what is committed
abbrev pub at_rest : {B : Type 0} → Db B → Session B
at_rest db = record { committed = db; working = db }

or_other-ok :
    {E A : Type 0} (name : String) (r : Result E A) {a : A} → or_other name r ≡ ok a → r ≡ ok a
or_other-ok name (ok a) h = ground (arith, h)
or_other-ok name (err e) h = absurd (cc h)

or_lost-ok : {A : Type 0} (r : Result QueueError A) {a : A} → or_lost r ≡ ok a → r ≡ ok a
or_lost-ok (ok a) h = ground (arith, h)
or_lost-ok (err e) h = absurd (cc h)

-- Inversion of statements that succeeded.
pub then_tx-ok :
    {A B : Type 0} (r : Result Raised A × Session Business) (next : A → Tx B) {b : B}
    {t : Session Business}
    → then_tx r next ≡ (ok b, t)
    → (a : A) × ((s : Session Business) × (r ≡ (ok a, s)) × (next a s ≡ (ok b, t)))
then_tx-ok (ok a, s) next h = (a, (s, refl, h))
then_tx-ok (err e, s) next h = absurd (cc (ap (λ x. x.0) h))

stored-ok :
    {A : Type 0} (s t : Session Business) (made : Result Raised (A × Business)) {a : A}
    → stored s made ≡ (ok a, t)
    → (b : Business) × (made ≡ ok (a, b)) × (t ≡ with_business s b)
stored-ok s t (ok (a, b)) h =
    (b, ap (λ x. ok (x, b)) (ok_inj (ap (λ x. x.0) h)), sym (ap (λ x. x.1) h))
stored-ok s t (err e) h = absurd (cc (ap (λ x. x.0) h))

on_business-ok :
    {A : Type 0} (statement : Business → Result Raised (A × Business)) (s t : Session Business)
    {a : A}
    → on_business statement s ≡ (ok a, t)
    → (b : Business) × (statement s.working.business ≡ ok (a, b)) × (t ≡ with_business s b)
on_business-ok statement s t h = stored-ok s t (statement s.working.business) h

settled-ok :
    (s t : Session Business) (made : Result Raised Inbox.Table)
    → settled s made ≡ (ok tt, t)
    → (rows : Inbox.Table) × (made ≡ ok rows) × (t ≡ with_inbox s rows)
settled-ok s t (ok rows) h = (rows, refl, sym (ap (λ x. x.1) h))
settled-ok s t (err e) h = absurd (cc (ap (λ x. x.0) h))

module _ {N : Type 0} (env : Env N) (claim : Claim) where
  -- the rows of an executed order: the consequence record, the order link, the event that announces
  -- the record, and the settled inbox row
  pub record AllWritten (tenant_id : String) (order : PlacedOrder) (native_id : ℕ) (adopted : Bool)
      (before : Db Business) (b : Business) (rows : Inbox.Table) : Type 0 where
    pub entry : OrderConsequence
    pub opened : opening env claim tenant_id order before.business ≡ ok (some entry, b.consequences)
    pub linked :
        insert_execution
          (execution_row env claim tenant_id order entry native_id adopted)
          before.business.executions
        ≡ ok b.executions
    pub event : CloudEvent
    pub announces :
        consequence_changed_event env.texts env.fresh_id entry claim.correlation_id ≡ ok event
    pub announced : record_event env.database event before.business.outbox ≡ ok b.outbox
    pub settled : mark_processed env.database claim (executed_code adopted) before.inbox ≡ ok rows
    pub same_tenants : b.tenants ≡ before.business.tenants
    pub same_masters : b.masters ≡ before.business.masters

  pub open_record-ok :
      (tenant_id : String) (order : PlacedOrder) (s t : Session Business) {entry : OrderConsequence}
      → open_record env claim tenant_id order s ≡ (ok entry, t)
      → (table : Orders.Table) × (opening env claim tenant_id order s.working.business
          ≡ ok (some entry, table))
        × (t ≡ with_business s (record (s.working.business) { consequences = table }))
  unfolding open_record
  open_record-ok tenant_id order s t h =
      let (b, made, after) = on_business-ok (opening_in env claim tenant_id order) s t h in
      let (opened, h1, h2) =
        bind-eq-ok
          (or_other "UniqueViolation" (opening env claim tenant_id order s.working.business)) _
          made in
      let (entry, is_there, h3) = or_raise-eq-ok opened.0 (other "AttributeError") _ h2 in
      let pair = ok_inj h3 in
      (
        opened.1,
        or_other-ok "UniqueViolation" _ h1
            ∙ ap (λ o. ok (o, opened.1)) (is_there ∙ ap (λ x. some x.0) pair),
        after ∙ ap (λ x. with_business s x.1) (sym pair),
      )

  pub link_order-ok :
      (row : ExecutionRow) (s t : Session Business)
      → link_order env claim row s ≡ (ok tt, t)
      → (executions : List ExecutionRow) × (insert_execution row s.working.business.executions
          ≡ ok executions)
        × (t ≡ with_business s (record (s.working.business) { executions = executions }))
  unfolding link_order
  link_order-ok row s t h =
      let (b, made, after) = on_business-ok (linking_in row) s t h in
      let (executions, h1, h2) =
        bind-eq-ok (or_other "UniqueViolation" (insert_execution row s.working.business.executions))
          _ made in
      (
        executions,
        or_other-ok "UniqueViolation" _ h1,
        after ∙ ap (λ x. with_business s x.1) (sym (ok_inj h2)),
      )

  pub announce-ok :
      (entry : OrderConsequence) (s t : Session Business)
      → announce env claim entry s ≡ (ok tt, t)
      → (event : CloudEvent) × (consequence_changed_event env.texts env.fresh_id entry
            claim.correlation_id
          ≡ ok event)
        × ((events : Outbox.Table) × (record_event env.database event s.working.business.outbox
              ≡ ok events)
            × (t ≡ with_business s (record (s.working.business) { outbox = events })))
  unfolding announce
  announce-ok entry s t h =
      let (b, made, after) = on_business-ok (announcing_in env claim entry) s t h in
      let (event, h1, h2) =
        bind-eq-ok
          (or_other "EnvelopeError"
            (consequence_changed_event env.texts env.fresh_id entry claim.correlation_id))
          _ made in
      let (events, h3, h4) =
        bind-eq-ok
          (or_other "EnvelopeError" (record_event env.database event s.working.business.outbox)) _
          h2 in
      (
        event,
        or_other-ok "EnvelopeError" _ h1,
        (
          events,
          or_other-ok "EnvelopeError" _ h3,
          after ∙ ap (λ x. with_business s x.1) (sym (ok_inj h4)),
        ),
      )

  pub settle_row-ok :
      (adopted : Bool) (s t : Session Business)
      → settle_row env claim adopted s ≡ (ok tt, t)
      → (rows : Inbox.Table) × (mark_processed env.database claim
            (executed_code adopted)
            s.working.inbox
          ≡ ok rows)
        × (t ≡ with_inbox s rows)
  unfolding settle_row
  settle_row-ok adopted s t h =
      let (rows, made, after) =
        settled-ok s t
          (or_lost (mark_processed env.database claim (executed_code adopted) s.working.inbox)) h in
      (rows, or_lost-ok _ made, after)

-- No statement commits.
stored-committed :
    {A : Type 0} (s : Session Business) (made : Result Raised (A × Business))
    → (stored s made).1.committed ≡ s.committed
stored-committed s (ok (a, b)) = refl
stored-committed s (err e) = refl

settled-committed :
    (s : Session Business) (made : Result Raised Inbox.Table)
    → (settled s made).1.committed ≡ s.committed
settled-committed s (ok rows) = refl
settled-committed s (err e) = refl

then_tx-committed :
    {A B : Type 0} (c : Db Business) (r : Result Raised A × Session Business) (next : A → Tx B)
    → r.1.committed ≡ c
    → ((a : A) (s : Session Business) → s.committed ≡ c → (next a s).1.committed ≡ c)
    → (then_tx r next).1.committed ≡ c
then_tx-committed c (ok a, s) next h k = k a s h
then_tx-committed c (err e, s) next h k = h

module _ {N : Type 0} (env : Env N) (claim : Claim) (tenant_id : String) (order : PlacedOrder)
    (native_id : ℕ) (adopted : Bool) where
  -- The transaction commits nothing before its end.
  pub write_rows-committed :
      (s : Session Business)
      → (write_rows env claim tenant_id order native_id adopted s).1.committed ≡ s.committed
  unfolding write_rows open_record link_order announce settle_row
  write_rows-committed s =
      then_tx-committed s.committed (on_business (opening_in env claim tenant_id order) s) _
        (stored-committed s (opening_in env claim tenant_id order s.working.business))
        λ entry s1 e1.
          let row = execution_row env claim tenant_id order entry native_id adopted in
          then_tx-committed s.committed (on_business (linking_in row) s1) _
            (stored-committed s1 (linking_in row s1.working.business) ∙ e1)
            λ _ s2 e2.
              then_tx-committed s.committed (on_business (announcing_in env claim entry) s2) _
                (stored-committed s2 (announcing_in env claim entry s2.working.business) ∙ e2)
                λ _ s3 e3.
                  settled-committed s3 (
                    or_lost
                      (mark_processed env.database claim (executed_code adopted) s3.working.inbox))
                  ∙ e3

  -- A transaction that succeeds has written all its rows.
  pub write_rows-AllWritten :
      (db : Db Business) (t : Session Business)
      → write_rows env claim tenant_id order native_id adopted (at_rest db) ≡ (ok tt, t)
      → AllWritten env claim tenant_id order native_id adopted db t.working.business t.working.inbox
  unfolding write_rows
  write_rows-AllWritten db t h =
      let s0 : Session Business = at_rest db in
      let (entry, (s1, h1, r1)) = then_tx-ok (open_record env claim tenant_id order s0) _ h in
      let (table, opened, e1) = open_record-ok env claim tenant_id order s0 s1 h1 in
      let row = execution_row env claim tenant_id order entry native_id adopted in
      let (_, (s2, h2, r2)) = then_tx-ok (link_order env claim row s1) _ r1 in
      let (executions, linked, e2) = link_order-ok env claim row s1 s2 h2 in
      let (_, (s3, h3, h4)) = then_tx-ok (announce env claim entry s2) _ r2 in
      let (event, announces, (events, announced, e3)) = announce-ok env claim entry s2 s3 h3 in
      let (rows, settled, e4) = settle_row-ok env claim adopted s3 t h4 in
      let then_linked =
        e2
        ∙ ap
            (λ (x : Session Business).
              with_business x (record (x.working.business) { executions = executions }))
            e1 in
      let then_announced =
        e3
        ∙ ap
            (λ (x : Session Business).
              with_business x (record (x.working.business) { outbox = events }))
            then_linked in
      let last = e4 ∙ ap (λ (x : Session Business). with_inbox x rows) then_announced in
      record {
        entry = entry;
        opened =
            opened
            ∙ ap (λ (x : Session Business). ok (some entry, x.working.business.consequences))
                (sym last);
        linked =
            ap (λ (x : Session Business). insert_execution row x.working.business.executions)
              (sym e1)
            ∙ linked
            ∙ ap (λ (x : Session Business). ok x.working.business.executions) (sym last);
        event = event;
        announces = announces;
        announced =
            ap (λ (x : Session Business). record_event env.database event x.working.business.outbox)
              (sym then_linked)
            ∙ announced
            ∙ ap (λ (x : Session Business). ok x.working.business.outbox) (sym last);
        settled =
            ap
              (λ (x : Session Business).
                mark_processed env.database claim (executed_code adopted) x.working.inbox)
              (sym then_announced)
            ∙ settled
            ∙ ap (λ (x : Session Business). ok x.working.inbox) (sym last);
        same_tenants = ap (λ (x : Session Business). x.working.business.tenants) last;
        same_masters = ap (λ (x : Session Business). x.working.business.masters) last;
      }
