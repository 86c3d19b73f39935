-- ===== src/Outbox/Tests.antt =====
-- Runs of the dispatcher, and the claims about the outbox at a concrete table.
use baobab_erp.Common.{ℕ, string_eq, ◌≡◌, ◌≤◌, any, refl, true, false, none, some, [], ◌∷◌, All, ok}
use baobab_erp.Json.{obj, end}
use baobab_erp.Events.Tests.{sample_event, sample_valid}
use baobab_erp.Outbox.Policy.{default_policy, signed_policy, backoff_seconds}
use baobab_erp.Outbox.Store.{
  Row, Table, everything, retry, held, legacy, fresh_row, is_due, is_waiting, selects, due_rows,
  pending_records, read_records, named,
}
use baobab_erp.Outbox.Dispatch.{
  failed, Reaction, Run, is_too_late, is_exhausted, on_delivery, dispatch_record, dispatch_loop,
  dispatch_pending, start,
}
use baobab_erp.Outbox.Rows.{find, Unique}
use baobab_erp.Outbox.Refinement.{expected, find-dispatch_pending}
use baobab_erp.Outbox.Stats.{is_counted, count, oldest, stats}
use baobab_erp.Outbox.Passes.{no_pass, taken_up, left_out}
use baobab_erp.Outbox.Retries.{is_dead, eight_failures, HasAttempts, dispatch_pending-HasAttempts}
use baobab_erp.Outbox.Recording.{HasValidContent, pending_records-ok}

abbrev waiting_row : Row
waiting_row = fresh_row 0 sample_event

abbrev held_row : Row
held_row = record {
  name = "legacy";
  content = legacy (record {
    event_id = "legacy";
    event_type = "erp.payment.completed.v1";
    schema_version = "1.0";
    occurred_at = 0;
    source = "baobab-erp";
    correlation_id = "c";
    tenant_id = "tn_acme1";
    entity_id = "ZURI-KE";
    payload = obj end;
  });
  status = held;
  attempts = 0;
  last_error = none;
  next_attempt_at = none;
  delivered_at = none;
  dead_lettered_at = none;
  created_at = 0;
}

abbrev two_rows : Table
two_rows = held_row ∷ waiting_row ∷ []

two_rows-Unique : Unique two_rows
two_rows-Unique = (refl, (refl, tt))

-- every delivery fails, at instant 10
abbrev failing : ℕ → Reaction
failing i = record { delivery = failed "HTTP 503"; before = 10; after = 10; stamp = 10 }

abbrev one_failure : Run
one_failure = dispatch_loop default_policy failing 0 (waiting_row ∷ []) (start two_rows)

waiting_is_due : due_rows 10 50 everything two_rows ≡ waiting_row ∷ []
unfolding due_rows is_due selects
waiting_is_due = refl

two_rows_valid : All HasValidContent two_rows
two_rows_valid = (tt, (sample_valid, tt))

one_pass : dispatch_pending 10 50 everything default_policy failing two_rows ≡ ok one_failure
unfolding dispatch_pending
one_pass = rw (pending_records-ok 10 50 everything two_rows two_rows_valid, waiting_is_due)

-- the row is retried two seconds later, once counted
retried :
    find sample_event.id one_failure.table
    ≡ some (record waiting_row {
      status = retry;
      attempts = 1;
      last_error = some "HTTP 503";
      next_attempt_at = some 2_000_010;
    })
unfolding dispatch_loop dispatch_record is_too_late on_delivery is_exhausted backoff_seconds
retried = refl

find-dispatch_pending_example :
    find sample_event.id one_failure.table
    ≡ expected default_policy failing 0
        (due_rows 10 50 everything two_rows)
        sample_event.id
        (find sample_event.id two_rows)
find-dispatch_pending_example =
    find-dispatch_pending 10 50 everything default_policy failing two_rows sample_event.id
      two_rows-Unique one_pass

held_is_idle : is_due 10 everything held_row ≡ false
unfolding is_due
held_is_idle = refl

-- a retry of a signed event, 72 hours after it was recorded
abbrev late_row : Row
late_row = record waiting_row { status = retry; attempts = 3; next_attempt_at = some 5 }

-- a second later the retry is not due
idle_pass :
    dispatch_pending 1_000_010 50 everything default_policy failing one_failure.table
    ≡ ok (start one_failure.table)
unfolding dispatch_pending pending_records read_records due_rows is_due selects dispatch_loop
    dispatch_record is_too_late on_delivery is_exhausted backoff_seconds
idle_pass = refl

taken_first : any (named sample_event.id) (due_rows 10 50 everything two_rows) ≡ true
taken_first = rw waiting_is_due refl

idle_then : any (named sample_event.id) (due_rows 1_000_010 50 everything one_failure.table) ≡ false
unfolding due_rows is_due selects dispatch_loop dispatch_record is_too_late on_delivery is_exhausted
    backoff_seconds
idle_then = refl

eight_failures_example :
    (x : Row) × (find sample_event.id one_failure.table ≡ some x)
    × (1 ≤ 8)
    × (x.attempts ≡ 1)
    × (is_waiting x.status ≡ true)
    × (is_dead x.status ≡ false)
    × (x.next_attempt_at ≡ some 2_000_010)
eight_failures_example =
    eight_failures sample_event.id two_rows two_rows-Unique {k = 1} {last = 10} {r = waiting_row}
      refl refl refl
      (left_out (taken_up no_pass 10 50 everything failing one_pass taken_first tt) 1_000_010 50
        everything failing idle_pass idle_then)

early_is_on_time : is_too_late signed_policy (failing 0) late_row ≡ false
unfolding is_too_late
early_is_on_time = refl

dispatch_pending-HasAttempts_example : All (HasAttempts 8) one_failure.table
dispatch_pending-HasAttempts_example =
    dispatch_pending-HasAttempts 8 none 10 50 everything failing two_rows (refl, (refl, tt))
      one_pass

-- a legacy row, a new one and a retry
abbrev three_rows : Table
three_rows = held_row ∷ waiting_row ∷ late_row ∷ []

one_due :
    (stats 3 everything three_rows ≡ record {
      pending_rows = 1;
      retry_rows = 1;
      dead_letter_rows = 0;
      delivered_rows = 0;
      due = 1;
      oldest_undelivered_seconds = 0;
    })
unfolding stats is_counted count oldest selects
one_due = refl
