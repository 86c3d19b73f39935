-- ===== src/Outbox/Dispatch.antt =====
-- `dispatch_pending` of modules/outbox/service.py. What the loop cannot choose, the transport's
-- answer and the clocks' readings, comes as one `Reaction` for each record that it takes up.
use baobab_erp.Common.{
  ℕ, ◌+◌, String, Bool, false, ◌&&◌, ◌||◌, Option, none, some, List, [], ◌∷◌, ltb, leb, Result, ok,
  ◌>>=◌, if◌then◌else◌,
}
use baobab_erp.Events.{EnvelopeError}
use baobab_erp.Outbox.Policy.{RetryPolicy, DispatchSummary, backoff_seconds}
use baobab_erp.Outbox.Store.{
  Row, Table, Selection, pending_records, mark_delivered, mark_retry, mark_dead_letter,
}

-- how `transport.deliver` ended: it returned, raised PermanentDeliveryError, or raised another error
pub data Delivery : Type 0 where
  accepted : Delivery
  refused : String → Delivery
  failed : String → Delivery

pub record Reaction : Type 0 where
  pub delivery : Delivery
  pub before : ℕ  -- `now()` ahead of the attempt
  pub after : ℕ  -- `now()` after a failure
  pub stamp : ℕ  -- the database's time when the record is marked

pub record Run : Type 0 where
  pub table : Table
  pub summary : DispatchSummary
  pub sent : List String  -- the records handed to the transport, latest first

abbrev pub no_summary : DispatchSummary
no_summary = record { delivered = 0; retried = 0; dead_lettered = 0 }

-- `horizon is not None and now() - created_at >= horizon`
abbrev pub horizon_passed : Option ℕ → ℕ → ℕ → Bool
horizon_passed none created now = false
horizon_passed (some horizon) created now = leb (created + horizon) now

abbrev pub attempts_spent : Option ℕ → ℕ → Bool
attempts_spent none attempts = false
attempts_spent (some most) attempts = leb most attempts

-- a retry that became due only after the horizon is not attempted
unfoldable pub is_too_late : RetryPolicy → Reaction → Row → Bool
is_too_late policy x r = ltb 0 r.attempts && horizon_passed policy.horizon r.created_at x.before

unfoldable pub is_exhausted : RetryPolicy → Reaction → Row → Bool
is_exhausted policy x r =
    attempts_spent policy.max_attempts (r.attempts + 1)
    || horizon_passed policy.horizon r.created_at x.after

abbrev pub horizon_error : String
horizon_error = "the retry horizon elapsed before the next attempt"

abbrev count_delivered : DispatchSummary → DispatchSummary
count_delivered s = record s { delivered = s.delivered + 1 }

abbrev count_retried : DispatchSummary → DispatchSummary
count_retried s = record s { retried = s.retried + 1 }

abbrev count_dead : DispatchSummary → DispatchSummary
count_dead s = record s { dead_lettered = s.dead_lettered + 1 }

-- the `except Exception` branch
unfoldable pub on_failure : RetryPolicy → Reaction → Row → String → Run → Run
unfolding mark_retry mark_dead_letter
on_failure policy x r error run =
    if is_exhausted policy x r
    then record run {
      table = mark_dead_letter x.stamp r.name (r.attempts + 1) error run.table;
      summary = count_dead run.summary;
    }
    else record run {
      table =
          mark_retry x.stamp r.name (r.attempts + 1) error (backoff_seconds (r.attempts + 1))
            run.table;
      summary = count_retried run.summary;
    }

-- the `try` statement
unfoldable pub on_delivery : Delivery → RetryPolicy → Reaction → Row → Run → Run
unfolding on_failure mark_delivered mark_dead_letter
on_delivery accepted policy x r run = record run {
  table = mark_delivered x.stamp r.name run.table;
  summary = count_delivered run.summary;
}
on_delivery (refused error) policy x r run = record run {
  table = mark_dead_letter x.stamp r.name (r.attempts + 1) error run.table;
  summary = count_dead run.summary;
}
on_delivery (failed error) policy x r run = on_failure policy x r error run

unfoldable pub dispatch_record : RetryPolicy → Reaction → Row → Run → Run
unfolding mark_dead_letter
dispatch_record policy x r run =
    if is_too_late policy x r
    then record run {
      table = mark_dead_letter x.stamp r.name r.attempts horizon_error run.table;
      summary = count_dead run.summary;
    }
    else on_delivery x.delivery policy x r (record run { sent = r.name ∷ run.sent })

-- the `for` loop; `react i` is the reaction to the i-th record
unfoldable pub dispatch_loop : RetryPolicy → (ℕ → Reaction) → ℕ → List Row → Run → Run
dispatch_loop policy react i [] run = run
dispatch_loop policy react i (r ∷ rs) run =
    dispatch_loop policy react (i + 1) rs (dispatch_record policy (react i) r run)

abbrev pub start : Table → Run
start t = record { table = t; summary = no_summary; sent = [] }

unfoldable pub dispatch_pending :
    ℕ → ℕ → Selection → RetryPolicy → (ℕ → Reaction) → Table → Result EnvelopeError Run
dispatch_pending now limit selection policy react t = do
  records ← pending_records now limit selection t
  ok (dispatch_loop policy react 0 records (start t))
