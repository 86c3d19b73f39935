-- ===== src/Inbox/Attempt.antt =====
-- One attempt at a claimed row and its settlement (`settle` of modules/inbox/execution_support.py).
-- A session has the committed database and the open transaction's view of it; the database is the
-- inbox and whatever else the executor writes.
use baobab_erp.Common.{
  ℕ, ◌+◌, String, string_eq, Bool, true, false, ◌&&◌, Option, none, some, List, ◌==◌, any, Result,
  ok, err, if◌then◌else◌,
}
use baobab_erp.Inbox.Policy.{
  Ending, processed, retry, Outcome, outcome, failure_outcome, microseconds,
}
use baobab_erp.Inbox.Queue.{
  Table, Claim, QueueError, lease_lost, not_a_release, mark_processed, release,
}

pub record Db (B : Type 0) : Type 0 where
  pub inbox : Table
  pub business : B

pub record Session (B : Type 0) : Type 0 where
  pub committed : Db B
  pub working : Db B

-- how an attempt can fail: `Stop` with its outcome, LeaseLostError, or any other exception
pub data Raised : Type 0 where
  stop : Outcome → Raised
  lost : Raised
  other : String → Raised

-- the readings of `now()`, in the order in which `settle` may take them, and the database's time
pub record Times : Type 0 where
  pub judged : ℕ
  pub scheduled : ℕ
  pub judged_again : ℕ
  pub scheduled_again : ℕ
  pub database : ℕ

abbrev pub delayed : ℕ → Option ℕ → Option ℕ
delayed now none = none
delayed now (some seconds) = some (now + microseconds seconds)

abbrev pub lease_lost_outcome : Outcome
lease_lost_outcome = outcome retry "LEASE_LOST" "another worker holds the row now"

abbrev is_processed : Ending → Bool
is_processed processed = true
is_processed _ = false

-- `queue.processed` or `queue.release`, by how the attempt ended
unfoldable pub write_outcome : Times → Claim → Outcome → Table → Result QueueError Table
write_outcome times c o t =
    if is_processed o.status
    then mark_processed times.database c o.code t
    else release times.database c o.status o.code o.detail (delayed times.scheduled o.delay_seconds)
        o.refund_attempt t

abbrev pub settled_already : List String → Outcome → Bool
settled_already codes o = is_processed o.status && any (λ code. code == o.code) codes

module _ {B : Type 0} where
  abbrev pub commit : Session B → Session B
  commit s = record { committed = s.working; working = s.working }

  abbrev pub rollback : Session B → Session B
  rollback s = record { committed = s.committed; working = s.committed }

  abbrev pub with_inbox : Session B → Table → Session B
  with_inbox s t = record s { working = record { inbox = t; business = s.working.business } }

  -- the `except Exception` branch, whose own failures leave the row to its lease
  abbrev finish_release : Outcome → Session B → Result QueueError Table → Outcome × Session B
  finish_release o s (ok t) = (o, commit (with_inbox s t))
  finish_release o s (err _) = (o, rollback s)

  unfoldable pub unexpected : Times → Claim → String → Session B → Outcome × Session B
  unexpected times c name s =
      let o =
        failure_outcome (outcome retry "UNEXPECTED_ERROR" name) c.attempts c.received_at
          times.judged_again in
      finish_release o (rollback s) (
        release times.database c o.status o.code o.detail
          (delayed times.scheduled_again o.delay_seconds) false s.committed.inbox)

  abbrev finish_outcome :
      Times → Claim → Outcome → Session B → Result QueueError Table → Outcome × Session B
  finish_outcome times c o s (ok t) = (o, commit (with_inbox s t))
  finish_outcome times c o s (err lease_lost) = (lease_lost_outcome, rollback s)
  finish_outcome times c o s (err not_a_release) = unexpected times c "ValueError" s

  unfoldable pub conclude : List String → Times → Claim → Outcome → Session B → Outcome × Session B
  conclude settled_in_attempt times c o s =
      if settled_already settled_in_attempt o
      then (o, s)
      else let final = failure_outcome o c.attempts c.received_at times.judged in
        finish_outcome times c final (rollback s) (write_outcome times c final s.committed.inbox)

  abbrev after_attempt :
      List String → Times → Claim → Result Raised Outcome → Session B → Outcome × Session B
  after_attempt codes times c (ok o) s = conclude codes times c o s
  after_attempt codes times c (err (stop o)) s = conclude codes times c o s
  after_attempt codes times c (err lost) s = (lease_lost_outcome, rollback s)
  after_attempt codes times c (err (other name)) s = unexpected times c name s

  -- `settle`; `execute` is the attempt, with its effects on the session
  unfoldable pub settle :
      List String
      → Times
      → Claim
      → (Session B → Result Raised Outcome × Session B)
      → Session B
      → Outcome × Session B
  settle settled_in_attempt times c execute s =
      let (result, after) = execute s in after_attempt settled_in_attempt times c result after
