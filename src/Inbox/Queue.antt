-- ===== src/Inbox/Queue.antt =====
-- The rows of `baobab.event_inbox` and `PostgresInboxQueue` (modules/inbox/postgres_queue.py).
-- `now` is the database's time. `id` is the primary key.
use baobab_erp.Common.{
  ℕ, zero, suc, ◌+◌, ◌-◌, String, string_eq, nat_eq, option_eq, Bool, true, false, not, ◌&&◌, ◌||◌,
  Option, none, some, List, [], ◌∷◌, ◌==◌, ltb, leb, count, update_where, Result, ok, err,
  if◌then◌else◌,
}
use baobab_erp.Json.{Value}
use baobab_erp.Inbox.Policy.{Ending, processed, retry, blocked, dead_letter, microseconds}

-- `retrying`, `stuck`, `done` and `dead` are the texts 'retry', 'blocked', 'processed' and
-- 'dead_letter'.
pub data Status : Type 0 where
  received processing retrying stuck done failed dead : Status

pub record Row : Type 0 where
  pub id : ℕ
  pub event_id : String
  pub source : String
  pub event_type : String
  pub is_cloudevent : Bool
  pub tenant_id : Option String
  pub payload : Value
  pub correlation_id : Option String
  pub status : Status
  pub attempts : ℕ
  pub next_attempt_at : ℕ
  pub claimed_by : Option String
  pub lease_expires_at : Option ℕ
  pub outcome_code : Option String
  pub last_error : Option String
  pub received_at : ℕ
  pub processed_at : Option ℕ

abbrev pub Table : Type 0
Table = List Row

pub record Claim : Type 0 where
  pub row_id : ℕ
  pub event_id : String
  pub event_type : String
  pub tenant_id : Option String
  pub payload : Value
  pub attempts : ℕ
  pub received_at : ℕ
  pub correlation_id : Option String
  pub worker_id : String

pub data QueueError : Type 0 where
  lease_lost not_a_release : QueueError

abbrev pub is_processing : Status → Bool
is_processing processing = true
is_processing _ = false

-- `status IN ('received', 'retry', 'blocked')`
abbrev pub is_idle : Status → Bool
is_idle received = true
is_idle retrying = true
is_idle stuck = true
is_idle _ = false

-- `lease_expires_at <= now()`, which a null is not
abbrev pub has_expired : ℕ → Option ℕ → Bool
has_expired now none = false
has_expired now (some at) = leb at now

unfoldable pub is_claimable : ℕ → String → Row → Bool
is_claimable now event_type r =
    r.is_cloudevent
    && r.event_type == event_type
    && ((is_idle r.status && leb r.next_attempt_at now)
        || (is_processing r.status && has_expired now r.lease_expires_at))

-- `FOR UPDATE SKIP LOCKED`: the ids that other transactions hold
abbrev pub is_locked : List ℕ → ℕ → Bool
is_locked [] id = false
is_locked (l ∷ ls) id = l == id || is_locked ls id

-- `ORDER BY next_attempt_at, id LIMIT 1`
abbrev pub comes_before : Row → Row → Bool
comes_before x r =
    ltb x.next_attempt_at r.next_attempt_at
    || (x.next_attempt_at == r.next_attempt_at && ltb x.id r.id)

abbrev pub first_of_two : Row → Option Row → Row
first_of_two r none = r
first_of_two r (some x) = if comes_before x r then x else r

unfoldable pub next_due : ℕ → String → List ℕ → Table → Option Row
next_due now event_type locked [] = none
next_due now event_type locked (r ∷ rs) =
    let rest = next_due now event_type locked rs in
    if is_claimable now event_type r && not (is_locked locked r.id)
    then some (first_of_two r rest)
    else rest

abbrev pub with_id : ℕ → Row → Bool
with_id id r = r.id == id

unfoldable pub take_lease : ℕ → String → ℕ → Row → Row
take_lease now worker_id lease_seconds r = record r {
  status = processing;
  claimed_by = some worker_id;
  attempts = r.attempts + 1;
  lease_expires_at = some (now + microseconds lease_seconds);
}

abbrev pub claim_of : String → Row → Claim
claim_of worker_id r = record {
  row_id = r.id;
  event_id = r.event_id;
  event_type = r.event_type;
  tenant_id = r.tenant_id;
  payload = r.payload;
  attempts = r.attempts;
  received_at = r.received_at;
  correlation_id = r.correlation_id;
  worker_id = worker_id;
}

abbrev pub claim_row : ℕ → String → ℕ → Table → Option Row → Table × Option Claim
claim_row now worker_id lease_seconds t none = (t, none)
claim_row now worker_id lease_seconds t (some r) = (
  update_where (with_id r.id) (take_lease now worker_id lease_seconds) t,
  some (claim_of worker_id (take_lease now worker_id lease_seconds r)),
)

unfoldable pub claim : ℕ → String → List ℕ → String → ℕ → Table → Table × Option Claim
claim now event_type locked worker_id lease_seconds t =
    claim_row now worker_id lease_seconds t (next_due now event_type locked t)

-- the fence: the row is still `processing` under the same worker and the same attempt
unfoldable pub is_held : Claim → Row → Bool
is_held c r =
    r.id == c.row_id
    && is_processing r.status
    && r.claimed_by == some c.worker_id
    && r.attempts == c.attempts

abbrev pub status_of : Ending → Status
status_of processed = done
status_of retry = retrying
status_of blocked = stuck
status_of dead_letter = dead

pub record Settlement : Type 0 where
  pub ending : Ending
  pub outcome_code : String
  pub error : Option String
  pub next_attempt : Option ℕ
  pub refund_attempt : Bool

abbrev pub or_else : Option ℕ → ℕ → ℕ
or_else none n = n
or_else (some m) n = m

abbrev pub stamp_processed : ℕ → Ending → Option ℕ → Option ℕ
stamp_processed now processed old = some now
stamp_processed now _ old = old

unfoldable pub settle_row : ℕ → Settlement → Row → Row
settle_row now s r = record r {
  status = status_of s.ending;
  outcome_code = some s.outcome_code;
  last_error = s.error;
  next_attempt_at = or_else s.next_attempt r.next_attempt_at;
  attempts = r.attempts - (if s.refund_attempt then 1 else 0);
  claimed_by = none;
  lease_expires_at = none;
  processed_at = stamp_processed now s.ending r.processed_at;
}

-- `_settle`: the error leaves the table alone
unfoldable pub settle_claim : ℕ → Claim → Settlement → Table → Result QueueError Table
settle_claim now c s t =
    if count (is_held c) t == 1
    then ok (update_where (is_held c) (settle_row now s) t)
    else err lease_lost

-- `processed`
unfoldable pub mark_processed : ℕ → Claim → String → Table → Result QueueError Table
unfolding settle_claim
mark_processed now c outcome_code t =
    settle_claim now c
      (record {
        ending = processed;
        outcome_code = outcome_code;
        error = none;
        next_attempt = none;
        refund_attempt = false;
      })
      t

-- `error[:500]`
unfoldable pub clip : ℕ → String → String
clip zero s = String.[]
clip (suc n) String.[] = String.[]
clip (suc n) (String.◌∷◌ c s) = String.◌∷◌ c (clip n s)

abbrev is_release : Ending → Bool
is_release processed = false
is_release _ = true

unfoldable pub release :
    ℕ → Claim → Ending → String → String → Option ℕ → Bool → Table → Result QueueError Table
unfolding settle_claim clip
release now c status outcome_code error next_attempt_at refund_attempt t =
    if is_release status
    then settle_claim now c
        (record {
          ending = status;
          outcome_code = outcome_code;
          error = some (clip 500 error);
          next_attempt = next_attempt_at;
          refund_attempt = refund_attempt;
        })
        t
    else err not_a_release

abbrev pub status_number : Status → ℕ
status_number received = 0
status_number processing = 1
status_number retrying = 2
status_number stuck = 3
status_number done = 4
status_number failed = 5
status_number dead = 6

-- `counts`: the rows of one event type in each status
unfoldable pub counts : String → Status → Table → ℕ
counts event_type status = count (λ r.
    r.is_cloudevent && r.event_type == event_type && status_number r.status == status_number status)
