-- ===== src/Inbox/Receipt.antt =====
-- Receipt of an inbound event (modules/inbox/service.py and postgres_store.py). `hmac`, `loads` and
-- `instant` stand for Python's HMAC, JSON and date-time functions, and `as_uuid` for the database's
-- cast `::uuid`, from any spelling that it reads to the stored one; `serial` is the id that the
-- database gives a new row, and `now` its time.
use baobab_erp.Common.{
  ℕ, String, string_eq, Bool, true, not, ◌&&◌, Option, none, some, List, [], ◌∷◌, ◌++◌, ◌==◌, any,
  Result, ok, err, ◌>>=◌, ◌>>◌, raise_if, or_raise, if◌then◌else◌,
}
use baobab_erp.Json.{Value}
use baobab_erp.Security.{verify_signature}
use baobab_erp.Events.{CloudEvent, EnvelopeError, check_consumable, from_wire}
use baobab_erp.Inbox.Queue.{Row, Table, received}

-- `not_a_uuid` is the error of the database for a text that it does not cast
pub data ReceiptError : Type 0 where
  invalid_signature not_json not_a_uuid : ReceiptError
  envelope : EnvelopeError → ReceiptError

-- `(ce_source, event_id)` among the canonical rows, the deduplication key; the id is a cast one
abbrev pub is_event : String → String → Row → Bool
is_event source event_id r = r.is_cloudevent && r.source == source && r.event_id == event_id

-- the columns of the event, whose ids are cast ones
unfoldable pub received_row : ℕ → ℕ → CloudEvent → Row
received_row serial now e = record {
  id = serial;
  event_id = e.id;
  source = e.source;
  event_type = e.type;
  is_cloudevent = true;
  tenant_id = e.tenantid;
  payload = e.body;
  correlation_id = some e.correlationid;
  status = received;
  attempts = 0;
  next_attempt_at = now;
  claimed_by = none;
  lease_expires_at = none;
  outcome_code = none;
  last_error = none;
  received_at = now;
  processed_at = none;
}

abbrev pub cast_option :
    (String → Option String) → Option String → Result ReceiptError (Option String)
cast_option as_uuid none = ok none
cast_option as_uuid (some text) = do uuid ← or_raise (as_uuid text) not_a_uuid; ok (some uuid)

module _ (as_uuid : String → Option String) where
  -- `%s::uuid` on the three ids of an event
  unfoldable pub cast_ids : CloudEvent → Result ReceiptError CloudEvent
  cast_ids e = do
    id ← or_raise (as_uuid e.id) not_a_uuid
    correlation ← or_raise (as_uuid e.correlationid) not_a_uuid
    causation ← cast_option as_uuid e.causationid
    ok (record e { id = id; correlationid = correlation; causationid = causation })

  unfoldable pub exists : String → String → Table → Result ReceiptError Bool
  exists source event_id t = do
    uuid ← or_raise (as_uuid event_id) not_a_uuid
    ok (any (is_event source uuid) t)

  -- `INSERT ... ON CONFLICT DO NOTHING`
  unfoldable pub record_received : ℕ → ℕ → CloudEvent → Table → Result ReceiptError Table
  unfolding cast_ids
  record_received serial now event t = do
    e ← cast_ids event
    ok (if any (is_event e.source e.id) t then t else t ++ received_row serial now e ∷ [])

abbrev as_receipt {ℓ} : {A : Type ℓ} → Result EnvelopeError A → Result ReceiptError A
as_receipt (ok a) = ok a
as_receipt (err e) = err (envelope e)

module _ (hmac : String → List ℕ → String) (loads : List ℕ → Option Value)
    (instant : String → Option ℕ) where
  -- signature, JSON, envelope and registry checks
  unfoldable pub admit : List ℕ → String → String → Result ReceiptError CloudEvent
  admit body signature secret = do
    raise_if (not (verify_signature hmac body signature secret)) invalid_signature
    parsed ← or_raise (loads body) not_json
    event ← as_receipt (from_wire instant parsed)
    as_receipt (check_consumable event)

  -- `receive`: the event either way, and the inbox after it
  unfoldable pub receive :
      (String → Option String)
      → ℕ
      → ℕ
      → List ℕ
      → String
      → String
      → Table
      → Result ReceiptError (CloudEvent × Table)
  receive as_uuid serial now body signature secret t = do
    event ← admit body signature secret
    seen ← exists as_uuid event.source event.id t
    after ← if seen then ok t else record_received as_uuid serial now event t
    ok (event, after)
