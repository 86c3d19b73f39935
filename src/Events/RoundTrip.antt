-- ===== src/Events/RoundTrip.antt =====
-- Writing an event to the wire and reading it back (Events/Wire.antt).
use baobab_erp.Common.{ℕ, String, ◌≡◌, ◌∙◌, Option, some, arith, ok}
use baobab_erp.Json.{member, get}
use baobab_erp.Events.Envelope.{CloudEvent, validate}
use baobab_erp.Events.Wire.{
  to_wire, from_fields, from_wire, has_unknown, has_all, has_null, read_members,
}

-- whatever members are left out, all that is read back is validated
written :
    (iso : ℕ → String) (instant : String → Option ℕ) (e : CloudEvent)
    → (causation tenant key parent state : Option String) → instant (iso e.time) ≡ some e.time
    → let event = record e {
      causationid = causation;
      tenantid = tenant;
      idempotencykey = key;
      traceparent = parent;
      tracestate = state;
    } in
      from_wire instant (to_wire iso event) ≡ validate event
unfolding from_wire to_wire from_fields has_unknown has_all has_null read_members get member
written iso instant e causation tenant key parent state reads = ground arith

-- A valid event that is written to the wire is read back as it was, where the reader of instants
-- reads the text that is written for the event's time.
pub from_wire-to_wire :
    (iso : ℕ → String) (instant : String → Option ℕ) (e : CloudEvent)
    → instant (iso e.time) ≡ some e.time
    → validate e ≡ ok e
    → from_wire instant (to_wire iso e) ≡ ok e
from_wire-to_wire iso instant e reads valid =
    written iso instant e e.causationid e.tenantid e.idempotencykey e.traceparent e.tracestate reads
    ∙ valid
