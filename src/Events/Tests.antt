-- ===== src/Events/Tests.antt =====
-- Runs of the envelope checks, and the claims of Events/Checks.antt at concrete events.
use baobab_erp.Common.{
  ℕ, String, string_eq, nat_eq, Option, if◌then◌else◌, ◌==◌, ◌≡◌, refl, none, some, ok,
}
use baobab_erp.Json.{obj, end}
use baobab_erp.Events.Registry.{lookup, produced, consumed, dataschema_for, accepted_sources}
use baobab_erp.Events.Envelope.{CloudEvent, validate, NewEvent, draft, new_event, check_consumable}
use baobab_erp.Events.Wire.{to_wire, from_wire}
use baobab_erp.Events.RoundTrip.{from_wire-to_wire}

abbrev pub sample : NewEvent
sample = record {
  fresh_id = "2b1f0c3e-9d4a-4e55-8a77-0c1d2e3f4a5b";
  event_type = "com.baobab-platform.erp.invoice.changed.v1";
  event_subject = "invoice:erp_1a2b3c";
  correlation_id = "7c9e6679-7425-40de-944b-e07fc1f90ae7";
  payload = obj end;
  tenant_id = some "tn_acme1";
  causation_id = none;
  idempotency_key = some "erp-invoice-erp_1a2b3c-r1";
  trace = none;
  at = 1_000_000;
}

abbrev pub sample_event : CloudEvent
sample_event = record {
  id = "2b1f0c3e-9d4a-4e55-8a77-0c1d2e3f4a5b";
  type = "com.baobab-platform.erp.invoice.changed.v1";
  source = "urn:baobab-platform:service:baobab-erp";
  subject = "invoice:erp_1a2b3c";
  time = 1_000_000;
  dataschema = "https://contracts.baobab-platform.com/erp/v1/invoice-outcome.schema.json";
  baobabscope = "tenant";
  correlationid = "7c9e6679-7425-40de-944b-e07fc1f90ae7";
  body = obj end;
  tenantid = some "tn_acme1";
  causationid = none;
  idempotencykey = some "erp-invoice-erp_1a2b3c-r1";
  traceparent = none;
  tracestate = none;
}

pub sample_ok : new_event sample ≡ ok sample_event
unfolding new_event draft validate lookup produced
sample_ok = refl

pub sample_valid : validate sample_event ≡ ok sample_event
unfolding validate
sample_valid = refl

abbrev pub placed_event : CloudEvent
placed_event = record {
  id = "6ba7b810-9dad-41d1-80b4-00c04fd430c8";
  type = "com.baobab-platform.trade.order.placed.v1";
  source = "urn:baobab-platform:service:baobab-trade";
  subject = "order:ord_1";
  time = 5_000_000;
  dataschema =
      "https://contracts.baobab-platform.com/erp/v1/commerce-order-consequence.schema.json";
  baobabscope = "tenant";
  correlationid = "7c9e6679-7425-40de-944b-e07fc1f90ae7";
  body = obj end;
  tenantid = some "tn_acme1";
  causationid = none;
  idempotencykey = none;
  traceparent = none;
  tracestate = none;
}

pub placed_ok : check_consumable placed_event ≡ ok placed_event
unfolding check_consumable lookup consumed dataschema_for produced accepted_sources
placed_ok = refl

-- the clock of the examples shows only one time
abbrev iso : ℕ → String
iso n = if n == 1_000_000 then "1970-01-01T00:00:01Z" else "later"

abbrev instant : String → Option ℕ
instant s = if s == "1970-01-01T00:00:01Z" then some 1_000_000 else none

from_wire-to_wire_example : from_wire instant (to_wire iso sample_event) ≡ ok sample_event
from_wire-to_wire_example = from_wire-to_wire iso instant sample_event refl sample_valid
