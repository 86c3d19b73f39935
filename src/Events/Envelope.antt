-- ===== src/Events/Envelope.antt =====
-- The CloudEvents envelope (modules/events/cloudevent.py). Instants are microseconds since the
-- epoch, so every `time` has a zone; texts are typed, so the `isinstance` tests on them hold.
use baobab_erp.Common.{
  ℕ, String, string_eq, option_eq, Bool, false, not, ◌&&◌, ◌||◌, Option, none, some, ◌==◌, leb, any,
  is_some, Result, ok, err, ◌>>=◌, ◌>>◌, raise_if, or_raise, is_ok, if◌then◌else◌,
}
use baobab_erp.Text.{fullmatch, len}
use baobab_erp.Json.{Value, is_dict}
use baobab_erp.Identifiers
use baobab_erp.Events.Grammar.{
  type_pattern, idempotency_pattern, tracestate_pattern, is_traceparent, is_uuid, has_scheme,
}
use baobab_erp.Events.Registry.{
  erp_source, lookup, produced, consumed, dataschema_for, accepted_sources,
}

pub data EnvelopeError : Type 0 where
  not_uuid bad_type bad_uri bad_subject bad_scope tenant_missing bad_tenant tenant_forbidden :
      EnvelopeError
  bad_idempotency_key bad_traceparent bad_tracestate bad_data : EnvelopeError
  not_object unknown_member missing_member bad_specversion bad_content_type null_member :
      EnvelopeError
  bad_time not_text : EnvelopeError
  not_produced not_consumed wrong_dataschema wrong_source not_tenant_scoped : EnvelopeError

pub record CloudEvent : Type 0 where
  pub id : String
  pub type : String
  pub source : String
  pub subject : String
  pub time : ℕ
  pub dataschema : String
  pub baobabscope : String
  pub correlationid : String
  pub body : Value  -- `data`
  pub tenantid : Option String
  pub causationid : Option String
  pub idempotencykey : Option String
  pub traceparent : Option String
  pub tracestate : Option String

-- `_absolute_uri`
unfoldable pub absolute_uri : String → ℕ → Result EnvelopeError String
unfolding has_scheme len
absolute_uri value limit = do
  raise_if (value == "" || not (leb (len value) limit)) bad_uri
  raise_if (not (has_scheme value)) bad_uri
  ok value

-- `_uuid`, of which the callers use that it did not raise
unfoldable pub check_uuid : String → Result EnvelopeError (Unit {0})
unfolding is_uuid
check_uuid value = raise_if (not (is_uuid value)) not_uuid

-- the test of an optional member that is present
abbrev present_and : (String → Bool) → Option String → Bool
present_and test none = false
present_and test (some value) = test value

-- the scope rule: a tenant event carries a canonical tenant, a platform event none
unfoldable pub check_tenant : Option String → Result EnvelopeError (Unit {0})
unfolding Identifiers.tenant_id
check_tenant none = err tenant_missing
check_tenant (some tenant) = raise_if (not (is_ok (Identifiers.tenant_id tenant))) bad_tenant

unfoldable pub check_scope : CloudEvent → Result EnvelopeError (Unit {0})
unfolding check_tenant
check_scope e =
    if not (e.baobabscope == "platform" || e.baobabscope == "tenant")
    then err bad_scope
    else if e.baobabscope == "tenant"
    then check_tenant e.tenantid
    else raise_if (is_some e.tenantid) tenant_forbidden

-- `CloudEvent.validate`
unfoldable pub validate : CloudEvent → Result EnvelopeError CloudEvent
unfolding check_uuid absolute_uri check_scope fullmatch len is_traceparent
validate e = do
  check_uuid e.id
  check_uuid e.correlationid
  raise_if (present_and (λ value. not (is_uuid value)) e.causationid) not_uuid
  raise_if (not (leb (len e.type) 255) || not (fullmatch type_pattern e.type)) bad_type
  source ← absolute_uri e.source 255
  schema ← absolute_uri e.dataschema 512
  raise_if (not (leb 1 (len e.subject) && leb (len e.subject) 255)) bad_subject
  check_scope e
  raise_if
      (present_and
        (λ key. not (leb 16 (len key) && leb (len key) 128 && fullmatch idempotency_pattern key))
        e.idempotencykey)
      bad_idempotency_key
  raise_if (present_and (λ value. not (is_traceparent value)) e.traceparent) bad_traceparent
  raise_if
      (present_and
        (λ value.
          not (leb 1 (len value) && leb (len value) 512 && fullmatch tracestate_pattern value))
        e.tracestate)
      bad_tracestate
  raise_if (not (is_dict e.body)) bad_data
  ok e

-- the keyword arguments of `new_event`; `fresh_id` is the text of `uuid.uuid4()` and `time` the
-- given time, or the clock's where none is given
pub record NewEvent : Type 0 where
  pub fresh_id : String
  pub event_type : String
  pub event_subject : String
  pub correlation_id : String
  pub payload : Value
  pub tenant_id : Option String
  pub causation_id : Option String
  pub idempotency_key : Option String
  pub trace : Option String
  pub at : ℕ

-- `if tenant_id`: an empty text counts as absent
abbrev pub is_given : Option String → Bool
is_given none = false
is_given (some value) = not (value == "")

-- the event that `new_event` builds, before it is validated
unfoldable pub draft : NewEvent → String → CloudEvent
draft a schema = record {
  id = a.fresh_id;
  type = a.event_type;
  source = erp_source;
  subject = a.event_subject;
  time = a.at;
  dataschema = schema;
  baobabscope = if is_given a.tenant_id then "tenant" else "platform";
  correlationid = a.correlation_id;
  body = a.payload;
  tenantid = a.tenant_id;
  causationid = a.causation_id;
  idempotencykey = a.idempotency_key;
  traceparent = a.trace;
  tracestate = none;
}

unfoldable pub new_event : NewEvent → Result EnvelopeError CloudEvent
new_event a = do
  schema ← or_raise (lookup a.event_type produced) not_produced
  validate (draft a schema)

-- `check_consumable`
unfoldable pub check_consumable : CloudEvent → Result EnvelopeError CloudEvent
check_consumable e = do
  entry ← or_raise (lookup e.type consumed) not_consumed
  raise_if (not (some e.dataschema == dataschema_for e.type)) wrong_dataschema
  raise_if (not (any (λ s. s == e.source) (accepted_sources entry.1))) wrong_source
  raise_if (not (e.baobabscope == "tenant")) not_tenant_scoped
  ok e

-- The legacy event shape (modules/events/envelope.py): recorded, never delivered.
pub record EventEnvelope : Type 0 where
  pub event_id : String
  pub event_type : String
  pub schema_version : String
  pub occurred_at : ℕ
  pub source : String
  pub correlation_id : String
  pub tenant_id : String
  pub entity_id : String
  pub payload : Value
