-- ===== src/Events/Wire.antt =====
-- Writing and reading the wire document (`CloudEvent.to_wire` and `CloudEvent.from_wire` of
-- modules/events/cloudevent.py). A member that
-- the envelope types as a text and that is not one is refused as it is read; the source refuses it
-- too, but for an integer of 32 digits in the place of a UUID.
use baobab_erp.Common.{
  ℕ, String, string_eq, Bool, true, false, not, ◌||◌, Option, none, some, List, [], ◌∷◌, ◌==◌, any,
  all, is_some, Result, ok, err, ◌>>=◌, ◌>>◌, raise_if, or_raise,
}
use baobab_erp.Json.{Value, Fields, null, text, obj, end, field, member, get, equals_text}
use baobab_erp.Events.Envelope.{
  CloudEvent, EnvelopeError, not_object, unknown_member, missing_member, bad_specversion,
  bad_content_type, null_member, bad_time, not_text, validate,
}

abbrev pub required : List String
required =
    "specversion" ∷ "id" ∷ "type" ∷ "source" ∷ "subject" ∷ "time" ∷ "datacontenttype" ∷ "dataschema"
    ∷ "baobabscope" ∷ "correlationid" ∷ "data" ∷ []

abbrev pub optional : List String
optional = "causationid" ∷ "tenantid" ∷ "idempotencykey" ∷ "traceparent" ∷ "tracestate" ∷ []

abbrev among : String → List String → Bool
among k ks = any (λ j. j == k) ks

-- `set(value) - set(REQUIRED) - set(OPTIONAL)` is not empty
unfoldable pub has_unknown : Fields → Bool
has_unknown end = false
has_unknown (field k v fs) = not (among k required || among k optional) || has_unknown fs

unfoldable pub has_all : Fields → List String → Bool
unfolding member
has_all fs names = all (λ k. is_some (member k fs)) names

abbrev is_null : Value → Bool
is_null null = true
is_null _ = false

abbrev null_there : Option Value → Bool
null_there none = false
null_there (some v) = is_null v

unfoldable pub has_null : Fields → List String → Bool
unfolding member
has_null fs names = any (λ k. null_there (member k fs)) names

abbrev text_of : Value → Result EnvelopeError String
text_of (text s) = ok s
text_of _ = err not_text

abbrev optional_text : Option Value → Result EnvelopeError (Option String)
optional_text none = ok none
optional_text (some (text s)) = ok (some s)
optional_text (some _) = err not_text

-- an optional member that is absent is omitted
abbrev pub given : String → Option String → Fields → Fields
given name none fs = fs
given name (some v) fs = field name (text v) fs

-- `to_wire`; `iso` is `isoformat` in UTC, its offset written `Z`
unfoldable pub to_wire : (ℕ → String) → CloudEvent → Value
to_wire iso e = obj (
    field "specversion" (text "1.0") (
      field "id" (text e.id) (
        field "type" (text e.type) (
          field "source" (text e.source) (
            field "subject" (text e.subject) (
              field "time" (text (iso e.time)) (
                field "datacontenttype" (text "application/json") (
                  field "dataschema" (text e.dataschema) (
                    field "baobabscope" (text e.baobabscope) (
                      field "correlationid" (text e.correlationid) (
                        field "data" e.body (
                          given "causationid" e.causationid (
                            given "tenantid" e.tenantid (
                              given "idempotencykey" e.idempotencykey (
                                given "traceparent" e.traceparent
                                  (given "tracestate" e.tracestate end))))))))))))))))

-- `instant` is `datetime.fromisoformat` on the text with its `Z` replaced, on texts with a zone
module _ (instant : String → Option ℕ) where
  abbrev time_of : Value → Result EnvelopeError ℕ
  time_of (text s) = or_raise (instant s) bad_time
  time_of _ = err bad_time

  unfoldable pub read_members : Fields → Result EnvelopeError CloudEvent
  unfolding get member
  read_members fs = do
    moment ← time_of (get "time" fs)
    id ← text_of (get "id" fs)
    type ← text_of (get "type" fs)
    source ← text_of (get "source" fs)
    subject ← text_of (get "subject" fs)
    schema ← text_of (get "dataschema" fs)
    scope ← text_of (get "baobabscope" fs)
    correlation ← text_of (get "correlationid" fs)
    causation ← optional_text (member "causationid" fs)
    tenant ← optional_text (member "tenantid" fs)
    key ← optional_text (member "idempotencykey" fs)
    parent ← optional_text (member "traceparent" fs)
    state ← optional_text (member "tracestate" fs)
    ok (record {
      id = id;
      type = type;
      source = source;
      subject = subject;
      time = moment;
      dataschema = schema;
      baobabscope = scope;
      correlationid = correlation;
      body = get "data" fs;
      tenantid = tenant;
      causationid = causation;
      idempotencykey = key;
      traceparent = parent;
      tracestate = state;
    })

  unfoldable pub from_fields : Fields → Result EnvelopeError CloudEvent
  unfolding has_unknown has_all has_null get read_members
  from_fields fs = do
    raise_if (has_unknown fs) unknown_member
    raise_if (not (has_all fs required)) missing_member
    raise_if (not (equals_text (get "specversion" fs) "1.0")) bad_specversion
    raise_if (not (equals_text (get "datacontenttype" fs) "application/json")) bad_content_type
    raise_if (has_null fs optional) null_member
    event ← read_members fs
    validate event

  unfoldable pub from_wire : Value → Result EnvelopeError CloudEvent
  unfolding from_fields
  from_wire (obj fs) = from_fields fs
  from_wire _ = err not_object
