-- ===== src/Inbox/ArrivalTests.antt =====
-- A delivery that is let in, and the claims of Inbox/Arrival.antt about it. The parameters are a
-- signature that is always "abcd", a parser that reads one document, and one instant.
use baobab_erp.Common.{
  ℕ, String, string_eq, option_eq, ◌==◌, count, if◌then◌else◌, ◌≡◌, refl, true, Option, some, List,
  [], ◌∷◌, ok, arith,
}
use baobab_erp.Json.{Value, text, obj, end, field}
use baobab_erp.Security.{verify_signature}
use baobab_erp.Events.{
  CloudEvent, check_consumable, from_wire, validate, lookup, consumed, dataschema_for, produced,
  accepted_sources,
}
use baobab_erp.Events.Tests.{placed_event, placed_ok}
use baobab_erp.Inbox.Queue.{Table}
use baobab_erp.Inbox.Receipt.{
  is_event, cast_ids, received_row, exists, record_received, admit, receive,
}
use baobab_erp.Inbox.Arrival.{
  HasUniqueEvents, receive-admitted, receive-HasUniqueEvents, receive-receive,
}

abbrev uuid : String
uuid = "6ba7b810-9dad-41d1-80b4-00c04fd430c8"

abbrev upper_uuid : String
upper_uuid = "6BA7B810-9DAD-41D1-80B4-00C04FD430C8"

-- a cast that knows the other spelling
abbrev as_uuid : String → Option String
as_uuid s = if s == upper_uuid then some uuid else some s

abbrev wire_of : String → Value
wire_of id = obj (
    field "specversion" (text "1.0") (
      field "id" (text id) (
        field "type" (text "com.baobab-platform.trade.order.placed.v1") (
          field "source" (text "urn:baobab-platform:service:baobab-trade") (
            field "subject" (text "order:ord_1") (
              field "time" (text "1970-01-01T00:00:05Z") (
                field "datacontenttype" (text "application/json") (
                  field "dataschema"
                    (text
                      "https://contracts.baobab-platform.com/erp/v1/commerce-order-consequence.schema.json")
                    (field "baobabscope" (text "tenant") (
                      field "correlationid" (text "7c9e6679-7425-40de-944b-e07fc1f90ae7")
                        (field "tenantid" (text "tn_acme1") (field "data" (obj end) end))))))))))))

abbrev hmac : String → List ℕ → String
hmac secret body = "abcd"

-- a body of two bytes holds the event, any other the event with the other spelling of its id
abbrev loads : List ℕ → Option Value
loads (_ ∷ _ ∷ []) = some (wire_of uuid)
loads _ = some (wire_of upper_uuid)

abbrev instant : String → Option ℕ
instant s = some 5_000_000

wire_is_read : from_wire instant (wire_of uuid) ≡ ok placed_event
unfolding from_wire validate
wire_is_read = refl

abbrev respelled : CloudEvent
respelled = record placed_event { id = upper_uuid }

respelled_is_read : from_wire instant (wire_of upper_uuid) ≡ ok respelled
unfolding from_wire validate
respelled_is_read = refl

abbrev body : List ℕ
body = 123 ∷ 125 ∷ []

abbrev body_again : List ℕ
body_again = 32 ∷ 123 ∷ 125 ∷ []

is_signed : (b : ℕ) (rest : List ℕ) → verify_signature hmac (b ∷ rest) "sha256=abcd" "secret" ≡ true
unfolding verify_signature
is_signed b rest = refl

is_admitted : admit hmac loads instant body "sha256=abcd" "secret" ≡ ok placed_event
unfolding admit
is_admitted = rw (is_signed 123 (125 ∷ []), wire_is_read, placed_ok)

respelled_ok : check_consumable respelled ≡ ok respelled
unfolding check_consumable lookup consumed dataschema_for produced accepted_sources
respelled_ok = refl

is_admitted_again : admit hmac loads instant body_again "sha256=abcd" "secret" ≡ ok respelled
unfolding admit
is_admitted_again = rw (is_signed 32 (123 ∷ 125 ∷ []), respelled_is_read, respelled_ok)

abbrev after_first : Table
after_first = received_row 1 5 placed_event ∷ []

first_delivery :
    receive hmac loads instant as_uuid 1 5 body "sha256=abcd" "secret" []
    ≡ ok (placed_event, after_first)
unfolding receive exists record_received cast_ids
first_delivery = rw is_admitted

receive-admitted_example :
    (verify_signature hmac body "sha256=abcd" "secret" ≡ true)
    × ((parsed : Value) × (loads body ≡ some parsed)
        × (from_wire instant parsed ≡ ok placed_event)
        × (check_consumable placed_event ≡ ok placed_event))
receive-admitted_example =
    receive-admitted hmac loads instant as_uuid body "sha256=abcd" "secret" 1 5 []
      {e = placed_event} {v = after_first} first_delivery

receive-HasUniqueEvents_example :
    HasUniqueEvents after_first
    × ((key : String) × (as_uuid uuid ≡ some key)
        × (count (is_event placed_event.source key) after_first ≡ 1))
receive-HasUniqueEvents_example =
    receive-HasUniqueEvents hmac loads instant as_uuid body "sha256=abcd" "secret" 1 5 []
      {e = placed_event} {v = after_first} first_delivery (λ source event_id. omega arith)

-- the second delivery spells the id in capitals
receive-receive_example :
    receive hmac loads instant as_uuid 2 60 body_again "sha256=abcd" "secret" after_first
    ≡ ok (respelled, after_first)
receive-receive_example =
    receive-receive hmac loads instant as_uuid body "sha256=abcd" "secret" 1 5 2 60 []
      {e = placed_event} {v = after_first} body_again "sha256=abcd" "secret" {f = respelled}
      first_delivery is_admitted_again refl refl
