-- ===== src/Customers/Tests.antt =====
-- A customer that is parsed, and its marker.
use baobab_erp.Common.{◌≡◌, refl, ok, err}
use baobab_erp.Identifiers
use baobab_erp.Orders.{is_resource_id}
use baobab_erp.Json.{Value, text, int, obj, field, end, get, member}
use baobab_erp.Customers.Payload.{
  CustomerProjection, payload_error, unhashable, parse_customer_projected, marker,
}

abbrev customer : Value → Value
customer status = obj (
    field "legal_entity_id" (text "ZURI-KE") (
      field "customer_id" (text "cus_1") (
        field "customer_version" (int 2) (
          field "customer_type" (text "person")
            (field "display_name" (text "Asha") (field "status" status end))))))

parsed : CustomerProjection
parsed = record {
  legal_entity_id = "ZURI-KE";
  customer_id = "cus_1";
  customer_version = 2;
  customer_type = "person";
  display_name = "Asha";
  status = "active";
}

customer_is_parsed : parse_customer_projected (λ s. s) (customer (text "active")) ≡ ok parsed
unfolding parsed parse_customer_projected Identifiers.legal_entity_id is_resource_id get member
customer_is_parsed = refl

unknown_status :
    parse_customer_projected (λ s. s) (customer (text "gone"))
    ≡ err (payload_error "status must be active, suspended or closed")
unfolding parse_customer_projected Identifiers.legal_entity_id is_resource_id get member
unknown_status = refl

-- a status that is an object is no PayloadError
status_is_object : parse_customer_projected (λ s. s) (customer (obj end)) ≡ err unhashable
unfolding parse_customer_projected Identifiers.legal_entity_id is_resource_id get member
status_is_object = refl

short_marker : marker (λ s. "hash") "tn_acme1" parsed ≡ "baobab-customer:tn_acme1:ZURI-KE:cus_1"
unfolding marker parsed
short_marker = refl
