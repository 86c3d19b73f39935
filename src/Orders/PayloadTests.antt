-- ===== src/Orders/PayloadTests.antt =====
-- A parsed order, and the claim of Orders/Payload.antt about it; the text "2" is read as a positive
-- number, and every other text as none.
use baobab_erp.Common.{
  String, string_eq, ◌==◌, ◌≡◌, refl, Option, none, some, [], ◌∷◌, ok, if◌then◌else◌,
}
use baobab_erp.Json.{Value, int, text, arr, obj, end, field, stop, item, get, member}
use baobab_erp.Identifiers
use baobab_erp.Orders.Placed.{
  Number, positive, PlacedOrder, is_resource_id, is_currency, resource_id, decimal_text, line_of,
  measured_line, parse_line, parse_lines, order_of, parse_placed_order,
}
use baobab_erp.Orders.Payload.{IsOrder, parse_placed_order-IsOrder}

abbrev pub decimal : String → Option Number
decimal s = if s == "2" then some positive else none

abbrev pub payload : Value
payload = obj (
    field "legal_entity_id" (text "ZURI-KE") (
      field "order_version" (int 1) (
        field "currency" (text "KES") (
          field "lines"
            (arr (
              item
                (obj (
                  field "line_id" (text "line-1") (
                    field "sku_id" (text "sku-1") (
                      field "quantity"
                        (obj (field "value" (text "2") (field "unit" (text "EA") end)))
                        (field "unit_price"
                          (obj (field "amount" (text "2") (field "currency" (text "KES") end)))
                          end)))))
                stop))
            (field "commerce_order_id" (text "ord_1") (field "customer_id" (text "cus_1") end))))))

abbrev pub placed : PlacedOrder
placed = record {
  legal_entity_id = "ZURI-KE";
  commerce_order_id = "ord_1";
  order_version = 1;
  customer_id = "cus_1";
  currency = "KES";
  lines =
      record { line_id = "line-1"; sku_id = "sku-1"; quantity = "2"; unit = "EA"; unit_price = "2" }
      ∷ [];
}

pub payload_is_parsed : parse_placed_order decimal payload ≡ ok placed
unfolding parse_placed_order order_of parse_lines parse_line measured_line line_of decimal_text
    resource_id is_resource_id is_currency Identifiers.legal_entity_id get member
payload_is_parsed = refl

parse_placed_order-IsOrder_example : IsOrder decimal placed
parse_placed_order-IsOrder_example = parse_placed_order-IsOrder decimal payload payload_is_parsed
