-- ===== src/Orders/Draft.antt =====
-- The draft of a sales order (`OrderLine` of modules/order_to_cash/model.py and `sales_order_fields` of
-- modules/order_to_cash/service.py).
use baobab_erp.Common.{ℕ, String, Option, none, some, List, [], ◌∷◌}
use baobab_erp.Json.{Fields, Items, int, text, obj, arr, field, end, item, stop}

pub record OrderLine : Type 0 where
  pub product_canonical_id : String
  pub quantity : String
  pub unit_price : String

unfoldable pub line_items : List OrderLine → Items
line_items [] = stop
line_items (line ∷ rest) =
    item
      (obj (
        field "M_Product_ID" (text line.product_canonical_id) (
          field "QtyOrdered" (text line.quantity)
            (field "PriceEntered" (text line.unit_price) end))))
      (line_items rest)

abbrev reference_field : Option String → Fields
reference_field none = end
reference_field (some reference) = field "POReference" (text reference) end

-- `sales_order_fields`
unfoldable pub sales_order_fields : ℕ → String → List OrderLine → Option String → Fields
unfolding line_items
sales_order_fields partner currency lines reference = field "C_BPartner_ID" (int partner) (
    field "CurrencyISO" (text currency)
      (field "OrderLines" (arr (line_items lines)) (reference_field reference)))
