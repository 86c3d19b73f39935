-- ===== src/Execution/Native.antt =====
-- The engine order of a placed order (`_resolve_lines`, `_verify_units` and `_find_or_create` of
-- modules/order_to_cash/inbox_execution.py).
use baobab_erp.Common.{
  map, ℕ, String, string_eq, nat_eq, Bool, true, false, Option, none, some, List, [], ◌∷◌, ◌==◌,
  ◌<>◌, length, take, find_where, Result, ok, err, if◌then◌else◌,
}
use baobab_erp.Json.{Value, Fields, get, member}
use baobab_erp.Egress.{
  TenantScope, Permits, Host, request_for, with_request, native_action_allowed, ClientError,
  unreachable,
}
use baobab_erp.Orders.{PlacedOrder, PlacedLine, OrderLine, sales_order_fields}
use baobab_erp.Execution.World.{
  Business, Failure, not_permitted, raised, dead, block, engine_failure, Engine, reference, native,
}

abbrev pub customer_kind : String
customer_kind = "business_partner"

abbrev pub product_kind : String
product_kind = "product"

-- `NativeLine`; the product's canonical id is the text of its native id
-- an `OrderLine`, whose product is a number
pub record NativeLine : Type 0 where
  pub product : ℕ
  pub quantity : String
  pub unit_price : String

-- what the code takes from Python: the texts of numbers, of values and of HTTP statuses, `int` on a
-- value with the exception's name where it raises, and the host of the egress guard
pub record Python : Type 0 where
  pub decimal : ℕ → String
  pub str_of : Value → String
  pub http_status : ℕ → String
  pub int_of : Value → Result String ℕ
  pub host : Host

-- the ids of the lines without a product, and the lines with their products
abbrev pub add_line :
    PlacedLine → Option ℕ → List String × List NativeLine → List String × List NativeLine
add_line line none (missing, lines) = (line.line_id ∷ missing, lines)
add_line line (some product) (missing, lines) = (
  missing,
  record { product = product; quantity = line.quantity; unit_price = line.unit_price } ∷ lines,
)

unfoldable pub map_lines :
    Business → String → String → List PlacedLine → List String × List NativeLine
map_lines db engine_instance_id legal_entity_id [] = ([], [])
map_lines db engine_instance_id legal_entity_id (line ∷ rest) =
    add_line line (native db engine_instance_id legal_entity_id product_kind line.sku_id)
      (map_lines db engine_instance_id legal_entity_id rest)

-- `", ".join`
abbrev pub joined : List String → String
joined [] = ""
joined (x ∷ []) = x
joined (x ∷ xs) = x <> (", " <> joined xs)

abbrev pub all_mapped :
    (ℕ → String) → List String × List NativeLine → Result Failure (List NativeLine)
all_mapped decimal ([], lines) = ok lines
all_mapped decimal (missing, lines) = err (
    block "PRODUCT_UNMAPPED" (
      decimal (length missing)
      <> (" line(s) have no product mapping: " <> joined (take 10 missing))))

-- `_resolve_lines`
unfoldable pub resolve_lines :
    (ℕ → String) → Business → String → PlacedOrder → Result Failure (List NativeLine)
unfolding map_lines
resolve_lines decimal db engine_instance_id order =
    all_mapped decimal (map_lines db engine_instance_id order.legal_entity_id order.lines)

module _ (python : Python) where
  abbrev as_line : NativeLine → OrderLine
  as_line line = record {
    product_canonical_id = python.decimal line.product;
    quantity = line.quantity;
    unit_price = line.unit_price;
  }

  -- the fields of the order, with the reference to the platform's
  abbrev pub order_fields : ℕ → String → List NativeLine → String → Fields
  order_fields partner currency lines reference_text =
      sales_order_fields partner currency (map as_line lines) (some reference_text)

  module _ {N : Type 0} (engine : Engine N) where
    abbrev pub then_engine :
        {A B : Type 0}
        → Result ClientError A × N
        → (A → N → Result ClientError B × N)
        → Result ClientError B × N
    then_engine (ok a, n) next = next a n
    then_engine (err e, n) next = (err e, n)

    abbrev pub uom_of : Option ℕ → N → Result ClientError Fields × N
    uom_of none n = (err unreachable, n)
    uom_of (some id) n = engine.get_record "C_UOM" id n

    -- the X12 code of a product's unit; `_reference` raises as an unreachable engine does
    unfoldable pub unit_of : ℕ → N → Result ClientError String × N
    unfolding get
    unit_of product n = then_engine (engine.get_record "M_Product" product n) λ record_of n1.
        then_engine (uom_of (reference python.host.digits (get "C_UOM_ID" record_of)) n1)
          λ uom n2. (ok (python.str_of (get "X12DE355" uom)), n2)

    -- the dictionary `codes`, and what is read for a product that it does not hold
    abbrev pub Codes : Type 0
    Codes = List (ℕ × String)

    abbrev pub code_in : Option (ℕ × String) → Option String
    code_in none = none
    code_in (some entry) = some entry.1

    abbrev pub cached : Option String → ℕ → Codes → N → Result ClientError (String × Codes) × N
    cached (some code) product codes n = (ok (code, codes), n)
    cached none product codes n =
        then_engine (unit_of product n) λ code n1. (ok (code, (product, code) ∷ codes), n1)

    -- the loop of `_verify_units`: the lines in another unit than their product's
    unfoldable pub wrong_units :
        List PlacedLine → List NativeLine → Codes → N → Result ClientError (List String) × N
    unfolding unit_of
    wrong_units [] lines codes n = (ok [], n)
    wrong_units (placed ∷ rest) [] codes n = (ok [], n)
    wrong_units (placed ∷ rest) (line ∷ lines) codes n =
        then_engine
          (cached (code_in (find_where (λ c. c.0 == line.product) codes)) line.product codes n)
          λ found n1.
            then_engine (wrong_units rest lines found.1 n1) λ wrong n2.
              (ok (if found.0 == placed.unit then wrong else placed.line_id ∷ wrong), n2)

    -- what an engine call gave, as the executor takes it
    abbrev pub as_failure : {A : Type 0} → Result ClientError A → Result Failure A
    as_failure (ok a) = ok a
    as_failure (err e) = err (engine_failure python.http_status e)

    abbrev pub checked_units : Result ClientError (List String) → Result Failure (Unit {0})
    checked_units (err e) = err (engine_failure python.http_status e)
    checked_units (ok []) = ok tt
    checked_units (ok wrong) = err (
        dead "UNIT_MISMATCH"
          ("line(s) in a unit other than the product's own: " <> joined (take 10 wrong)))

    -- `create_record` of the engine, as a call on the world
    abbrev pub create_order : Fields → Permits × N → Result ClientError ℕ × (Permits × N)
    create_order fields (p, n) = engine.create_record "C_Order" fields p n

    abbrev pub created :
        Result ClientError ℕ × (Permits × N) → Result Failure (ℕ × Bool) × (Permits × N)
    created (ok id, w) = (ok (id, false), w)
    created (err e, w) = (err (engine_failure python.http_status e), w)

    abbrev pub create_when :
        Result Failure (Unit {0})
        → Fields
        → (Permits × N)
        → Result Failure (ℕ × Bool) × (Permits × N)
    create_when (err e) fields w = (err e, w)
    create_when (ok valid) fields w = created (
        with_request (request_for python.host "POST" "/models/C_Order" fields) (create_order fields)
          w)

    -- no engine order carries the reference: the units are verified and one is created
    unfoldable pub create_new :
        PlacedOrder
        → ℕ
        → List NativeLine
        → (Permits × N)
        → Result Failure (ℕ × Bool) × (Permits × N)
    unfolding wrong_units
    create_new order customer lines (p, n) =
        let (wrong, m) = wrong_units order.lines lines [] n in
        create_when (checked_units wrong)
          (order_fields customer order.currency lines order.commerce_order_id) (p, m)

    -- the number of the one order that is there
    abbrev pub adopted_id : Option Value → Option Value → Result String ℕ
    adopted_id (some v) other = python.int_of v
    adopted_id none (some v) = python.int_of v
    adopted_id none none = err "KeyError"

    abbrev pub adopted : Result String ℕ → Result Failure (ℕ × Bool)
    adopted (ok id) = ok (id, true)
    adopted (err name) = err (raised name)

    abbrev pub decide :
        Result ClientError (List Fields)
        → PlacedOrder
        → ℕ
        → List NativeLine
        → (Permits × N)
        → Result Failure (ℕ × Bool) × (Permits × N)
    decide (err e) order customer lines w = (err (engine_failure python.http_status e), w)
    decide (ok []) order customer lines w = create_new order customer lines w
    decide (ok (row ∷ [])) order customer lines w =
        (adopted (adopted_id (member "id" row) (member "C_Order_ID" row)), w)
    decide (ok rows) order customer lines w = (
      err (
          dead "DUPLICATE_NATIVE_ORDERS"
            (python.decimal (length rows) <> " engine orders carry the order's reference")),
      w,
    )

    -- `_find_or_create`, in a runtime that is protected or not
    unfoldable pub find_or_create :
        Bool
        → TenantScope
        → PlacedOrder
        → ℕ
        → List NativeLine
        → (Permits × N)
        → Result Failure (ℕ × Bool) × (Permits × N)
    unfolding create_new member
    find_or_create protected scope order customer lines (p, n) =
        if native_action_allowed protected scope "create_sales_order" order.commerce_order_id p
        then (let (found, m) = engine.query_orders order.commerce_order_id n in
            decide found order customer lines (p, m))
        else (err not_permitted, (p, n))
