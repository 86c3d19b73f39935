-- ===== src/Orders/Placed.antt =====
-- The order that an `order.placed` event carries (modules/order_to_cash/placed_order.py). `decimal`
-- stands for Python's `Decimal` on a text: none where it raises, otherwise what the checks ask of it.
use baobab_erp.Common.{
  ℕ, suc, String, ◌<>◌, string_eq, Bool, true, false, not, ◌&&◌, ◌||◌, Option, none, some, List, [],
  ◌∷◌, ◌==◌, any, leb, ltb, is_ok, Result, ok, ◌>>=◌, ◌>>◌, raise_if, or_raise, if◌then◌else◌,
}
use baobab_erp.Text.{Regex, cls, seq, star, times, fullmatch, len}
use baobab_erp.Json.{Value, Items, Fields, int, text, arr, obj, stop, item, get, equals_text}
use baobab_erp.Identifiers

pub data PayloadError : Type 0 where
  payload_error : String → PayloadError

pub record PlacedLine : Type 0 where
  pub line_id : String
  pub sku_id : String
  pub quantity : String
  pub unit : String
  pub unit_price : String

pub record PlacedOrder : Type 0 where
  pub legal_entity_id : String
  pub commerce_order_id : String
  pub order_version : ℕ
  pub customer_id : String
  pub currency : String
  pub lines : List PlacedLine

-- `^[A-Za-z0-9][A-Za-z0-9._:-]{2,127}$`: the characters, and between 3 and 128 of them
abbrev pub resource_pattern : Regex
resource_pattern =
    let first = (b'A', b'Z') ∷ (b'a', b'z') ∷ (b'0', b'9') ∷ [] in
    seq (cls first) (star (cls ((b'.', b'.') ∷ (b'_', b'_') ∷ (b':', b':') ∷ (b'-', b'-') ∷ first)))

unfoldable pub is_resource_id : String → Bool
unfolding fullmatch len
is_resource_id value = leb 3 (len value) && leb (len value) 128 && fullmatch resource_pattern value

-- `^[A-Z]{3}$`
abbrev pub currency_pattern : Regex
currency_pattern = times 3 (cls ((b'A', b'Z') ∷ []))

abbrev pub max_lines : ℕ
max_lines = 500

unfoldable pub is_currency : String → Bool
unfolding fullmatch
is_currency value = fullmatch currency_pattern value

-- a decimal number: infinite or not a number, or its sign
pub data Number : Type 0 where
  not_finite negative nought positive : Number

abbrev pub as_text : Value → Option String
as_text (text s) = some s
as_text _ = none

abbrev pub as_fields : Value → Option Fields
as_fields (obj fs) = some fs
as_fields _ = none

abbrev pub as_items : Value → Option Items
as_items (arr vs) = some vs
as_items _ = none

abbrev pub size : Items → ℕ
size stop = 0
size (item v vs) = suc (size vs)

-- an int that is no bool and at least 1
abbrev pub as_version : Value → Option ℕ
as_version (int n) = if ltb n 1 then none else some n
as_version _ = none

-- `_resource_id`
unfoldable pub resource_id : Fields → String → Result PayloadError String
resource_id data_fields name = do
  value ←
      or_raise (as_text (get name data_fields))
        (payload_error (name <> " is missing or not a canonical resource id"))
  raise_if (not (is_resource_id value))
      (payload_error (name <> " is missing or not a canonical resource id"))
  ok value

-- finite, not negative, and positive where it must be
abbrev pub in_range : Bool → Number → Bool
in_range must_be_positive not_finite = false
in_range must_be_positive negative = false
in_range must_be_positive nought = not must_be_positive
in_range must_be_positive positive = true

abbrev pub legal_entity : Value → Option String
legal_entity (text s) = if is_ok (Identifiers.legal_entity_id s) then some s else none
legal_entity _ = none

module _ (decimal : String → Option Number) where
  -- `_decimal`
  unfoldable pub decimal_text : Value → String → Bool → Result PayloadError String
  decimal_text value what must_be_positive = do
    written ← or_raise (as_text value) (payload_error (what <> " must be a decimal string"))
    parsed ← or_raise (decimal written) (payload_error (what <> " is not a decimal"))
    raise_if (not (in_range must_be_positive parsed)) (payload_error (what <> " is out of range"))
    ok written

  -- a line of a known unit, from its product and amounts on
  unfoldable pub line_of :
      Fields → String → String → Fields → Fields → Result PayloadError PlacedLine
  line_of members line unit quantity price = do
    sku ← resource_id members "sku_id"
    amount ← decimal_text (get "value" quantity) "quantity" true
    unit_price ← decimal_text (get "amount" price) "unit_price" false
    ok (record {
      line_id = line;
      sku_id = sku;
      quantity = amount;
      unit = unit;
      unit_price = unit_price;
    })

  -- a line of a known id, from its objects on
  unfoldable pub measured_line : String → Fields → String → Result PayloadError PlacedLine
  measured_line currency members line = do
    quantity ←
        or_raise (as_fields (get "quantity" members))
          (payload_error "a line needs quantity and unit_price objects")
    price ←
        or_raise (as_fields (get "unit_price" members))
          (payload_error "a line needs quantity and unit_price objects")
    unit ← or_raise (as_text (get "unit" quantity)) (payload_error "a line quantity needs a unit")
    raise_if (unit == "") (payload_error "a line quantity needs a unit")
    raise_if (not (equals_text (get "currency" price) currency))
        (payload_error "a line price is not in the order currency")
    line_of members line unit quantity price

  -- one line, given the line ids before it
  unfoldable pub parse_line : String → List String → Value → Result PayloadError PlacedLine
  parse_line currency seen raw = do
    members ← or_raise (as_fields raw) (payload_error "a line is not an object")
    line ← resource_id members "line_id"
    raise_if (any (λ s. s == line) seen) (payload_error "line_id repeats")
    measured_line currency members line

  -- the loop over the lines
  unfoldable pub parse_lines : String → List String → Items → Result PayloadError (List PlacedLine)
  parse_lines currency seen stop = ok []
  parse_lines currency seen (item raw raws) = do
    line ← parse_line currency seen raw
    rest ← parse_lines currency (line.line_id ∷ seen) raws
    ok (line ∷ rest)

  -- an order of a known entity, version and currency, from its lines on
  unfoldable pub order_of : Fields → String → ℕ → String → Items → Result PayloadError PlacedOrder
  order_of members entity version currency raw_lines = do
    raise_if (ltb (size raw_lines) 1 || ltb max_lines (size raw_lines))
        (payload_error "lines must be a non-empty list")
    lines ← parse_lines currency [] raw_lines
    order_id ← resource_id members "commerce_order_id"
    customer ← resource_id members "customer_id"
    ok (record {
      legal_entity_id = entity;
      commerce_order_id = order_id;
      order_version = version;
      customer_id = customer;
      currency = currency;
      lines = lines;
    })

  unfoldable pub parse_placed_order : Value → Result PayloadError PlacedOrder
  parse_placed_order payload = do
    members ← or_raise (as_fields payload) (payload_error "data is not an object")
    entity ←
        or_raise (legal_entity (get "legal_entity_id" members))
          (payload_error "legal_entity_id is missing or malformed")
    version ←
        or_raise (as_version (get "order_version" members))
          (payload_error "order_version must be a positive integer")
    currency ←
        or_raise (as_text (get "currency" members))
          (payload_error "currency must be an ISO 4217 code")
    raise_if (not (is_currency currency)) (payload_error "currency must be an ISO 4217 code")
    raw_lines ←
        or_raise (as_items (get "lines" members)) (payload_error "lines must be a non-empty list")
    order_of members entity version currency raw_lines
