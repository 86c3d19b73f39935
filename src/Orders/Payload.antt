-- ===== src/Orders/Payload.antt =====
-- What a parsed order is sure to be (Orders/Placed.antt).
use baobab_erp.Common.{
  ℕ, suc, ◌≤◌, String, string_eq, ◌≡◌, refl, ap, subst, sym, Bool, true, false, Option, some, List,
  [], ◌∷◌, ◌==◌, arith, All, any, length, is_ok, ok, bind-eq-ok, Option-cases, Result-cases, inl,
  inr,
}
use baobab_erp.Json.{Value, Items, Fields, text, stop, item, get}
use baobab_erp.Identifiers
use baobab_erp.Orders.Placed.{
  PlacedLine, PlacedOrder, is_resource_id, is_currency, max_lines, Number, in_range, as_text,
  as_fields, as_items, size, as_version, resource_id, legal_entity, decimal_text, line_of,
  measured_line, parse_line, parse_lines, order_of, parse_placed_order,
}

-- the line's id is none of those, and so on for the lines after it
abbrev pub Fresh : List String → List PlacedLine → Type 0
Fresh seen [] = Unit
Fresh seen (l ∷ ls) = (any (λ s. s == l.line_id) seen ≡ false) × Fresh (l.line_id ∷ seen) ls

resource_id-is_resource_id :
    (fs : Fields) (name : String) {v : String}
    → resource_id fs name ≡ ok v
    → is_resource_id v ≡ true
unfolding resource_id
resource_id-is_resource_id fs name {v} h = elim (Option-cases (as_text (get name fs))) [
  | inl e ↦ absurd (ground arith)
  | inr (value, e) ↦
      let same : value ≡ v = ground arith in
      subst (λ x. is_resource_id x ≡ true) same (ground arith)
]

module _ (decimal : String → Option Number) where
  -- a line that satisfies the contract
  pub record IsLine (l : PlacedLine) : Type 0 where
    pub line : is_resource_id l.line_id ≡ true
    pub sku : is_resource_id l.sku_id ≡ true
    pub measured : (l.unit == "") ≡ false
    pub amount : Number
    pub price : Number
    pub is_amount : decimal l.quantity ≡ some amount
    pub is_price : decimal l.unit_price ≡ some price
    pub amount_range : in_range true amount ≡ true
    pub price_range : in_range false price ≡ true

  decimal_text-in_range :
      (v : Value) (what : String) (b : Bool) {s : String}
      → decimal_text decimal v what b ≡ ok s
      → (n : Number) × (decimal s ≡ some n) × (in_range b n ≡ true)
  unfolding decimal_text
  decimal_text-in_range v what b {s} h = elim (Option-cases (as_text v)) [
    | inl e ↦ absurd (ground arith)
    | inr (written, e) ↦ elim (Option-cases (decimal written)) [
      | inl f ↦ absurd (ground arith)
      | inr (n, f) ↦
          let same : written ≡ s = ground arith in
          (n, subst (λ x. decimal x ≡ some n) same f, ground arith)
    ]
  ]

  line_of-IsLine :
      (members : Fields) (line unit : String) (quantity price : Fields) {l : PlacedLine}
      → line_of decimal members line unit quantity price ≡ ok l
      → is_resource_id line ≡ true
      → (unit == "") ≡ false
      → IsLine l × (l.line_id ≡ line)
  unfolding line_of
  line_of-IsLine members line unit quantity price {l} h named measured =
      elim (Result-cases (resource_id members "sku_id")) [
        | inr (_, e) ↦ absurd (ground (arith, e))
        | inl (sku, e1) ↦
            elim (Result-cases (decimal_text decimal (get "value" quantity) "quantity" true)) [
              | inr (_, e) ↦ absurd (ground (arith, e1, e))
              | inl (amount, e2) ↦
                  elim (Result-cases
                    (decimal_text decimal (get "amount" price) "unit_price" false)) [
                      | inr (_, e) ↦ absurd (ground (arith, e1, e2, e))
                      | inl (unit_price, e3) ↦
                          let (n, is_n, n_range) =
                            decimal_text-in_range (get "value" quantity) "quantity" true e2 in
                          let (m, is_m, m_range) =
                            decimal_text-in_range (get "amount" price) "unit_price" false e3 in
                          let same : record {
                            line_id = line;
                            sku_id = sku;
                            quantity = amount;
                            unit = unit;
                            unit_price = unit_price;
                          }
                              ≡ l =
                            ground arith in
                          (
                            subst IsLine same (record {
                              line = named;
                              sku = resource_id-is_resource_id members "sku_id" e1;
                              measured = measured;
                              amount = n;
                              price = m;
                              is_amount = is_n;
                              is_price = is_m;
                              amount_range = n_range;
                              price_range = m_range;
                            }),
                            ap (λ x. x.line_id) (sym same),
                          )
                    ]
            ]
      ]

  measured_line-IsLine :
      (currency : String) (members : Fields) (line : String) {l : PlacedLine}
      → measured_line decimal currency members line ≡ ok l
      → is_resource_id line ≡ true
      → IsLine l × (l.line_id ≡ line)
  unfolding measured_line
  measured_line-IsLine currency members line {l} h named =
      elim (Option-cases (as_fields (get "quantity" members))) [
        | inl e ↦ absurd (ground arith)
        | inr (quantity, e1) ↦ elim (Option-cases (as_fields (get "unit_price" members))) [
          | inl e ↦ absurd (ground arith)
          | inr (price, e2) ↦ elim (Option-cases (as_text (get "unit" quantity))) [
            | inl e ↦ absurd (ground arith)
            | inr (unit, e3) ↦
                let measured : (unit == "") ≡ false = ground arith in
                let last : line_of decimal members line unit quantity price ≡ ok l = ground arith in
                line_of-IsLine members line unit quantity price last named measured
          ]
        ]
      ]

  parse_line-IsLine :
      (currency : String) (seen : List String) (raw : Value) {l : PlacedLine}
      → parse_line decimal currency seen raw ≡ ok l
      → IsLine l × (any (λ s. s == l.line_id) seen ≡ false)
  unfolding parse_line
  parse_line-IsLine currency seen raw {l} h = elim (Option-cases (as_fields raw)) [
    | inl e ↦ absurd (ground arith)
    | inr (members, e1) ↦ elim (Result-cases (resource_id members "line_id")) [
      | inr (_, e) ↦ absurd (ground (arith, e))
      | inl (line, e2) ↦
          let new : any (λ s. s == line) seen ≡ false = ground arith in
          let last : measured_line decimal currency members line ≡ ok l = ground arith in
          let (is_line, same) =
            measured_line-IsLine currency members line last
              (resource_id-is_resource_id members "line_id" e2) in
          (is_line, subst (λ x. any (λ s. s == x) seen ≡ false) (sym same) new)
    ]
  ]

  parse_lines-IsLine :
      (currency : String) (seen : List String) (raws : Items) {ls : List PlacedLine}
      → parse_lines decimal currency seen raws ≡ ok ls
      → All IsLine ls × Fresh seen ls × (length ls ≡ size raws)
  unfolding parse_lines
  parse_lines-IsLine currency seen stop {ls} h =
      let same : [] ≡ ls = cc h in
      subst (λ x. All IsLine x × Fresh seen x × (length x ≡ 0)) same (tt, tt, refl)
  parse_lines-IsLine currency seen (item raw raws) {ls} h =
      let (l, e1, h1) = bind-eq-ok (parse_line decimal currency seen raw) _ h in
      let (rest, e2, h2) = bind-eq-ok (parse_lines decimal currency (l.line_id ∷ seen) raws) _ h1 in
      let (is_line, new) = parse_line-IsLine currency seen raw e1 in
      let (lines, fresh, long) = parse_lines-IsLine currency (l.line_id ∷ seen) raws e2 in
      let same : l ∷ rest ≡ ls = cc h2 in
      subst (λ x. All IsLine x × Fresh seen x × (length x ≡ suc (size raws))) same
        ((is_line, lines), (new, fresh), ap suc long)

  -- an order that satisfies the contract: well-formed identifiers, a positive version, between 1 and 500
  -- lines that satisfy it, and no line id twice
  pub record IsOrder (o : PlacedOrder) : Type 0 where
    pub entity : is_ok (Identifiers.legal_entity_id o.legal_entity_id) ≡ true
    pub version : 1 ≤ o.order_version
    pub money : is_currency o.currency ≡ true
    pub order : is_resource_id o.commerce_order_id ≡ true
    pub customer : is_resource_id o.customer_id ≡ true
    pub all_lines : All IsLine o.lines
    pub apart : Fresh [] o.lines
    pub at_least : 1 ≤ length o.lines
    pub at_most : length o.lines ≤ max_lines

  as_version-positive : (v : Value) {n : ℕ} → as_version v ≡ some n → 1 ≤ n
  as_version-positive v {n} h = ground arith

  legal_entity-ok :
      (v : Value) {s : String}
      → legal_entity v ≡ some s
      → is_ok (Identifiers.legal_entity_id s) ≡ true
  legal_entity-ok (text t) {s} h =
      let same : t ≡ s = ground arith in
      subst (λ x. is_ok (Identifiers.legal_entity_id x) ≡ true) same (ground arith)
  legal_entity-ok _ {s} h = absurd (ground (arith, h))

  order_of-IsOrder :
      (members : Fields) (entity : String) (version : ℕ) (currency : String) (raws : Items)
      {o : PlacedOrder}
      → order_of decimal members entity version currency raws ≡ ok o
      → is_ok (Identifiers.legal_entity_id entity) ≡ true
      → 1 ≤ version
      → is_currency currency ≡ true
      → IsOrder o
  unfolding order_of
  order_of-IsOrder members entity version currency raws {o} h named positive money =
      elim (Result-cases (parse_lines decimal currency [] raws)) [
        | inr (_, e) ↦ absurd (ground (arith, e))
        | inl (lines, e1) ↦ elim (Result-cases (resource_id members "commerce_order_id")) [
          | inr (_, e) ↦ absurd (ground (arith, e1, e))
          | inl (order_id, e2) ↦ elim (Result-cases (resource_id members "customer_id")) [
            | inr (_, e) ↦ absurd (ground (arith, e1, e2, e))
            | inl (customer, e3) ↦
                let (all_lines, apart, long) = parse_lines-IsLine currency [] raws e1 in
                let same : record {
                  legal_entity_id = entity;
                  commerce_order_id = order_id;
                  order_version = version;
                  customer_id = customer;
                  currency = currency;
                  lines = lines;
                }
                    ≡ o =
                  ground arith in
                let sized : (1 ≤ size raws) × (size raws ≤ max_lines) = ground arith in
                subst IsOrder same (record {
                  entity = named;
                  version = positive;
                  money = money;
                  order = resource_id-is_resource_id members "commerce_order_id" e2;
                  customer = resource_id-is_resource_id members "customer_id" e3;
                  all_lines = all_lines;
                  apart = apart;
                  at_least = omega (arith, long, sized.0);
                  at_most = omega (arith, long, sized.1);
                })
          ]
        ]
      ]

  -- What is parsed satisfies the contract of a placed order.
  pub parse_placed_order-IsOrder :
      (payload : Value) {o : PlacedOrder} → parse_placed_order decimal payload ≡ ok o → IsOrder o
  unfolding parse_placed_order
  parse_placed_order-IsOrder payload {o} h = elim (Option-cases (as_fields payload)) [
    | inl e ↦ absurd (ground arith)
    | inr (members, e1) ↦ elim (Option-cases (legal_entity (get "legal_entity_id" members))) [
      | inl e ↦ absurd (ground arith)
      | inr (entity, e2) ↦ elim (Option-cases (as_version (get "order_version" members))) [
        | inl e ↦ absurd (ground arith)
        | inr (version, e3) ↦ elim (Option-cases (as_text (get "currency" members))) [
          | inl e ↦ absurd (ground arith)
          | inr (currency, e4) ↦ elim (Option-cases (as_items (get "lines" members))) [
            | inl e ↦ absurd (ground arith)
            | inr (raws, e5) ↦
                let money : is_currency currency ≡ true = ground arith in
                let last : order_of decimal members entity version currency raws ≡ ok o =
                  ground arith in
                order_of-IsOrder members entity version currency raws last
                  (legal_entity-ok (get "legal_entity_id" members) e2)
                  (as_version-positive (get "order_version" members) e3) money
          ]
        ]
      ]
    ]
  ]
