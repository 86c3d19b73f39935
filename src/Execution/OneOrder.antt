-- ===== src/Execution/OneOrder.antt =====
-- One engine order for each reference (Execution/Native.antt, Execution/Attempt.antt).
use baobab_erp.Common.{
  ℕ, ◌+◌, ◌≤◌, ◌≡◌, refl, sym, ap, ◌∙◌, String, string_eq, eq_law, Bool, Option, none, some, List,
  [], ◌∷◌, ◌==◌, length, arith, Result, ok, err, Bool-cases, inl, inr, if◌then◌else◌,
}
use baobab_erp.Json.{Fields, get, member, equals_text}
use baobab_erp.Egress.{
  TenantScope, Permits, ClientError, with_request, request_for, native_action_allowed,
}
use baobab_erp.Orders.{sales_order_fields, PlacedOrder, PlacedLine}
use baobab_erp.Execution.World.{Failure, Engine, reference}
use baobab_erp.Execution.Native.{
  Python, NativeLine, order_fields, unit_of, uom_of, then_engine, cached, wrong_units,
  checked_units, create_when, create_order, created, create_new, decide, find_or_create,
}

-- An engine that keeps its orders: `orders reference n` counts those that carry a reference. Reading
-- changes nothing, a query yields every order of the reference, and a creation adds at most the order
-- it was asked for, and adds it when it returns.
pub record KeepsOrders {N : Type 0} (engine : Engine N) (orders : String → N → ℕ) : Type 0 where
  pub reads :
      (table : String) (id : ℕ) (n : N) (ref : String)
      → orders ref (engine.get_record table id n).1 ≡ orders ref n
  pub queries :
      (asked : String) (n : N) (ref : String)
      → orders ref (engine.query_orders asked n).1 ≡ orders ref n
  pub complete :
      (asked : String) (n : N) (rows : List Fields)
      → (engine.query_orders asked n).0 ≡ ok rows
      → length rows ≡ orders asked n
  pub creates :
      (fields : Fields) (p : Permits) (n : N) (ref : String)
      → orders ref (engine.create_record "C_Order" fields p n).1.1
        ≤ orders ref n + (if equals_text (get "POReference" fields) ref then 1 else 0)
  pub adds :
      (fields : Fields) (p : Permits) (n : N) (id : ℕ) (ref : String)
      → (engine.create_record "C_Order" fields p n).0 ≡ ok id
      → orders ref (engine.create_record "C_Order" fields p n).1.1
        ≡ orders ref n + (if equals_text (get "POReference" fields) ref then 1 else 0)

module _ {N : Type 0} (python : Python) (engine : Engine N) (orders : String → N → ℕ)
    (keeps : KeepsOrders engine orders) (ref : String) where
  then_engine-orders :
      {A B : Type 0} (r : Result ClientError A × N) (next : A → N → Result ClientError B × N)
      (k : ℕ)
      → orders ref r.1 ≡ k
      → ((a : A) (n : N) → orders ref (next a n).1 ≡ orders ref n)
      → orders ref (then_engine python engine r next).1 ≡ k
  then_engine-orders (ok a, n) next k h step = step a n ∙ h
  then_engine-orders (err e, n) next k h step = h

  uom_of-orders : (o : Option ℕ) (n : N) → orders ref (uom_of python engine o n).1 ≡ orders ref n
  uom_of-orders none n = refl
  uom_of-orders (some id) n = keeps.reads "C_UOM" id n ref

  unit_of-orders :
      (product : ℕ) (n : N) → orders ref (unit_of python engine product n).1 ≡ orders ref n
  unfolding unit_of
  unit_of-orders product n =
      then_engine-orders (engine.get_record "M_Product" product n) _ (orders ref n)
        (keeps.reads "M_Product" product n ref)
        (λ row n1.
          then_engine-orders
            (uom_of python engine (reference python.host.digits (get "C_UOM_ID" row)) n1) _
            (orders ref n1) (uom_of-orders (reference python.host.digits (get "C_UOM_ID" row)) n1)
            (λ uom n2. refl))

  cached-orders :
      (known : Option String) (product : ℕ) (codes : List (ℕ × String)) (n : N)
      → orders ref (cached python engine known product codes n).1 ≡ orders ref n
  cached-orders (some code) product codes n = refl
  cached-orders none product codes n =
      then_engine-orders (unit_of python engine product n) _ (orders ref n)
        (unit_of-orders product n) (λ code n1. refl)

  pub wrong_units-orders :
      (placed : List PlacedLine) (lines : List NativeLine) (codes : List (ℕ × String)) (n : N)
      → orders ref (wrong_units python engine placed lines codes n).1 ≡ orders ref n
  unfolding wrong_units
  wrong_units-orders [] lines codes n = refl
  wrong_units-orders (p ∷ rest) [] codes n = refl
  wrong_units-orders (p ∷ rest) (line ∷ lines) codes n =
      then_engine-orders _ _ (orders ref n) (cached-orders _ line.product codes n) (λ found n1.
        then_engine-orders (wrong_units python engine rest lines found.1 n1) _ (orders ref n1)
          (wrong_units-orders rest lines found.1 n1) (λ wrong n2. refl))

  created-orders :
      (r : Result ClientError ℕ × (Permits × N))
      → orders ref (created python engine r).1.1 ≡ orders ref r.1.1
  created-orders (ok id, w) = refl
  created-orders (err e, w) = refl

  create_when-orders :
      (valid : Result Failure (Unit {0})) (order : PlacedOrder) (customer : ℕ)
      (lines : List NativeLine) (p : Permits) (n : N)
      → orders ref
          (create_when python engine valid
            (order_fields python customer order.currency lines order.commerce_order_id)
            (p, n)).1.1
        ≤ orders ref n + (if order.commerce_order_id == ref then 1 else 0)
  unfolding with_request sales_order_fields get member
  create_when-orders (err e) order customer lines p n = omega arith
  create_when-orders (ok valid) order customer lines p n =
      let fields = order_fields python customer order.currency lines order.commerce_order_id in
      let request = request_for python.host "POST" "/models/C_Order" fields in
      omega (
        arith,
        created-orders (with_request request (create_order python engine fields) (p, n)),
        keeps.creates fields (record p { request = some request }) n ref,
      )

  create_new-orders :
      (order : PlacedOrder) (customer : ℕ) (lines : List NativeLine) (p : Permits) (n : N)
      → orders ref (create_new python engine order customer lines (p, n)).1.1
        ≤ orders ref n + (if order.commerce_order_id == ref then 1 else 0)
  unfolding create_new
  create_new-orders order customer lines p n =
      let (wrong, m) = wrong_units python engine order.lines lines [] n in
      omega (
        arith,
        wrong_units-orders order.lines lines [] n,
        create_when-orders
            (checked_units python engine (wrong_units python engine order.lines lines [] n).0) order
            customer lines p (wrong_units python engine order.lines lines [] n).1,
      )

  decide-orders :
      (found : Result ClientError (List Fields)) (order : PlacedOrder) (customer : ℕ)
      (lines : List NativeLine) (p : Permits) (m : N)
      → ((rows : List Fields) → found ≡ ok rows → length rows ≡ orders order.commerce_order_id m)
      → orders ref m ≤ 1
      → orders ref (decide python engine found order customer lines (p, m)).1.1 ≤ 1
  decide-orders (err e) order customer lines p m complete h = h
  decide-orders (ok (row ∷ [])) order customer lines p m complete h = h
  decide-orders (ok (row ∷ x ∷ xs)) order customer lines p m complete h = h
  decide-orders (ok []) order customer lines p m complete h =
      let nothing : 0 ≡ orders order.commerce_order_id m = complete [] refl in
      elim (Bool-cases (order.commerce_order_id == ref)) [
        | inl e ↦
            let same : order.commerce_order_id ≡ ref = (eq_law order.commerce_order_id ref).0 e in
            let none_yet : 0 ≡ orders ref m = nothing ∙ ap (λ r. orders r m) same in
            let bound = create_new-orders order customer lines p m in
            omega (arith, none_yet, rw e at bound)
        | inr e ↦
            let bound = create_new-orders order customer lines p m in
            omega (arith, h, rw e at bound)
      ]

  pub find_or_create-orders :
      (protected : Bool) (scope : TenantScope) (order : PlacedOrder) (customer : ℕ)
      (lines : List NativeLine) (p : Permits) (n : N)
      → orders ref n ≤ 1
      → orders ref (find_or_create python engine protected scope order customer lines (p, n)).1.1
        ≤ 1
  unfolding find_or_create
  find_or_create-orders protected scope order customer lines p n h =
      let asked = engine.query_orders order.commerce_order_id n in
      let still : orders ref asked.1 ≡ orders ref n = keeps.queries order.commerce_order_id n ref in
      let all_there = λ (rows : List Fields) (e : asked.0 ≡ ok rows).
        keeps.complete order.commerce_order_id n rows e
        ∙ sym (keeps.queries order.commerce_order_id n order.commerce_order_id) in
      elim (Bool-cases
        (native_action_allowed protected scope "create_sales_order" order.commerce_order_id p)) [
          | inl e ↦ rw e (
              decide-orders asked.0 order customer lines p asked.1 all_there
                (omega (arith, still, h)))
          | inr e ↦ rw e h
        ]
