-- ===== src/Execution/Adopted.antt =====
-- The engine order that is found or created (Execution/Native.antt).
use baobab_erp.Common.{
  ℕ, ◌+◌, ◌≡◌, refl, sym, ap, ◌∙◌, String, string_eq, eq_law, Bool, true, false, some, List, [],
  ◌∷◌, ◌==◌, length, eqb, arith, Result, ok, err, Bool-cases, inl, inr,
}
use baobab_erp.Json.{Fields, get, member}
use baobab_erp.Egress.{
  TenantScope, Permits, ClientError, with_request, request_for, native_action_allowed,
}
use baobab_erp.Orders.{sales_order_fields, PlacedOrder}
use baobab_erp.Execution.World.{Failure, Engine}
use baobab_erp.Execution.Native.{
  Python, NativeLine, order_fields, wrong_units, checked_units, create_when, create_order, created,
  create_new, decide, adopted_id, adopted, find_or_create,
}
use baobab_erp.Execution.OneOrder.{KeepsOrders, wrong_units-orders}

module _ {N : Type 0} (python : Python) (engine : Engine N) (orders : String → N → ℕ)
    (keeps : KeepsOrders engine orders) (order : PlacedOrder) (customer : ℕ)
    (lines : List NativeLine) where
  created-ok :
      (r : Result ClientError ℕ × (Permits × N)) (v : Permits × N) {found : ℕ × Bool}
      → created python engine r ≡ (ok found, v)
      → (r.0 ≡ ok found.0) × (found.1 ≡ false) × (r.1 ≡ v)
  created-ok (ok id, w) v h = ground (arith, h)
  created-ok (err e, w) v h = absurd (cc (ap (λ x. x.0) h))

  create_when-one :
      (valid : Result Failure (Unit {0})) (w v : Permits × N) {found : ℕ × Bool}
      → create_when python engine valid
          (order_fields python customer order.currency lines order.commerce_order_id)
          w
        ≡ (ok found, v)
      → (orders order.commerce_order_id v.1 ≡ orders order.commerce_order_id w.1 + 1)
        × (found.1 ≡ false)
  unfolding with_request sales_order_fields get member
  create_when-one (err e) w v h = absurd (cc (ap (λ x. x.0) h))
  create_when-one (ok valid) (p, n) v h =
      let fields = order_fields python customer order.currency lines order.commerce_order_id in
      let request = request_for python.host "POST" "/models/C_Order" fields in
      let (there, fresh, after) =
        created-ok (with_request request (create_order python engine fields) (p, n)) v h in
      let grown =
        keeps.adds fields (record p { request = some request }) n _ order.commerce_order_id there in
      let same : (order.commerce_order_id == order.commerce_order_id) ≡ true =
        (eq_law order.commerce_order_id order.commerce_order_id).1 refl in
      let counted = rw same at grown in
      (ap (λ x. orders order.commerce_order_id x.1) (sym after) ∙ counted, fresh)

  create_new-one :
      (p : Permits) (n : N) (v : Permits × N) {found : ℕ × Bool}
      → create_new python engine order customer lines (p, n) ≡ (ok found, v)
      → (orders order.commerce_order_id v.1 ≡ orders order.commerce_order_id n + 1)
        × (found.1 ≡ false)
  unfolding create_new
  create_new-one p n v h =
      let units = wrong_units python engine order.lines lines [] n in
      let (grown, fresh) = create_when-one (checked_units python engine units.0) (p, units.1) v h in
      (
        omega (
          arith,
          grown,
          wrong_units-orders python engine orders keeps order.commerce_order_id order.lines lines []
              n,
        ),
        fresh,
      )

  adopted-flag :
      (found : Result String ℕ) {id : ℕ} {flag : Bool}
      → adopted python engine found ≡ ok (id, flag)
      → flag ≡ true
  adopted-flag (ok id) h = ground (arith, h)
  adopted-flag (err name) h = absurd (cc h)

  decide-one :
      (answer : Result ClientError (List Fields)) (p : Permits) (m : N) (v : Permits × N) {id : ℕ}
      {flag : Bool}
      → ((rows : List Fields) → answer ≡ ok rows → length rows ≡ orders order.commerce_order_id m)
      → decide python engine answer order customer lines (p, m) ≡ (ok (id, flag), v)
      → (orders order.commerce_order_id v.1 ≡ 1) × (flag ≡ eqb (orders order.commerce_order_id m) 1)
  decide-one (err e) p m v complete h = absurd (cc (ap (λ x. x.0) h))
  decide-one (ok (row ∷ x ∷ xs)) p m v complete h = absurd (cc (ap (λ x. x.0) h))
  decide-one (ok []) p m v complete h =
      let (grown, fresh) = create_new-one p m v h in
      let nothing = complete [] refl in
      (omega (arith, grown, nothing), ground (arith, fresh, nothing))
  decide-one (ok (row ∷ [])) p m v complete h =
      let one = complete (row ∷ []) refl in
      let same = ap (λ x. x.1.1) h in
      let flagged =
        adopted-flag (adopted_id python engine (member "id" row) (member "C_Order_ID" row))
          (ap (λ x. x.0) h) in
      (omega (arith, one, ap (orders order.commerce_order_id) same), ground (arith, one, flagged))

  -- An engine order that is found or created is the only one of its reference, and it is reported as
  -- adopted exactly where it had been there before.
  pub find_or_create-one :
      (protected : Bool) (scope : TenantScope) (p : Permits) (n : N) (v : Permits × N) {id : ℕ}
      {flag : Bool}
      → find_or_create python engine protected scope order customer lines (p, n)
        ≡ (ok (id, flag), v)
      → (orders order.commerce_order_id v.1 ≡ 1) × (flag ≡ eqb (orders order.commerce_order_id n) 1)
  unfolding find_or_create
  find_or_create-one protected scope p n v h =
      let asked = engine.query_orders order.commerce_order_id n in
      let still : orders order.commerce_order_id asked.1 ≡ orders order.commerce_order_id n =
        keeps.queries order.commerce_order_id n order.commerce_order_id in
      let all_there = λ (rows : List Fields) (e : asked.0 ≡ ok rows).
        keeps.complete order.commerce_order_id n rows e ∙ sym still in
      elim (Bool-cases
        (native_action_allowed protected scope "create_sales_order" order.commerce_order_id p)) [
          | inl e ↦
              let (one, flagged) = decide-one asked.0 p asked.1 v all_there (rw e at h) in
              (one, flagged ∙ ap (λ k. eqb k 1) still)
          | inr e ↦ let refused = rw e at h in absurd (cc (ap (λ x. x.0) refused))
        ]
