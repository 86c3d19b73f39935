-- ===== src/Commands/Denials.antt =====
-- Commands without their permit (Commands/Documents.antt).
use baobab_erp.Common.{◌≡◌, refl, false, err}
use baobab_erp.Egress.{TenantScope, Permits}
use baobab_erp.Commands.Calls.{◌>>=◌, ◌>>◌}
use baobab_erp.Commands.Stores.{not_permitted, Ledger, Env}
use baobab_erp.Commands.Ledger.{deny_native_action, deny_invoice_post}
use baobab_erp.Commands.Documents.{
  create_sales_order, complete_sales_order, create_shipment, complete_shipment,
  create_customer_invoice, post_customer_invoice, create_payment, complete_payment,
  allocate_payment,
}
use baobab_erp.Commands.Requests.{
  Command, new_order, order_done, new_shipment, shipment_done, new_invoice, invoice_posting,
  new_payment, payment_done, allocation, run, is_permitted,
}

module _ {N : Type 0} (env : Env N) (scope : TenantScope) where
  -- In a protected runtime a command that has not its own permit is refused before it reads, writes or
  -- calls the engine: the permits, the stores and the engine are as they were.
  pub run-denied :
      (c : Command) (p : Permits) (v : Ledger × N)
      → is_permitted env scope c p ≡ false
      → run env scope c (p, v) ≡ (err not_permitted, (p, v))
  unfolding ◌>>=◌ ◌>>◌ run is_permitted deny_native_action deny_invoice_post create_sales_order
      complete_sales_order create_shipment complete_shipment create_customer_invoice
      post_customer_invoice create_payment complete_payment allocate_payment
  run-denied (new_order order partner currency lines version correlation) p v h = rw h refl
  run-denied (order_done order correlation) p v h = rw h refl
  run-denied (new_shipment shipment order) p v h = rw h refl
  run-denied (shipment_done shipment correlation) p v h = rw h refl
  run-denied (new_invoice order) p v h = rw h refl
  run-denied (invoice_posting invoice correlation) p v h = rw h refl
  run-denied (new_payment payment partner amount currency) p v h = rw h refl
  run-denied (payment_done payment correlation) p v h = rw h refl
  run-denied (allocation payment invoice amount correlation) p v h = rw h refl
