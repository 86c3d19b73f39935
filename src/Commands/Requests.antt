-- ===== src/Commands/Requests.antt =====
-- Every command with its arguments, as the request handlers of modules/application/server.py call them.
use baobab_erp.Common.{ℕ, String, ◌<>◌, Bool, Option, none, some, List}
use baobab_erp.Egress.{TenantScope, Permits, native_action_allowed, invoice_post_allowed}
use baobab_erp.Orders.{OrderLine}
use baobab_erp.Commands.Calls.{◌>>=◌, ◌>>◌, give}
use baobab_erp.Commands.Stores.{Act, Env, NativeDocumentRef}
use baobab_erp.Commands.Documents.{
  create_sales_order, complete_sales_order, create_shipment, complete_shipment,
  create_customer_invoice, post_customer_invoice, create_payment, complete_payment,
  allocate_payment,
}

pub data Command : Type 0 where
  new_order : String → ℕ → String → List OrderLine → Option ℕ → Option String → Command
  order_done : String → String → Command
  new_shipment : String → String → Command
  shipment_done : String → String → Command
  new_invoice : String → Command
  invoice_posting : String → String → Command
  new_payment : String → ℕ → String → String → Command
  payment_done : String → String → Command
  allocation : String → String → String → String → Command

module _ {N : Type 0} where
  abbrev pub made : Act N NativeDocumentRef → Act N (Option NativeDocumentRef)
  made act = do ref ← act; give (some ref)

  abbrev pub done : Act N (Unit {0}) → Act N (Option NativeDocumentRef)
  done act = do act; give none

module _ {N : Type 0} (env : Env N) (scope : TenantScope) where
  unfoldable pub run : Command → Act N (Option NativeDocumentRef)
  run (new_order order partner currency lines version correlation) =
      made (create_sales_order env scope order partner currency lines version correlation)
  run (order_done order correlation) = done (complete_sales_order env scope order correlation)
  run (new_shipment shipment order) = made (create_shipment env scope shipment order)
  run (shipment_done shipment correlation) = done (complete_shipment env scope shipment correlation)
  run (new_invoice order) = made (create_customer_invoice env scope order)
  run (invoice_posting invoice correlation) =
      done (post_customer_invoice env scope invoice correlation)
  run (new_payment payment partner amount currency) =
      made (create_payment env scope payment partner amount currency)
  run (payment_done payment correlation) = done (complete_payment env scope payment correlation)
  run (allocation payment invoice amount correlation) =
      done (allocate_payment env scope payment invoice amount correlation)

  -- the running task has the permit of the very command
  unfoldable pub is_permitted : Command → Permits → Bool
  is_permitted (new_order order partner currency lines version correlation) =
      native_action_allowed env.protected scope "create_sales_order" order
  is_permitted (order_done order correlation) =
      native_action_allowed env.protected scope "complete_sales_order" order
  is_permitted (new_shipment shipment order) =
      native_action_allowed env.protected scope "create_shipment" shipment
  is_permitted (shipment_done shipment correlation) =
      native_action_allowed env.protected scope "complete_shipment" shipment
  is_permitted (new_invoice order) =
      native_action_allowed env.protected scope "create_customer_invoice" order
  is_permitted (invoice_posting invoice correlation) =
      invoice_post_allowed env.protected scope invoice
  is_permitted (new_payment payment partner amount currency) =
      native_action_allowed env.protected scope "create_payment" payment
  is_permitted (payment_done payment correlation) =
      native_action_allowed env.protected scope "complete_payment" payment
  is_permitted (allocation payment invoice amount correlation) =
      native_action_allowed env.protected scope "allocate_payment" (payment <> (":" <> invoice))
