-- ===== src/Commands/Documents.antt =====
-- The commands on sales orders, shipments, invoices and payments (modules/order_to_cash/service.py).
use baobab_erp.Common.{
  ℕ, String, string_eq, pair_eq, option_eq, ◌<>◌, Bool, true, false, Option, none, some, List,
  is_empty, Result, ok, err, or_raise, raise_if,
}
use baobab_erp.Json.{Value, Fields, int, text, obj, field, end}
use baobab_erp.Egress.{TenantScope}
use baobab_erp.Orders.{
  OrderLine, sales_order_fields, open_order, OrderConsequence, order_completed, shipment_completed,
  invoice_posted, link_document, order_of_document,
}
use baobab_erp.Orders
use baobab_erp.Commands.Calls.{◌>>=◌, ◌>>◌, give, check, when}
use baobab_erp.Commands.Stores.{
  CommandError, no_lines, no_resource_id, Ledger, World, Act, ledger, read_ledger, write_ledger,
  Env, NativeDocumentRef, not_stored,
}
use baobab_erp.Commands.Ledger.{
  deny_native_action, deny_invoice_post, create_and_map, execute_process, resolve_native, public_id,
  record_envelope, announce, observe,
}
use baobab_erp.Commands.Outcomes.{announce_invoice, announce_payment}

-- the parameters of a process that completes a document
abbrev complete : String → ℕ → Fields
complete key native_id = field key (int native_id) (field "DocAction" (text "CO") end)

-- the payload of an event on a document
abbrev facts : String → String → String → ℕ → Value
facts key canonical_id native_key native_id =
    obj (field key (text canonical_id) (field native_key (int native_id) end))

module _ {N : Type 0} (env : Env N) (scope : TenantScope) where
  abbrev pub opened :
      Result Orders.StoreError (Option OrderConsequence × Orders.Table)
      → World N
      → Result CommandError (Option OrderConsequence) × World N
  opened (ok (r, t)) (p, (l, n)) = (ok r, (p, (record l { consequences = t }, n)))
  opened (err e) w = (err (not_stored e), w)

  -- the record that a new order opens, and its announcement where there is an outbox
  unfoldable pub open_consequence : String → ℕ → Option String → Act N (Unit {0})
  open_consequence order_id order_version correlation_id = do
    found ← public_id env scope "CommerceOrder" order_id
    erp_order_id ← check (or_raise found no_resource_id)
    entry ← λ w.
        opened
          (open_order scope.tenant_id scope.legal_entity_id order_id order_version erp_order_id
            env.fact_at (ledger w).consequences)
          w
    when env.has_outbox (announce env entry correlation_id)

  abbrev pub open_when : Option ℕ → String → Option String → Act N (Unit {0})
  open_when none order_id correlation_id w = (ok tt, w)
  open_when (some order_version) order_id correlation_id w =
      when env.has_consequences (open_consequence order_id order_version correlation_id) w

  abbrev pub linked :
      Ledger → Result Orders.StoreError (Bool × List Orders.Link) → Result CommandError Ledger
  linked l (ok (done, links)) = ok (record l { links = links })
  linked l (err e) = err (not_stored e)

  -- `consequences.link_document`
  unfoldable pub link : String → String → String → Act N (Unit {0})
  link document_type document_id order_id = write_ledger λ l.
      linked l
        (link_document scope.tenant_id document_type document_id order_id l.consequences l.links)

  abbrev pub observe_linked :
      Option String → Orders.Fact → Act N (Option String) → Option String → Act N (Unit {0})
  observe_linked none fact invoice_id correlation_id w = (ok tt, w)
  observe_linked (some order_id) fact invoice_id correlation_id w =
      (do id ← invoice_id; observe env scope order_id fact id correlation_id) w

  -- the fact of a document, for the order that it is linked to
  unfoldable pub observe_document :
      String → String → Orders.Fact → Act N (Option String) → Option String → Act N (Unit {0})
  observe_document document_type document_id fact invoice_id correlation_id = do
    l ← read_ledger
    observe_linked (order_of_document scope.tenant_id document_type document_id l.links) fact
        invoice_id correlation_id

  unfoldable pub create_sales_order :
      String → ℕ → String → List OrderLine → Option ℕ → Option String → Act N NativeDocumentRef
  create_sales_order order_id partner currency lines order_version correlation_id = do
    deny_native_action env scope "create_sales_order" order_id
    check (raise_if (is_empty lines) no_lines)
    ref ←
        create_and_map env scope "CommerceOrder" order_id "C_Order"
          (sales_order_fields partner currency lines (some order_id))
    open_when order_version order_id correlation_id
    give ref

  unfoldable pub complete_sales_order : String → String → Act N (Unit {0})
  complete_sales_order order_id correlation_id = do
    deny_native_action env scope "complete_sales_order" order_id
    native_id ← resolve_native env scope "CommerceOrder" order_id "C_Order"
    _ ← execute_process env env.process_ids.complete_sales_order (complete "C_Order_ID" native_id)
    record_envelope env "erp.sales-order.accepted.v1" scope correlation_id
        (facts "commerce_order_id" order_id "erp_order_native_id" native_id)
    when env.has_consequences
        (observe env scope order_id order_completed none (some correlation_id))

  unfoldable pub create_shipment : String → String → Act N NativeDocumentRef
  create_shipment shipment_id order_id = do
    deny_native_action env scope "create_shipment" shipment_id
    order_native_id ← resolve_native env scope "CommerceOrder" order_id "C_Order"
    ref ←
        create_and_map env scope "GoodsShipment" shipment_id "M_InOut"
          (field "C_Order_ID" (int order_native_id) end)
    when env.has_consequences (link "GoodsShipment" shipment_id order_id)
    give ref

  unfoldable pub complete_shipment : String → String → Act N (Unit {0})
  complete_shipment shipment_id correlation_id = do
    deny_native_action env scope "complete_shipment" shipment_id
    native_id ← resolve_native env scope "GoodsShipment" shipment_id "M_InOut"
    _ ← execute_process env env.process_ids.complete_shipment (complete "M_InOut_ID" native_id)
    record_envelope env "erp.goods-shipment.completed.v1" scope correlation_id
        (facts "shipment_id" shipment_id "erp_shipment_native_id" native_id)
    when env.has_consequences (
        observe_document "GoodsShipment" shipment_id shipment_completed (give none)
          (some correlation_id))

  -- the canonical id of an invoice is minted here
  unfoldable pub create_customer_invoice : String → Act N NativeDocumentRef
  create_customer_invoice order_id = do
    deny_native_action env scope "create_customer_invoice" order_id
    order_native_id ← resolve_native env scope "CommerceOrder" order_id "C_Order"
    ref ←
        create_and_map env scope "CustomerInvoice" env.new_canonical_id "C_Invoice"
          (field "C_Order_ID" (int order_native_id) end)
    when env.has_consequences (link "CustomerInvoice" ref.canonical_id order_id)
    give ref

  unfoldable pub post_customer_invoice : String → String → Act N (Unit {0})
  post_customer_invoice invoice_id correlation_id = do
    deny_invoice_post env scope invoice_id
    native_id ← resolve_native env scope "CustomerInvoice" invoice_id "C_Invoice"
    _ ←
        execute_process env env.process_ids.post_customer_invoice
          (complete "C_Invoice_ID" native_id)
    record_envelope env "erp.customer-invoice.posted.v1" scope correlation_id
        (facts "invoice_id" invoice_id "erp_invoice_native_id" native_id)
    when env.has_consequences (
        observe_document "CustomerInvoice" invoice_id invoice_posted
          (public_id env scope "CustomerInvoice" invoice_id) (some correlation_id))
    announce_invoice env scope invoice_id native_id false (some correlation_id)

  unfoldable pub create_payment : String → ℕ → String → String → Act N NativeDocumentRef
  create_payment payment_id partner amount currency = do
    deny_native_action env scope "create_payment" payment_id
    create_and_map env scope "Payment" payment_id "C_Payment" (
        field "C_BPartner_ID" (int partner)
          (field "PayAmt" (text amount) (field "CurrencyISO" (text currency) end)))

  unfoldable pub complete_payment : String → String → Act N (Unit {0})
  complete_payment payment_id correlation_id = do
    deny_native_action env scope "complete_payment" payment_id
    native_id ← resolve_native env scope "Payment" payment_id "C_Payment"
    _ ← execute_process env env.process_ids.complete_payment (complete "C_Payment_ID" native_id)
    record_envelope env "erp.payment.completed.v1" scope correlation_id
        (facts "payment_id" payment_id "erp_payment_native_id" native_id)
    announce_payment env scope payment_id native_id none false (some correlation_id)

  -- both documents of an allocation
  unfoldable pub announce_allocation : String → ℕ → String → ℕ → String → Act N (Unit {0})
  announce_allocation payment_id payment_native_id invoice_id invoice_native_id correlation_id = do
    invoice_public_id ← public_id env scope "CustomerInvoice" invoice_id
    announce_payment env scope payment_id payment_native_id invoice_public_id true
        (some correlation_id)
    announce_invoice env scope invoice_id invoice_native_id true (some correlation_id)

  unfoldable pub allocate_payment : String → String → String → String → Act N (Unit {0})
  allocate_payment payment_id invoice_id amount correlation_id = do
    deny_native_action env scope "allocate_payment" (payment_id <> (":" <> invoice_id))
    payment_native_id ← resolve_native env scope "Payment" payment_id "C_Payment"
    invoice_native_id ← resolve_native env scope "CustomerInvoice" invoice_id "C_Invoice"
    _ ← execute_process env env.process_ids.allocate_payment (
        field "C_Payment_ID" (int payment_native_id)
          (field "C_Invoice_ID" (int invoice_native_id) (field "Amount" (text amount) end)))
    record_envelope env "erp.payment.allocated.v1" scope correlation_id (
        obj (
          field "payment_id" (text payment_id)
            (field "invoice_id" (text invoice_id) (field "amount" (text amount) end))))
    when env.has_outcomes (
        announce_allocation payment_id payment_native_id invoice_id invoice_native_id
          correlation_id)
