-- ===== src/Commands/Whole.antt =====
-- Whole commands keep what every statement keeps (Commands/Documents.antt).
use baobab_erp.Common.{ℕ, ◌≡◌, refl, String, Bool, Option, none, some, List, Result, ok, err}
use baobab_erp.Egress.{TenantScope}
use baobab_erp.Orders
use baobab_erp.Orders.{OrderConsequence, OrderLine, Fact, Link, open_order, link_document}
use baobab_erp.Commands.Stores.{Ledger, World, Act, ledger, written, Env, NativeDocumentRef}
use baobab_erp.Commands.Documents.{
  opened, open_consequence, open_when, linked, link, observe_linked, observe_document,
  create_sales_order, complete_sales_order, create_shipment, complete_shipment,
  create_customer_invoice, post_customer_invoice, create_payment, complete_payment,
  announce_allocation, allocate_payment,
}
use baobab_erp.Commands.Requests.{
  Command, new_order, order_done, new_shipment, shipment_done, new_invoice, invoice_posting,
  new_payment, payment_done, allocation, made, done, run,
}
use baobab_erp.Commands.Steps.{
  Steps, Kept, bind-Kept, then-Kept, check-Kept, read_ledger-Kept, when-Kept, create_and_map-Kept,
  execute_process-Kept, resolve_native-Kept, public_id-Kept, deny_native_action-Kept,
  deny_invoice_post-Kept, record_envelope-Kept, announce-Kept, observe-Kept,
}
use baobab_erp.Commands.Announced.{announce_invoice-Kept, announce_payment-Kept}

module _ {N : Type 0} (env : Env N) (scope : TenantScope) (R : Ledger → Ledger → Type 0)
    (steps : Steps env scope R) where
  opened-Kept :
      (order_id : String) (version : ℕ) (erp_id : String) (w : World N)
      (r : Result Orders.StoreError (Option OrderConsequence × Orders.Table))
      → open_order scope.tenant_id scope.legal_entity_id order_id version erp_id env.fact_at
          (ledger w).consequences
        ≡ r
      → R (ledger w) (ledger (opened env scope r w).1)
  opened-Kept order_id version erp_id (p, (l, n)) (ok (entry, t)) h =
      steps.opens l order_id version erp_id entry t h
  opened-Kept order_id version erp_id w (err e) h = steps.same (ledger w)

  open_when-Kept :
      (version : Option ℕ) (order_id : String) (correlation_id : Option String)
      → Kept env scope R (open_when env scope version order_id correlation_id)
  unfolding open_consequence
  open_when-Kept none order_id correlation_id = record { keeps = λ w. steps.same (ledger w) }
  open_when-Kept (some version) order_id correlation_id = record {
    keeps =
        (when-Kept env scope R steps env.has_consequences (
          bind-Kept env scope R steps (public_id-Kept env scope R steps "CommerceOrder" order_id)
            λ found. bind-Kept env scope R steps (check-Kept env scope R steps _) λ erp_id.
              bind-Kept env scope R steps
                (record { keeps = λ w. opened-Kept order_id version erp_id w _ refl })
                λ entry.
                  when-Kept env scope R steps env.has_outbox
                    (announce-Kept env scope R steps entry correlation_id))).keeps;
  }

  linked-Kept :
      (kind id order_id : String) (w : World N) (r : Result Orders.StoreError (Bool × List Link))
      → link_document scope.tenant_id kind id order_id (ledger w).consequences (ledger w).links ≡ r
      → R (ledger w) (ledger (written (linked env scope (ledger w) r) w).1)
  linked-Kept kind id order_id (p, (l, n)) (ok (found, links)) h =
      steps.links l kind id order_id found links h
  linked-Kept kind id order_id w (err e) h = steps.same (ledger w)

  link-Kept : (kind id order_id : String) → Kept env scope R (link env scope kind id order_id)
  unfolding link
  link-Kept kind id order_id = record { keeps = λ w. linked-Kept kind id order_id w _ refl }

  observe_linked-Kept :
      (order_id : Option String) (fact : Fact) (invoice_id : Act N (Option String))
      (correlation_id : Option String)
      → Kept env scope R invoice_id
      → Kept env scope R (observe_linked env scope order_id fact invoice_id correlation_id)
  observe_linked-Kept none fact invoice_id correlation_id kept = record {
    keeps = λ w. steps.same (ledger w);
  }
  observe_linked-Kept (some order_id) fact invoice_id correlation_id kept = record {
    keeps =
        (bind-Kept env scope R steps kept
          λ id. observe-Kept env scope R steps order_id fact id correlation_id).keeps;
  }

  observe_document-Kept :
      (kind id : String) (fact : Fact) (invoice_id : Act N (Option String))
      (correlation_id : Option String)
      → Kept env scope R invoice_id
      → Kept env scope R (observe_document env scope kind id fact invoice_id correlation_id)
  unfolding observe_document
  observe_document-Kept kind id fact invoice_id correlation_id kept =
      bind-Kept env scope R steps (read_ledger-Kept env scope R steps)
        λ l. observe_linked-Kept _ fact invoice_id correlation_id kept

  made-Kept : (act : Act N NativeDocumentRef) → Kept env scope R act → Kept env scope R (made act)
  made-Kept act kept = bind-Kept env scope R steps kept λ ref. check-Kept env scope R steps _

  done-Kept : (act : Act N (Unit {0})) → Kept env scope R act → Kept env scope R (done act)
  done-Kept act kept = then-Kept env scope R steps kept (check-Kept env scope R steps _)

  -- a process of the engine on a resolved document, and its event
  announce_allocation-Kept :
      (payment : String) (payment_id : ℕ) (invoice : String) (invoice_id : ℕ) (correlation : String)
      → Kept env scope R
          (announce_allocation env scope payment payment_id invoice invoice_id correlation)
  unfolding announce_allocation
  announce_allocation-Kept payment payment_id invoice invoice_id correlation =
      bind-Kept env scope R steps (public_id-Kept env scope R steps "CustomerInvoice" invoice) λ id.
        then-Kept env scope R steps
          (announce_payment-Kept env scope R steps payment payment_id id _ _)
          (announce_invoice-Kept env scope R steps invoice invoice_id _ _)

  create_sales_order-Kept :
      (order : String) (partner : ℕ) (currency : String) (lines : List OrderLine)
      (version : Option ℕ) (correlation : Option String)
      → Kept env scope R
          (create_sales_order env scope order partner currency lines version correlation)
  unfolding create_sales_order
  create_sales_order-Kept order partner currency lines version correlation =
      (then-Kept env scope R steps (deny_native_action-Kept env scope R steps _ order) (
        then-Kept env scope R steps (check-Kept env scope R steps _) (
          bind-Kept env scope R steps (create_and_map-Kept env scope R steps _ order _ _) λ ref.
            then-Kept env scope R steps (open_when-Kept version order correlation)
              (check-Kept env scope R steps _))))

  complete_sales_order-Kept :
      (order : String) (correlation : String)
      → Kept env scope R (complete_sales_order env scope order correlation)
  unfolding complete_sales_order
  complete_sales_order-Kept order correlation =
      (then-Kept env scope R steps (deny_native_action-Kept env scope R steps _ order) (
        bind-Kept env scope R steps (resolve_native-Kept env scope R steps _ order _) λ id.
          bind-Kept env scope R steps (execute_process-Kept env scope R steps _ _) λ _.
            then-Kept env scope R steps (record_envelope-Kept env scope R steps _ correlation _) (
              when-Kept env scope R steps env.has_consequences
                (observe-Kept env scope R steps order _ _ _))))

  create_shipment-Kept :
      (shipment : String) (order : String)
      → Kept env scope R (create_shipment env scope shipment order)
  unfolding create_shipment
  create_shipment-Kept shipment order =
      (then-Kept env scope R steps (deny_native_action-Kept env scope R steps _ shipment) (
        bind-Kept env scope R steps (resolve_native-Kept env scope R steps _ order _) λ id.
          bind-Kept env scope R steps (create_and_map-Kept env scope R steps _ shipment _ _) λ ref.
            then-Kept env scope R steps
              (when-Kept env scope R steps env.has_consequences (link-Kept _ shipment order))
              (check-Kept env scope R steps _)))

  complete_shipment-Kept :
      (shipment : String) (correlation : String)
      → Kept env scope R (complete_shipment env scope shipment correlation)
  unfolding complete_shipment
  complete_shipment-Kept shipment correlation =
      (then-Kept env scope R steps (deny_native_action-Kept env scope R steps _ shipment) (
        bind-Kept env scope R steps (resolve_native-Kept env scope R steps _ shipment _) λ id.
          bind-Kept env scope R steps (execute_process-Kept env scope R steps _ _) λ _.
            then-Kept env scope R steps (record_envelope-Kept env scope R steps _ correlation _) (
              when-Kept env scope R steps env.has_consequences
                (observe_document-Kept _ shipment _ _ _ (check-Kept env scope R steps _)))))

  create_customer_invoice-Kept :
      (order : String) → Kept env scope R (create_customer_invoice env scope order)
  unfolding create_customer_invoice
  create_customer_invoice-Kept order =
      (then-Kept env scope R steps (deny_native_action-Kept env scope R steps _ order) (
        bind-Kept env scope R steps (resolve_native-Kept env scope R steps _ order _) λ id.
          bind-Kept env scope R steps (create_and_map-Kept env scope R steps _ _ _ _) λ ref.
            then-Kept env scope R steps
              (when-Kept env scope R steps env.has_consequences
                (link-Kept _ ref.canonical_id order))
              (check-Kept env scope R steps _)))

  post_customer_invoice-Kept :
      (invoice : String) (correlation : String)
      → Kept env scope R (post_customer_invoice env scope invoice correlation)
  unfolding post_customer_invoice
  post_customer_invoice-Kept invoice correlation =
      (then-Kept env scope R steps (deny_invoice_post-Kept env scope R steps invoice) (
        bind-Kept env scope R steps (resolve_native-Kept env scope R steps _ invoice _) λ id.
          bind-Kept env scope R steps (execute_process-Kept env scope R steps _ _) λ _.
            then-Kept env scope R steps (record_envelope-Kept env scope R steps _ correlation _) (
              then-Kept env scope R steps
                (when-Kept env scope R steps env.has_consequences (
                  observe_document-Kept _ invoice _ _ _
                    (public_id-Kept env scope R steps "CustomerInvoice" invoice)))
                (announce_invoice-Kept env scope R steps invoice id _ _))))

  create_payment-Kept :
      (payment : String) (partner : ℕ) (amount : String) (currency : String)
      → Kept env scope R (create_payment env scope payment partner amount currency)
  unfolding create_payment
  create_payment-Kept payment partner amount currency =
      (then-Kept env scope R steps (deny_native_action-Kept env scope R steps _ payment)
        (create_and_map-Kept env scope R steps _ payment _ _))

  complete_payment-Kept :
      (payment : String) (correlation : String)
      → Kept env scope R (complete_payment env scope payment correlation)
  unfolding complete_payment
  complete_payment-Kept payment correlation =
      (then-Kept env scope R steps (deny_native_action-Kept env scope R steps _ payment) (
        bind-Kept env scope R steps (resolve_native-Kept env scope R steps _ payment _) λ id.
          bind-Kept env scope R steps (execute_process-Kept env scope R steps _ _) λ _.
            then-Kept env scope R steps (record_envelope-Kept env scope R steps _ correlation _)
              (announce_payment-Kept env scope R steps payment id _ _ _)))

  allocate_payment-Kept :
      (payment : String) (invoice : String) (amount : String) (correlation : String)
      → Kept env scope R (allocate_payment env scope payment invoice amount correlation)
  unfolding allocate_payment
  allocate_payment-Kept payment invoice amount correlation =
      (then-Kept env scope R steps (deny_native_action-Kept env scope R steps _ _) (
        bind-Kept env scope R steps (resolve_native-Kept env scope R steps _ payment _)
          λ payment_id.
            bind-Kept env scope R steps (resolve_native-Kept env scope R steps _ invoice _)
              λ invoice_id.
                bind-Kept env scope R steps (execute_process-Kept env scope R steps _ _) λ _.
                  then-Kept env scope R steps
                    (record_envelope-Kept env scope R steps _ correlation _)
                    (when-Kept env scope R steps env.has_outcomes (
                      announce_allocation-Kept payment payment_id invoice invoice_id correlation))))

  -- A relation of ledgers that every statement keeps is kept by every command, however it ends.
  pub run-Kept : (c : Command) → Kept env scope R (run env scope c)
  unfolding run
  run-Kept (new_order order partner currency lines version correlation) =
      made-Kept _ (create_sales_order-Kept order partner currency lines version correlation)
  run-Kept (order_done order correlation) =
      done-Kept _ (complete_sales_order-Kept order correlation)
  run-Kept (new_shipment shipment order) = made-Kept _ (create_shipment-Kept shipment order)
  run-Kept (shipment_done shipment correlation) =
      done-Kept _ (complete_shipment-Kept shipment correlation)
  run-Kept (new_invoice order) = made-Kept _ (create_customer_invoice-Kept order)
  run-Kept (invoice_posting invoice correlation) =
      done-Kept _ (post_customer_invoice-Kept invoice correlation)
  run-Kept (new_payment payment partner amount currency) =
      made-Kept _ (create_payment-Kept payment partner amount currency)
  run-Kept (payment_done payment correlation) =
      done-Kept _ (complete_payment-Kept payment correlation)
  run-Kept (allocation payment invoice amount correlation) =
      done-Kept _ (allocate_payment-Kept payment invoice amount correlation)
