-- ===== src/Commands/Announced.antt =====
-- What commands announce of invoices and payments keeps what every statement keeps
-- (Commands/Outcomes.antt).
use baobab_erp.Common.{ℕ, String, Bool, Option, none, some, ◌&&◌, Result, ok, err}
use baobab_erp.Egress.{TenantScope, Call}
use baobab_erp.Orders.{AccountingFactError, InvoiceFacts, PaymentFacts}
use baobab_erp.Commands.Accounts.{
  ReadError, fact_error, not_read, not_quantized, read_invoice, read_payment,
}
use baobab_erp.Commands.Stores.{Detail, Ledger, ledger, Env}
use baobab_erp.Commands.Outcomes.{
  Observed, observed, read_back, advance_document, tell_invoice, tell_linked, announce_invoice,
  tell_payment, tell_capture, announce_payment,
}
use baobab_erp.Commands.Steps.{
  Steps, Kept, bind-Kept, when-Kept, read_ledger-Kept, public_id-Kept, recorded_event-Kept,
}

module _ {N : Type 0} (env : Env N) (scope : TenantScope) (R : Ledger → Ledger → Type 0)
    (steps : Steps env scope R) where
  observed-Kept :
      {F : Type 0} (status_of : F → Result AccountingFactError String) (l : Ledger)
      (r : Result ReadError F × N)
      → R l (observed status_of l r).1.0
  observed-Kept status_of l (ok facts, n) = steps.same l
  observed-Kept status_of l (err fact_error, n) = steps.same l
  observed-Kept status_of l (err (not_read e), n) = steps.same l
  observed-Kept status_of l (err not_quantized, n) = steps.same l

  read_back-Kept :
      {F : Type 0} (status_of : F → Result AccountingFactError String)
      (reading : Call ReadError N F)
      → Kept env scope R (read_back status_of reading)
  read_back-Kept status_of reading = record {
    keeps = λ (p, (l, n)). observed-Kept status_of l (reading n);
  }

  advance_document-Kept :
      (kind id status : String) (detail : Detail) (now : ℕ)
      → Kept env scope R (advance_document env scope kind id status detail now)
  unfolding advance_document
  advance_document-Kept kind id status detail now = record {
    keeps = λ w. steps.advances (ledger w) kind id status detail now;
  }

  tell_invoice-Kept :
      (id order_id : String) (found : Observed InvoiceFacts) (correlation_id : Option String)
      → Kept env scope R (tell_invoice env scope id order_id found correlation_id)
  tell_invoice-Kept id order_id none correlation_id = record { keeps = λ w. steps.same (ledger w) }
  tell_invoice-Kept id order_id (some (facts, status)) correlation_id = record {
    keeps =
        (bind-Kept env scope R steps (advance_document-Kept "invoice" id status _ env.invoice_at)
          λ step.
            when-Kept env scope R steps step.changed
              (recorded_event-Kept env scope R steps _)).keeps;
  }

  tell_linked-Kept :
      (order_id id : Option String) (native_id : ℕ) (allocated : Bool)
      (correlation_id : Option String)
      → Kept env scope R (tell_linked env scope order_id id native_id allocated correlation_id)
  tell_linked-Kept (some order_id) (some id) native_id allocated correlation_id = record {
    keeps =
        (bind-Kept env scope R steps
          (read_back-Kept _ (read_invoice env.python env.engine.get_record native_id))
          λ found. tell_invoice-Kept id order_id found correlation_id).keeps;
  }
  tell_linked-Kept none id native_id allocated correlation_id = record {
    keeps = λ w. steps.same (ledger w);
  }
  tell_linked-Kept (some order_id) none native_id allocated correlation_id = record {
    keeps = λ w. steps.same (ledger w);
  }

  pub announce_invoice-Kept :
      (invoice_id : String) (native_id : ℕ) (allocated : Bool) (correlation_id : Option String)
      → Kept env scope R (announce_invoice env scope invoice_id native_id allocated correlation_id)
  unfolding announce_invoice
  announce_invoice-Kept invoice_id native_id allocated correlation_id =
      when-Kept env scope R steps (env.has_outcomes && env.has_consequences) (
        bind-Kept env scope R steps (read_ledger-Kept env scope R steps) λ l.
          bind-Kept env scope R steps
            (public_id-Kept env scope R steps "CustomerInvoice" invoice_id)
            λ id. tell_linked-Kept _ id native_id allocated correlation_id)

  tell_payment-Kept :
      (payment_id id : String) (invoice_id : Option String) (found : Observed PaymentFacts)
      (correlation_id : Option String)
      → Kept env scope R (tell_payment env scope payment_id id invoice_id found correlation_id)
  tell_payment-Kept payment_id id invoice_id none correlation_id = record {
    keeps = λ w. steps.same (ledger w);
  }
  tell_payment-Kept payment_id id invoice_id (some (facts, status)) correlation_id = record {
    keeps =
        (bind-Kept env scope R steps
          (advance_document-Kept "payment" payment_id status _ env.payment_at)
          λ step.
            when-Kept env scope R steps step.changed
              (recorded_event-Kept env scope R steps _)).keeps;
  }

  tell_capture-Kept :
      (id : Option String) (payment_id : String) (native_id : ℕ) (invoice_id : Option String)
      (requested : Bool) (correlation_id : Option String)
      → Kept env scope R
          (tell_capture env scope id payment_id native_id invoice_id requested correlation_id)
  tell_capture-Kept none payment_id native_id invoice_id requested correlation_id = record {
    keeps = λ w. steps.same (ledger w);
  }
  tell_capture-Kept (some id) payment_id native_id invoice_id requested correlation_id = record {
    keeps =
        (bind-Kept env scope R steps
          (read_back-Kept _ (read_payment env.python env.engine.get_record native_id))
          λ found. tell_payment-Kept payment_id id invoice_id found correlation_id).keeps;
  }

  pub announce_payment-Kept :
      (payment_id : String) (native_id : ℕ) (invoice_id : Option String) (requested : Bool)
      (correlation_id : Option String)
      → Kept env scope R
          (announce_payment env scope payment_id native_id invoice_id requested correlation_id)
  unfolding announce_payment
  announce_payment-Kept payment_id native_id invoice_id requested correlation_id =
      when-Kept env scope R steps env.has_outcomes (
        bind-Kept env scope R steps (public_id-Kept env scope R steps "Payment" payment_id)
          λ id. tell_capture-Kept id payment_id native_id invoice_id requested correlation_id)
