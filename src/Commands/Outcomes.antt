-- ===== src/Commands/Outcomes.antt =====
-- What a command announces of an invoice or a payment, as the engine reports it afterwards
-- (`_announce_invoice` and `_announce_payment` of modules/order_to_cash/service.py).
use baobab_erp.Common.{
  ℕ, String, string_eq, pair_eq, option_eq, Bool, ◌&&◌, Option, none, some, List, Result, ok, err,
}
use baobab_erp.Egress.{TenantScope, Call}
use baobab_erp.Events.{CloudEvent, EnvelopeError}
use baobab_erp.Orders.{
  InvoiceFacts, PaymentFacts, AccountingFactError, invoice_status, payment_status, Advanced,
  Document, advance, order_of_document,
}
use baobab_erp.Commands.Calls.{◌>>=◌, when}
use baobab_erp.Commands.Accounts.{ReadError, fact_error, read_invoice, read_payment}
use baobab_erp.Commands.Notices.{Notice, invoice_changed_event, payment_accounting_event}
use baobab_erp.Commands.Stores.{
  CommandError, not_read, Detail, Ledger, World, Act, ledger, read_ledger, write_ledger, Env,
}
use baobab_erp.Commands.Ledger.{public_id, recorded_event}

-- the facts with the status that they establish, or nothing where ERP did not observe them
abbrev pub Observed : Type 0 → Type 0
Observed F = Option (F × String)

abbrev established : {F : Type 0} → F → Result AccountingFactError String → Observed F
established facts (ok status) = some (facts, status)
established facts (err e) = none

module _ {F N : Type 0} where
  -- `except AccountingFactError: return`
  abbrev pub observed :
      (F → Result AccountingFactError String)
      → Ledger
      → Result ReadError F × N
      → Result CommandError (Observed F) × (Ledger × N)
  observed status_of l (ok facts, n) = (ok (established facts (status_of facts)), (l, n))
  observed status_of l (err fact_error, n) = (ok none, (l, n))
  observed status_of l (err e, n) = (err (not_read e), (l, n))

  abbrev pub read_back :
      (F → Result AccountingFactError String) → Call ReadError N F → Act N (Observed F)
  read_back status_of reading (p, (l, n)) =
      let (r, v) = observed status_of l (reading n) in (r, (p, v))

module _ {N : Type 0} (env : Env N) (scope : TenantScope) where
  abbrev advanced :
      Advanced × List (Document Detail) → World N → Result CommandError Advanced × World N
  advanced (step, outcomes) (p, (l, n)) = (ok step, (p, (record l { outcomes = outcomes }, n)))

  -- `outcomes.advance`
  unfoldable pub advance_document : String → String → String → Detail → ℕ → Act N Advanced
  advance_document document_type document_id status detail now w =
      advanced
        (advance (scope.tenant_id, (document_type, document_id)) status detail now
          (ledger w).outcomes)
        w

  abbrev notice : String → String → String → ℕ → ℕ → Option String → Notice
  notice document_id reference status revision now correlation_id = record {
    tenant_id = scope.tenant_id;
    legal_entity_id = scope.legal_entity_id;
    document_id = document_id;
    reference = reference;
    status = status;
    revision = revision;
    now = now;
    correlation_id = correlation_id;
  }

  abbrev record_notice : Result EnvelopeError CloudEvent → Act N (Unit {0})
  record_notice event = write_ledger λ l. recorded_event env l event

  abbrev pub tell_invoice :
      String → String → Observed InvoiceFacts → Option String → Act N (Unit {0})
  tell_invoice id order_id none correlation_id w = (ok tt, w)
  tell_invoice id order_id (some (facts, status)) correlation_id w =
      (do
        step ←
            advance_document "invoice" id status
              (some facts.number, ((facts.total.amount, facts.total.currency), none)) env.invoice_at
        when step.changed (
            record_notice (
              invoice_changed_event env.notice_texts env.fresh_id
                (notice id order_id status step.revision env.invoice_at correlation_id) facts
                step.first_seen_at)))
        w

  abbrev pub tell_linked :
      Option String → Option String → ℕ → Bool → Option String → Act N (Unit {0})
  tell_linked (some order_id) (some id) native_id allocated correlation_id w =
      (do
        found ←
            read_back (λ f. invoice_status f allocated)
              (read_invoice env.python env.engine.get_record native_id)
        tell_invoice id order_id found correlation_id)
        w
  tell_linked none id native_id allocated correlation_id w = (ok tt, w)
  tell_linked (some order_id) none native_id allocated correlation_id w = (ok tt, w)

  -- `_announce_invoice`
  unfoldable pub announce_invoice : String → ℕ → Bool → Option String → Act N (Unit {0})
  announce_invoice invoice_id native_id allocated correlation_id =
      when (env.has_outcomes && env.has_consequences) (do
        l ← read_ledger
        id ← public_id env scope "CustomerInvoice" invoice_id
        tell_linked (order_of_document scope.tenant_id "CustomerInvoice" invoice_id l.links) id
            native_id allocated correlation_id)

  abbrev pub tell_payment :
      String → String → Option String → Observed PaymentFacts → Option String → Act N (Unit {0})
  tell_payment payment_id id invoice_public_id none correlation_id w = (ok tt, w)
  tell_payment payment_id id invoice_public_id (some (facts, status)) correlation_id w =
      (do
        step ←
            advance_document "payment" payment_id status
              (none, ((facts.amount.amount, facts.amount.currency), invoice_public_id))
              env.payment_at
        when step.changed (
            record_notice (
              payment_accounting_event env.notice_texts env.fresh_id
                (notice payment_id id status step.revision env.payment_at correlation_id) facts
                invoice_public_id)))
        w

  abbrev pub tell_capture :
      Option String → String → ℕ → Option String → Bool → Option String → Act N (Unit {0})
  tell_capture none payment_id native_id invoice_public_id requested correlation_id w = (ok tt, w)
  tell_capture (some id) payment_id native_id invoice_public_id requested correlation_id w =
      (do
        found ←
            read_back (λ f. payment_status f requested)
              (read_payment env.python env.engine.get_record native_id)
        tell_payment payment_id id invoice_public_id found correlation_id)
        w

  -- `_announce_payment`
  unfoldable pub announce_payment :
      String → ℕ → Option String → Bool → Option String → Act N (Unit {0})
  announce_payment payment_id native_id invoice_public_id allocation_requested correlation_id =
      when env.has_outcomes (do
        id ← public_id env scope "Payment" payment_id
        tell_capture id payment_id native_id invoice_public_id allocation_requested correlation_id)
