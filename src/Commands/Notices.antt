-- ===== src/Commands/Notices.antt =====
-- The events of invoices and payments (`invoice_changed_event` and `payment_accounting_event` of
-- modules/order_to_cash/accounting_outcomes.py).
use baobab_erp.Common.{ℕ, String, ◌<>◌, Option, none, some, Result, ok, ◌>>=◌}
use baobab_erp.Json.{Value, Fields, int, text, obj, end, field}
use baobab_erp.Events.{CloudEvent, EnvelopeError, new_event}
use baobab_erp.Orders.{Money, InvoiceFacts, PaymentFacts}

-- `uuid5` in the namespace of the source, the reading of a UUID, numbers as texts, and `_stamp`
pub record NoticeTexts : Type 0 where
  pub uuid5 : String → String
  pub uuid : String → Option String
  pub decimal : ℕ → String
  pub stamp : ℕ → String

abbrev pub invoice_event : String
invoice_event = "com.baobab-platform.erp.invoice.changed.v1"

abbrev pub payment_event : String
payment_event = "com.baobab-platform.erp.payment.accounting-changed.v1"

-- `Money.contract`
abbrev contract : Money → Value
contract m = obj (field "amount" (text m.amount) (field "currency" (text m.currency) end))

-- the document, the order or capture it is for, and what changed
pub record Notice : Type 0 where
  pub tenant_id : String
  pub legal_entity_id : String
  pub document_id : String
  pub reference : String
  pub status : String
  pub revision : ℕ
  pub now : ℕ
  pub correlation_id : Option String

module _ (texts : NoticeTexts) where
  abbrev or_derived : String → String → Option String → String
  or_derived tenant_id document_id none =
      texts.uuid5 ("correlation|" <> (tenant_id <> ("|" <> document_id)))
  or_derived tenant_id document_id (some id) = id

  -- `_correlation`
  unfoldable pub correlation : String → String → Option String → String
  correlation tenant_id document_id none = or_derived tenant_id document_id (texts.uuid "None")
  correlation tenant_id document_id (some supplied) =
      or_derived tenant_id document_id (texts.uuid supplied)

  abbrev numbered : String → String → ℕ → String
  numbered prefix id revision = prefix <> (id <> ("-r" <> texts.decimal revision))

  abbrev event_id : String → String → String → ℕ → String
  event_id kind tenant_id document_id revision =
      texts.uuid5
        (kind <> ("|" <> (tenant_id <> ("|" <> (document_id <> ("|" <> texts.decimal revision))))))

  -- `invoice_changed_event`, of the invoice `document_id` for the order `reference`
  unfoldable pub invoice_changed_event :
      String → Notice → InvoiceFacts → ℕ → Result EnvelopeError CloudEvent
  unfolding correlation
  invoice_changed_event fresh_id n facts issued_at = do
    event ← new_event (record {
      fresh_id = fresh_id;
      event_type = invoice_event;
      event_subject = "invoice:" <> n.document_id;
      correlation_id = correlation n.tenant_id n.reference n.correlation_id;
      payload = obj (
          field "legal_entity_id" (text n.legal_entity_id) (
            field "invoice_id" (text n.document_id) (
              field "invoice_number" (text facts.number) (
                field "commerce_order_id" (text n.reference) (
                  field "status" (text n.status) (
                    field "total" (contract facts.total) (
                      field "issued_at" (text (texts.stamp issued_at))
                        (field "revision" (int n.revision) end))))))));
      tenant_id = some n.tenant_id;
      causation_id = none;
      idempotency_key = some (numbered "erp-invoice-" n.document_id n.revision);
      trace = none;
      at = n.now;
    })
    ok (record event { id = event_id "invoice" n.tenant_id n.document_id n.revision })

  abbrev invoice_field : Option String → Fields
  invoice_field none = end
  invoice_field (some id) = field "invoice_id" (text id) end

  -- `payment_accounting_event`, of the capture `document_id` with the public id `reference`
  unfoldable pub payment_accounting_event :
      String → Notice → PaymentFacts → Option String → Result EnvelopeError CloudEvent
  unfolding correlation
  payment_accounting_event fresh_id n facts invoice_id = do
    event ← new_event (record {
      fresh_id = fresh_id;
      event_type = payment_event;
      event_subject = "payment:" <> n.document_id;
      correlation_id = correlation n.tenant_id n.document_id n.correlation_id;
      payload = obj (
          field "legal_entity_id" (text n.legal_entity_id) (
            field "payment_capture_id" (text n.document_id) (
              field "erp_payment_id" (text n.reference) (
                field "status" (text n.status) (
                  field "amount" (contract facts.amount) (
                    field "accounted_at" (text (texts.stamp n.now))
                      (field "revision" (int n.revision) (invoice_field invoice_id))))))));
      tenant_id = some n.tenant_id;
      causation_id = none;
      idempotency_key = some (numbered "erp-payment-" n.document_id n.revision);
      trace = none;
      at = n.now;
    })
    ok (record event { id = event_id "payment" n.tenant_id n.document_id n.revision })
