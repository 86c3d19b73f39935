-- ===== src/Execution/Announcement.antt =====
-- The event that announces a change of the order-consequence record
-- (modules/order_to_cash/consequence_events.py) and the record's document (`to_contract` of
-- modules/order_to_cash/consequence.py).
use baobab_erp.Common.{ℕ, String, ◌<>◌, Option, none, some, Result, ok, ◌>>=◌}
use baobab_erp.Json.{Value, Fields, int, text, obj, end, field}
use baobab_erp.Events.{CloudEvent, EnvelopeError, new_event}
use baobab_erp.Orders.{OrderConsequence}

-- `uuid5` on the texts that the source builds, the reading of a UUID, numbers as texts, and the time
-- format of a document
pub record Texts : Type 0 where
  pub event_uuid : String → String → ℕ → String
  pub correlation_uuid5 : String → String → String
  pub uuid : String → Option String
  pub decimal : ℕ → String
  pub iso : ℕ → String

abbrev pub consequence_event_type : String
consequence_event_type = "com.baobab-platform.erp.order.consequence-changed.v1"

abbrev with_text : String → Option String → Fields → Fields
with_text name none fs = fs
with_text name (some v) fs = field name (text v) fs

module _ (texts : Texts) where
  -- `correlation_uuid`
  abbrev pub or_derived : String → String → Option String → String
  or_derived tenant_id commerce_order_id none = texts.correlation_uuid5 tenant_id commerce_order_id
  or_derived tenant_id commerce_order_id (some id) = id

  unfoldable pub correlation_uuid : String → String → Option String → String
  correlation_uuid tenant_id commerce_order_id none =
      or_derived tenant_id commerce_order_id (texts.uuid "None")
  correlation_uuid tenant_id commerce_order_id (some supplied) =
      or_derived tenant_id commerce_order_id (texts.uuid supplied)

  -- `to_contract`
  unfoldable pub to_contract : OrderConsequence → Value
  to_contract r = obj (
      field "legal_entity_id" (text r.legal_entity_id) (
        field "commerce_order_id" (text r.commerce_order_id) (
          field "order_version" (int r.order_version) (
            field "erp_order_id" (text r.erp_order_id) (
              field "status" (text r.status) (
                field "accounting_status" (text r.accounting_status) (
                  field "inventory_status" (text r.inventory_status) (
                    field "revision" (int r.revision) (
                      field "updated_at" (text (texts.iso r.updated_at)) (
                        with_text "invoice_id" r.invoice_id
                          (with_text "exception_code" r.exception_code end)))))))))))

  -- `consequence_changed_event`; `fresh_id` is the id that `new_event` draws, which is replaced
  unfoldable pub consequence_changed_event :
      String → OrderConsequence → Option String → Result EnvelopeError CloudEvent
  unfolding correlation_uuid to_contract
  consequence_changed_event fresh_id r correlation_id = do
    event ← new_event (record {
      fresh_id = fresh_id;
      event_type = consequence_event_type;
      event_subject = "order:" <> r.commerce_order_id;
      correlation_id = correlation_uuid r.tenant_id r.commerce_order_id correlation_id;
      payload = to_contract r;
      tenant_id = some r.tenant_id;
      causation_id = none;
      idempotency_key =
          some (
            "erp-order-consequence-"
            <> (r.commerce_order_id <> ("-r" <> texts.decimal r.revision)));
      trace = none;
      at = r.updated_at;
    })
    ok (record event { id = texts.event_uuid r.tenant_id r.commerce_order_id r.revision })
