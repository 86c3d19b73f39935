-- ===== src/Commands/Ledger.antt =====
-- The steps that commands share (modules/order_to_cash/service.py).
use baobab_erp.Common.{
  ℕ, String, string_eq, pair_eq, option_eq, ◌<>◌, not, Option, none, some, ◌==◌, Result, ok, err,
  or_raise, raise_if, if◌then◌else◌,
}
use baobab_erp.Json.{Value, Fields}
use baobab_erp.Egress.{
  TenantScope, request_for, with_request, native_action_allowed, invoice_post_allowed,
}
use baobab_erp.Events.{CloudEvent, EnvelopeError}
use baobab_erp.Orders
use baobab_erp.Orders.{
  OrderConsequence, Fact, Recorded, record_fact, Link, Document, order_of_document,
}
use baobab_erp.Outbox
use baobab_erp.Outbox.{record_event, record_legacy}
use baobab_erp.Execution.Announcement.{consequence_changed_event}
use baobab_erp.Commands.Calls.{◌>>=◌, ◌>>◌, give, check, when}
use baobab_erp.Commands.Mappings
use baobab_erp.Commands.Mappings.{
  MappingError, NewIds, NativeRecordRef, create_mapping, find_native, erp_resource_id,
}
use baobab_erp.Commands.Stores.{
  World, or_not_mapped, Act, ledger, read_ledger, write_ledger, on_engine, CommandError, Ledger,
  Env, NativeDocumentRef, not_permitted, wrong_stage, mapping_not_found, not_mapped, not_recorded,
  not_an_event,
}

module _ {N : Type 0} (env : Env N) where
  -- `_deny_legacy_native_action` and `_deny_legacy_invoice_post`
  unfoldable pub deny_native_action : TenantScope → String → String → Act N (Unit {0})
  deny_native_action scope action reference (p, v) =
      if native_action_allowed env.protected scope action reference p
      then (ok tt, (p, v))
      else (err not_permitted, (p, v))

  unfoldable pub deny_invoice_post : TenantScope → String → Act N (Unit {0})
  deny_invoice_post scope invoice_id (p, v) =
      if invoice_post_allowed env.protected scope invoice_id p
      then (ok tt, (p, v))
      else (err not_permitted, (p, v))

  abbrev pub mapped :
      TenantScope
      → String
      → String
      → String
      → ℕ
      → Ledger
      → Result MappingError Mappings.Table
      → Result CommandError Ledger
  mapped scope canonical_type canonical_id table native_id l (ok t) = ok (record l { mappings = t })
  mapped scope canonical_type canonical_id table native_id l (err e) = err (not_mapped e)

  -- `mappings.create_mapping`
  unfoldable pub map_record : TenantScope → String → String → String → ℕ → Act N (Unit {0})
  map_record scope canonical_type canonical_id table native_id = write_ledger λ l.
      mapped scope canonical_type canonical_id table native_id l (
        create_mapping env.as_uuid env.new_ids scope.tenant_id scope.legal_entity_id canonical_type
          canonical_id table native_id "erp" l.mappings)

  -- `_create_and_map`
  unfoldable pub create_and_map :
      TenantScope → String → String → String → Fields → Act N NativeDocumentRef
  create_and_map scope canonical_type canonical_id table fields = do
    native_id ←
        with_request (request_for env.host "POST" ("/models/" <> table) fields)
          (on_engine (env.engine.create_record table fields))
    map_record scope canonical_type canonical_id table native_id
    give (record { canonical_id = canonical_id; table = table; native_id = native_id })

  -- `_execute_governed_process`
  unfoldable pub execute_process : ℕ → Fields → Act N Value
  execute_process process_id parameters =
      with_request
        (request_for env.host "POST" ("/processes/" <> env.texts.decimal process_id) parameters)
        (on_engine (env.engine.execute_process process_id parameters))

  -- `_resolve_native`
  unfoldable pub resolve_native : TenantScope → String → String → String → Act N ℕ
  resolve_native scope canonical_type canonical_id expected_table = do
    l ← read_ledger
    found ← check (
        or_not_mapped
          (find_native env.as_uuid scope.tenant_id canonical_type canonical_id l.mappings))
    ref ← check (or_raise found mapping_not_found)
    check (raise_if (not (ref.table == expected_table)) wrong_stage)
    give ref.record_id

  -- `mappings.erp_resource_id`
  unfoldable pub public_id : TenantScope → String → String → Act N (Option String)
  public_id scope canonical_type canonical_id = do
    l ← read_ledger
    check (
        or_not_mapped
          (erp_resource_id env.as_uuid scope.tenant_id canonical_type canonical_id l.mappings))

  abbrev pub recorded : Ledger → Result Outbox.StoreError Outbox.Table → Result CommandError Ledger
  recorded l (ok t) = ok (record l { outbox = t })
  recorded l (err e) = err (not_recorded e)

  -- `outbox.record_event`, of an event that may not be built
  abbrev pub recorded_event : Ledger → Result EnvelopeError CloudEvent → Result CommandError Ledger
  recorded_event l (ok e) = recorded l (record_event env.database e l.outbox)
  recorded_event l (err e) = err (not_an_event e)

  -- `_announce`, to the outbox
  unfoldable pub announce : Option OrderConsequence → Option String → Act N (Unit {0})
  announce none correlation_id w = (ok tt, w)
  announce (some r) correlation_id w =
      write_ledger
        (λ l. recorded_event l (consequence_changed_event env.texts env.fresh_id r correlation_id))
        w

  -- the announcement of a record that changed
  abbrev pub announce_changed : Option Recorded → Option String → Act N (Unit {0})
  announce_changed none correlation_id w = (ok tt, w)
  announce_changed (some r) correlation_id w = when r.changed (announce r.entry correlation_id) w

  abbrev pub fact_written :
      Orders.Table × Option Recorded → World N → Result CommandError (Option Recorded) × World N
  fact_written (t, r) (p, (l, n)) = (ok r, (p, (record l { consequences = t }, n)))

  -- `consequences.record_fact`, and the announcement where the record changed
  unfoldable pub observe :
      TenantScope → String → Fact → Option String → Option String → Act N (Unit {0})
  observe scope order_id fact invoice_id correlation_id = do
    found ← λ w.
        fact_written
          (record_fact scope.tenant_id order_id fact env.fact_at invoice_id (ledger w).consequences)
          w
    announce_changed found correlation_id

  -- `_envelope`, recorded with `outbox.record`
  unfoldable pub record_envelope : String → TenantScope → String → Value → Act N (Unit {0})
  record_envelope event_type scope correlation_id payload = write_ledger λ l. recorded l (
      record_legacy env.database
        (record {
          event_id = env.envelope_id;
          event_type = event_type;
          schema_version = "1.0";
          occurred_at = env.occurred_at;
          source = "baobab-erp";
          correlation_id = correlation_id;
          tenant_id = scope.tenant_id;
          entity_id = scope.legal_entity_id;
          payload = payload;
        })
        l.outbox)
