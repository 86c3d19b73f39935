-- ===== src/Commands/Stores.antt =====
-- The stores that a command works on, in the transaction of its caller, and what the caller passes
-- (modules/order_to_cash/service.py). An exception leaves the transaction as far as it came; the
-- caller rolls it back.
use baobab_erp.Common.{
  ℕ, String, string_eq, pair_eq, option_eq, Bool, Option, List, Result, ok, err,
}
use baobab_erp.Json.{Value, Fields}
use baobab_erp.Egress.{Permits, Host, Call, ClientError}
use baobab_erp.Events.{EnvelopeError}
use baobab_erp.Orders
use baobab_erp.Orders.{
  OrderConsequence, Fact, Recorded, record_fact, Link, Document, order_of_document,
}
use baobab_erp.Outbox
use baobab_erp.Outbox.{record_event, record_legacy}
use baobab_erp.Execution.Announcement.{Texts}
use baobab_erp.Commands.Mappings
use baobab_erp.Commands.Mappings.{
  MappingError, NewIds, NativeRecordRef, create_mapping, find_native, erp_resource_id,
}
use baobab_erp.Commands.Accounts.{Python, ReadError}
use baobab_erp.Commands.Notices.{NoticeTexts}

-- OrderToCashError of the permits, of an order without lines, of a missing identifier and of a wrong
-- table; MappingNotFoundError; and the exceptions of the stores, the engine and the events
pub data CommandError : Type 0 where
  not_permitted no_lines no_resource_id wrong_stage mapping_not_found : CommandError
  not_mapped : MappingError → CommandError
  not_stored : Orders.StoreError → CommandError
  not_recorded : Outbox.StoreError → CommandError
  not_an_event : EnvelopeError → CommandError
  engine_failed : ClientError → CommandError
  not_read : ReadError → CommandError

-- the members of a document's detail: the number of an invoice, the amount with its currency, and the
-- invoice that a payment is for
abbrev pub Detail : Type 0
Detail = Option String × ((String × String) × Option String)

pub record Ledger : Type 0 where
  pub mappings : Mappings.Table
  pub consequences : Orders.Table
  pub links : List Link
  pub outcomes : List (Document Detail)
  pub outbox : Outbox.Table

abbrev pub World : Type 0 → Type 0
World N = Permits × (Ledger × N)

-- `IdempiereClient`, and the reading that the outcomes need
pub record Engine (N : Type 0) : Type 0 where
  pub get_record : String → ℕ → Call ClientError N Fields
  pub create_record : String → Fields → Call ClientError (Permits × N) ℕ
  pub execute_process : ℕ → Fields → Call ClientError (Permits × N) Value

pub record ProcessIds : Type 0 where
  pub complete_sales_order : ℕ
  pub complete_shipment : ℕ
  pub post_customer_invoice : ℕ
  pub complete_payment : ℕ
  pub allocate_payment : ℕ

-- what the caller passes, which of the optional stores among it, and the readings of clocks and of
-- random numbers
pub record Env (N : Type 0) : Type 0 where
  pub engine : Engine N
  pub process_ids : ProcessIds
  pub has_outbox : Bool
  pub has_consequences : Bool
  pub has_outcomes : Bool
  pub protected : Bool
  pub host : Host
  pub as_uuid : String → Option String
  pub new_ids : NewIds
  pub python : Python
  pub texts : Texts
  pub notice_texts : NoticeTexts
  pub envelope_id : String
  pub fresh_id : String
  pub new_canonical_id : String
  pub occurred_at : ℕ
  pub fact_at : ℕ
  pub payment_at : ℕ
  pub invoice_at : ℕ
  pub database : ℕ

pub record NativeDocumentRef : Type 0 where
  pub canonical_id : String
  pub table : String
  pub native_id : ℕ

module _ {A : Type 0} where
  abbrev pub or_not_mapped : Result MappingError A → Result CommandError A
  or_not_mapped (ok a) = ok a
  or_not_mapped (err e) = err (not_mapped e)

  abbrev pub or_not_stored : Result Orders.StoreError A → Result CommandError A
  or_not_stored (ok a) = ok a
  or_not_stored (err e) = err (not_stored e)

  abbrev pub or_not_recorded : Result Outbox.StoreError A → Result CommandError A
  or_not_recorded (ok a) = ok a
  or_not_recorded (err e) = err (not_recorded e)

  abbrev pub or_not_an_event : Result EnvelopeError A → Result CommandError A
  or_not_an_event (ok a) = ok a
  or_not_an_event (err e) = err (not_an_event e)

  abbrev pub or_engine_failed : Result ClientError A → Result CommandError A
  or_engine_failed (ok a) = ok a
  or_engine_failed (err e) = err (engine_failed e)

abbrev pub Act : Type 0 → Type 0 → Type 0
Act N A = Call CommandError (World N) A

module _ {N : Type 0} where
  abbrev pub ledger : World N → Ledger
  ledger (p, (l, n)) = l

  abbrev pub read_ledger : Act N Ledger
  read_ledger w = (ok (ledger w), w)

  -- a statement that raised changed nothing
  abbrev pub written :
      Result CommandError Ledger → World N → Result CommandError (Unit {0}) × World N
  written (ok l) (p, (_, n)) = (ok tt, (p, (l, n)))
  written (err e) w = (err e, w)

  abbrev pub write_ledger : (Ledger → Result CommandError Ledger) → Act N (Unit {0})
  write_ledger statement w = written (statement (ledger w)) w

  abbrev pub beside :
      {A : Type 0} → Ledger → Result ClientError A × (Permits × N) → Result CommandError A × World N
  beside l (r, (p, n)) = (or_engine_failed r, (p, (l, n)))

  -- a call of the engine
  abbrev pub on_engine : {A : Type 0} → Call ClientError (Permits × N) A → Act N A
  on_engine call (p, (l, n)) = beside l (call (p, n))
