-- ===== src/Orders/Outcomes.antt =====
-- The accounting outcomes of invoices and payments: the rules of modules/order_to_cash/accounting_outcomes.py
-- and the revisions of modules/order_to_cash/outcome_store.py. `A` is the type of a revision's detail,
-- which the store only compares.
use baobab_erp.Common.{
  ℕ, ◌+◌, String, string_eq, pair_eq, Bool, true, false, ◌&&◌, Option, none, some, List, [], ◌∷◌,
  ◌++◌, Eq, ◌==◌, ltb, find_key, update_where, Result, ok, raise_if, not, ◌>>◌, if◌then◌else◌,
}

pub record Money : Type 0 where
  pub amount : String
  pub currency : String

pub record InvoiceFacts : Type 0 where
  pub number : String
  pub total : Money
  pub completed : Bool
  pub paid : Bool

pub record PaymentFacts : Type 0 where
  pub amount : Money
  pub completed : Bool
  pub fully_allocated : Bool

pub data AccountingFactError : Type 0 where
  invoice_not_completed payment_not_completed : AccountingFactError

unfoldable pub invoice_status : InvoiceFacts → Bool → Result AccountingFactError String
invoice_status f allocated = do
  raise_if (not f.completed) invoice_not_completed
  ok (if f.paid then "paid" else if allocated then "partially_paid" else "posted")

unfoldable pub payment_status : PaymentFacts → Bool → Result AccountingFactError String
payment_status f allocation_requested = do
  raise_if (not f.completed) payment_not_completed
  ok (
      if f.fully_allocated
      then "allocated"
      else if allocation_requested
      then "partially_allocated"
      else "posted")

-- `RANK.get(status, 0)`
unfoldable pub rank : String → ℕ
rank status =
    if status == "partially_allocated"
    then 1
    else if status == "partially_paid"
    then 1
    else if status == "allocated"
    then 2
    else if status == "paid"
    then 2
    else 0

pub record Advanced : Type 0 where
  pub revision : ℕ
  pub first_seen_at : ℕ
  pub changed : Bool

-- a row of `baobab.document_outcome`
pub record Document (A : Type 0) : Type 0 where
  pub tenant_id : String
  pub document_type : String
  pub document_id : String
  pub revision : ℕ
  pub status : String
  pub detail : A
  pub first_seen_at : ℕ
  pub updated_at : ℕ

module _ {A : Type 0} where
  abbrev pub document_key : Document A → String × (String × String)
  document_key d = (d.tenant_id, (d.document_type, d.document_id))

  abbrev pub find_document : String × (String × String) → List (Document A) → Option (Document A)
  find_document = find_key document_key

  abbrev pub is_document : String × (String × String) → Document A → Bool
  is_document k d = document_key d == k

  -- the row of a document seen for the first time
  abbrev pub first_revision : String × (String × String) → String → A → ℕ → Document A
  first_revision (tenant_id, (document_type, document_id)) status detail now = record {
    tenant_id = tenant_id;
    document_type = document_type;
    document_id = document_id;
    revision = 1;
    status = status;
    detail = detail;
    first_seen_at = now;
    updated_at = now;
  }

  unfoldable pub revise : String → A → ℕ → Document A → Document A
  revise status detail now d = record d {
    revision = d.revision + 1;
    status = status;
    detail = detail;
    updated_at = now;
  }

  abbrev unchanged : Document A → Advanced
  unchanged d = record { revision = d.revision; first_seen_at = d.first_seen_at; changed = false }

  abbrev pub advance_row :
      ⦃e : Eq A⦄
      → String × (String × String)
      → String
      → A
      → ℕ
      → List (Document A)
      → Option (Document A)
      → Advanced × List (Document A)
  advance_row key status detail now t none = (
    record { revision = 1; first_seen_at = now; changed = true },
    t ++ first_revision key status detail now ∷ [],
  )
  advance_row key status detail now t (some d) =
      if ltb (rank status) (rank d.status)
      then (unchanged d, t)
      else if d.status == status && d.detail == detail
      then (unchanged d, t)
      else (
        record { revision = d.revision + 1; first_seen_at = d.first_seen_at; changed = true },
        update_where (is_document key) (revise status detail now) t,
      )

  -- `advance`; the table is locked from the first `SELECT` of the row on
  unfoldable pub advance :
      ⦃e : Eq A⦄
      → String × (String × String)
      → String
      → A
      → ℕ
      → List (Document A)
      → Advanced × List (Document A)
  advance key status detail now t = advance_row key status detail now t (find_document key t)
