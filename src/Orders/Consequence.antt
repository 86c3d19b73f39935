-- ===== src/Orders/Consequence.antt =====
-- The order-consequence read model: the rules of modules/order_to_cash/consequence.py and the store of
-- modules/order_to_cash/consequence_store.py. Moments are in microseconds; statuses are the source's
-- texts. Of the tables' constraints, the keys are modelled, and not the formats of the columns.
use baobab_erp.Common.{
  ℕ, ◌+◌, String, string_eq, pair_eq, Bool, true, false, not, ◌&&◌, ◌||◌, Option, none, some, List,
  [], ◌∷◌, ◌++◌, ◌==◌, is_none, is_some, any, find_key, update_where, Result, ok, err,
  if◌then◌else◌,
}

pub data Fact : Type 0 where
  order_completed shipment_completed invoice_posted : Fact

-- `Facts`
pub record Observed : Type 0 where
  pub has_order : Bool
  pub has_shipment : Bool
  pub has_invoice : Bool

pub record Derived : Type 0 where
  pub status : String
  pub accounting_status : String
  pub inventory_status : String

unfoldable pub derive : Observed → Derived
derive f =
    let accounting = if f.has_invoice then "posted" else "pending" in
    let inventory = if f.has_shipment then "fulfilled" else "pending" in
    record {
      status =
          if accounting == "posted" && inventory == "fulfilled"
          then "posted"
          else if f.has_order || (f.has_shipment || f.has_invoice)
          then "processing"
          else "accepted";
      accounting_status = accounting;
      inventory_status = inventory;
    }

-- a row of `baobab.order_consequence`
pub record Row : Type 0 where
  pub tenant_id : String
  pub commerce_order_id : String
  pub legal_entity_id : String
  pub order_version : ℕ
  pub erp_order_id : String
  pub status : String
  pub accounting_status : String
  pub inventory_status : String
  pub invoice_id : Option String
  pub exception_code : Option String
  pub order_completed_at : Option ℕ
  pub shipment_completed_at : Option ℕ
  pub invoice_posted_at : Option ℕ
  pub revision : ℕ
  pub updated_at : ℕ

abbrev pub Table : Type 0
Table = List Row

-- `OrderConsequence`: what is read of a row
pub record OrderConsequence : Type 0 where
  pub tenant_id : String
  pub commerce_order_id : String
  pub legal_entity_id : String
  pub order_version : ℕ
  pub erp_order_id : String
  pub status : String
  pub accounting_status : String
  pub inventory_status : String
  pub revision : ℕ
  pub updated_at : ℕ
  pub invoice_id : Option String
  pub exception_code : Option String

abbrev pub read : Row → OrderConsequence
read r = record {
  tenant_id = r.tenant_id;
  commerce_order_id = r.commerce_order_id;
  legal_entity_id = r.legal_entity_id;
  order_version = r.order_version;
  erp_order_id = r.erp_order_id;
  status = r.status;
  accounting_status = r.accounting_status;
  inventory_status = r.inventory_status;
  revision = r.revision;
  updated_at = r.updated_at;
  invoice_id = r.invoice_id;
  exception_code = r.exception_code;
}

abbrev pub read_option : Option Row → Option OrderConsequence
read_option none = none
read_option (some r) = some (read r)

abbrev pub key : Row → String × String
key r = (r.tenant_id, r.commerce_order_id)

abbrev pub find : String → String → Table → Option Row
find tenant_id commerce_order_id = find_key key (tenant_id, commerce_order_id)

abbrev pub is_order : String → String → Row → Bool
is_order tenant_id commerce_order_id r = key r == (tenant_id, commerce_order_id)

unfoldable pub get : String → String → Table → Option OrderConsequence
get tenant_id commerce_order_id t = read_option (find tenant_id commerce_order_id t)

unfoldable pub has_order : String → String → Table → Bool
has_order tenant_id commerce_order_id t = is_some (find tenant_id commerce_order_id t)

-- a statement that a primary key or a foreign key refuses
pub data StoreError : Type 0 where
  duplicate_key missing_reference : StoreError

abbrev pub opened : String → String → String → ℕ → String → ℕ → Row
opened tenant_id legal_entity_id commerce_order_id order_version erp_order_id now =
    let derived =
      derive (record { has_order = false; has_shipment = false; has_invoice = false }) in
    record {
      tenant_id = tenant_id;
      commerce_order_id = commerce_order_id;
      legal_entity_id = legal_entity_id;
      order_version = order_version;
      erp_order_id = erp_order_id;
      status = derived.status;
      accounting_status = derived.accounting_status;
      inventory_status = derived.inventory_status;
      invoice_id = none;
      exception_code = none;
      order_completed_at = none;
      shipment_completed_at = none;
      invoice_posted_at = none;
      revision = 1;
      updated_at = now;
    }

-- `open_order`: the record read back, and the table
unfoldable pub open_order :
    String
    → String
    → String
    → ℕ
    → String
    → ℕ
    → Table
    → Result StoreError (Option OrderConsequence × Table)
open_order tenant_id legal_entity_id commerce_order_id order_version erp_order_id now t =
    if has_order tenant_id commerce_order_id t || any (λ r. r.erp_order_id == erp_order_id) t
    then err duplicate_key
    else let u =
        t
        ++ opened tenant_id legal_entity_id commerce_order_id order_version erp_order_id now ∷ [] in
      ok (get tenant_id commerce_order_id u, u)

-- the column of a fact
abbrev pub observed_at : Fact → Row → Option ℕ
observed_at order_completed r = r.order_completed_at
observed_at shipment_completed r = r.shipment_completed_at
observed_at invoice_posted r = r.invoice_posted_at

abbrev pub stamp : Fact → ℕ → Row → Row
stamp order_completed now r = record r { order_completed_at = some now }
stamp shipment_completed now r = record r { shipment_completed_at = some now }
stamp invoice_posted now r = record r { invoice_posted_at = some now }

abbrev pub observed : Row → Observed
observed r = record {
  has_order = is_some r.order_completed_at;
  has_shipment = is_some r.shipment_completed_at;
  has_invoice = is_some r.invoice_posted_at;
}

-- `COALESCE`
abbrev pub coalesce : Option String → Option String → Option String
coalesce none old = old
coalesce (some new) old = some new

-- the `UPDATE` of `record_fact`
unfoldable pub note : Fact → ℕ → Option String → Row → Row
unfolding derive
note fact now invoice_id r =
    let s = stamp fact now r in
    let derived = derive (observed s) in
    record s {
      status = derived.status;
      accounting_status = derived.accounting_status;
      inventory_status = derived.inventory_status;
      invoice_id = coalesce invoice_id r.invoice_id;
      revision = r.revision + 1;
      updated_at = now;
    }

pub record Recorded : Type 0 where
  pub entry : Option OrderConsequence
  pub changed : Bool

abbrev pub note_row :
    String → String → Fact → ℕ → Option String → Table → Option Row → Table × Option Recorded
note_row tenant_id commerce_order_id fact now invoice_id t none = (t, none)
note_row tenant_id commerce_order_id fact now invoice_id t (some r) =
    let changed = is_none (observed_at fact r) in
    let u =
      if changed
      then update_where (is_order tenant_id commerce_order_id) (note fact now invoice_id) t
      else t in
    (u, some (record { entry = get tenant_id commerce_order_id u; changed = changed }))

unfoldable pub record_fact :
    String → String → Fact → ℕ → Option String → Table → Table × Option Recorded
record_fact tenant_id commerce_order_id fact now invoice_id t =
    note_row tenant_id commerce_order_id fact now invoice_id t (find tenant_id commerce_order_id t)

-- a row of `baobab.order_consequence_document`
pub record Link : Type 0 where
  pub tenant_id : String
  pub document_type : String
  pub document_id : String
  pub commerce_order_id : String

abbrev pub link_key : Link → String × (String × String)
link_key l = (l.tenant_id, (l.document_type, l.document_id))

abbrev pub linked_order : Option Link → Option String
linked_order none = none
linked_order (some l) = some l.commerce_order_id

unfoldable pub order_of_document : String → String → String → List Link → Option String
order_of_document tenant_id document_type document_id links =
    linked_order (find_key link_key (tenant_id, (document_type, document_id)) links)

-- `link_document`: false, and nothing written, for an order without a record
unfoldable pub link_document :
    String → String → String → String → Table → List Link → Result StoreError (Bool × List Link)
link_document tenant_id document_type document_id commerce_order_id t links =
    if not (has_order tenant_id commerce_order_id t)
    then ok (false, links)
    else if is_some (find_key link_key (tenant_id, (document_type, document_id)) links)
    then err duplicate_key
    else ok (
      true,
      links
          ++ record {
            tenant_id = tenant_id;
            document_type = document_type;
            document_id = document_id;
            commerce_order_id = commerce_order_id;
          }
            ∷ [],
    )
