-- ===== src/Orders/Tests.antt =====
-- Runs of the order-consequence read model and of documents' revisions, and the claims about them.
use baobab_erp.Common.{
  ℕ, ◌+◌, ◌≤◌, String, string_eq, nat_eq, pair_eq, ◌≡◌, refl, none, some, List, [], ◌∷◌, ◌==◌,
  Bool-cases, inl, inr, update_where, ok, if◌then◌else◌,
}
use baobab_erp.Orders.Consequence.{
  Fact, order_completed, shipment_completed, invoice_posted, derive, Row, Table, key, read, find,
  open_order, has_order, get, record_fact,
}
use baobab_erp.Orders.Facts.{AllDerived, record_fact-AllDerived}
use baobab_erp.Orders.Sequences.{Call, has_fact, record_all, record_all-same}
use baobab_erp.Orders.Outcomes.{Document, find_document, is_document, revise, rank, advance}
use baobab_erp.Orders.Forward.{advance_known}

abbrev order : Row
order = record {
  tenant_id = "tn_acme1";
  commerce_order_id = "ord_1";
  legal_entity_id = "ZURI-KE";
  order_version = 1;
  erp_order_id = "erp_1a2b";
  status = "accepted";
  accounting_status = "pending";
  inventory_status = "pending";
  invoice_id = none;
  exception_code = none;
  order_completed_at = none;
  shipment_completed_at = none;
  invoice_posted_at = none;
  revision = 1;
  updated_at = 0;
}

abbrev orders : Table
orders = order ∷ []

-- opening the order in an empty table gives this row
order_is_opened :
    open_order "tn_acme1" "ZURI-KE" "ord_1" 1 "erp_1a2b" 0 [] ≡ ok (some (read order), orders)
unfolding open_order has_order get derive
order_is_opened = refl

orders-AllDerived : AllDerived orders
unfolding derive
orders-AllDerived k = elim (Bool-cases (key order == k)) [
  | inl same ↦ rw same (record { statuses = refl; revisions = refl })
  | inr other ↦ rw other tt
]

record_fact-AllDerived_example :
    AllDerived (record_fact "tn_acme1" "ord_1" invoice_posted 7 (some "erp_9") orders).0
record_fact-AllDerived_example =
    record_fact-AllDerived "tn_acme1" "ord_1" invoice_posted 7 (some "erp_9") orders
      orders-AllDerived

abbrev call : Fact → ℕ → Call
call fact now = record { fact = fact; now = now; invoice_id = none }

abbrev one_way : List Call
one_way = call shipment_completed 1 ∷ call invoice_posted 2 ∷ []

abbrev other_way : List Call
other_way = call invoice_posted 3 ∷ call shipment_completed 4 ∷ call invoice_posted 5 ∷ []

same_facts : (fact : Fact) → has_fact fact one_way ≡ has_fact fact other_way
same_facts order_completed = refl
same_facts shipment_completed = refl
same_facts invoice_posted = refl

record_all-same_example :
    (v w : Row) × (find "tn_acme1" "ord_1" (record_all "tn_acme1" "ord_1" one_way orders) ≡ some v)
    × (find "tn_acme1" "ord_1" (record_all "tn_acme1" "ord_1" other_way orders) ≡ some w)
    × (v.status ≡ w.status)
    × (v.accounting_status ≡ w.accounting_status)
    × (v.inventory_status ≡ w.inventory_status)
    × (v.revision ≡ w.revision)
record_all-same_example =
    record_all-same "tn_acme1" "ord_1" one_way other_way orders order refl orders-AllDerived
      same_facts

abbrev invoice_key : String × (String × String)
invoice_key = ("tn_acme1", ("invoice", "erp_9"))

abbrev paid_invoice : Document ℕ
paid_invoice = record {
  tenant_id = "tn_acme1";
  document_type = "invoice";
  document_id = "erp_9";
  revision = 2;
  status = "paid";
  detail = 100;
  first_seen_at = 1;
  updated_at = 2;
}

-- a repeated completion does not announce the paid invoice as posted
advance_known_example :
    (v : Document ℕ) × (find_document invoice_key
        (advance invoice_key "posted" 100 5 (paid_invoice ∷ [])).1
      ≡ some v)
    × ((advance invoice_key "posted" 100 5 (paid_invoice ∷ [])).0 ≡ record {
      revision = v.revision;
      first_seen_at = 1;
      changed = (advance invoice_key "posted" 100 5 (paid_invoice ∷ [])).0.changed;
    })
    × (v.first_seen_at ≡ 1)
    × (rank "paid" ≤ rank v.status)
    × (v.revision
        ≡ 2 + (if (advance invoice_key "posted" 100 5 (paid_invoice ∷ [])).0.changed then 1 else 0))
    × ((advance invoice_key "posted" 100 5 (paid_invoice ∷ [])).1 ≡ (
        if (advance invoice_key "posted" 100 5 (paid_invoice ∷ [])).0.changed
        then update_where (is_document invoice_key) (revise "posted" 100 5) (paid_invoice ∷ [])
        else paid_invoice ∷ []))
advance_known_example =
    advance_known invoice_key "posted" 100 5 (paid_invoice ∷ []) paid_invoice refl

abbrev new_documents : List (Document ℕ)
new_documents = []
