-- ===== src/Commands/Tests.antt =====
-- Commands on a small engine that numbers its records.
use baobab_erp.Common.{
  ℕ, ◌+◌, ◌≡◌, refl, arith, string_eq, nat_eq, Bool, true, false, none, some, [], ◌∷◌, ok, err,
}
use baobab_erp.Identifiers
use baobab_erp.Json.{null, end}
use baobab_erp.Egress.{TenantScope, no_permits, Host, with_request, native_action_allowed}
use baobab_erp.Orders.{positive}
use baobab_erp.Commands.Calls.{◌>>=◌, ◌>>◌}
use baobab_erp.Commands.Mappings.{
  Mapping, active, is_of, is_native, find_active, find_native, find_canonical, create_mapping,
}
use baobab_erp.Commands.Stores.{not_permitted, Ledger, World, ledger, Engine, Env}
use baobab_erp.Commands.Ledger.{create_and_map, map_record, resolve_native}
use baobab_erp.Commands.Requests.{new_payment, order_done, run, is_permitted}
use baobab_erp.Commands.Denials.{run-denied}
use baobab_erp.Commands.Grown.{Grows, run-Grows}
use baobab_erp.Commands.Consistent.{IsConsistent, run-IsConsistent, find_native-find_canonical}
use baobab_erp.Commands.Resolved.{create_and_map-resolve_native}

abbrev engine : Engine ℕ
engine = record {
  get_record = λ table id n. (ok end, n);
  create_record = λ table fields (p, n). (ok (1000 + n), (p, n + 1));
  execute_process = λ id fields (p, n). (ok null, (p, n));
}

abbrev host : Host
host = record {
  upper = λ s. s;
  urlsplit = λ s. record { path = s; query = ""; fragment = "" };
  digest = λ body. "digest";
  digits = λ s. none;
  environ = λ name. "";
}

abbrev env : Bool → Env ℕ
env is_protected = record {
  engine = engine;
  process_ids = record {
    complete_sales_order = 1;
    complete_shipment = 2;
    post_customer_invoice = 3;
    complete_payment = 4;
    allocate_payment = 5;
  };
  has_outbox = true;
  has_consequences = true;
  has_outcomes = true;
  protected = is_protected;
  host = host;
  as_uuid = λ s. some s;
  new_ids = record { mapping_id = "map_1"; erp_resource_id = "erp_1" };
  python = record {
    digits = λ s. none;
    flag_text = λ v. "false";
    is_blank = λ s. false;
    is_upper = λ s. true;
    decimal_of = λ v. some positive;
    places_of = λ v. some 2;
    quantized = λ v n. some "1.00";
  };
  texts = record {
    event_uuid = λ tenant order revision. "2b1f0c3e-9d4a-4e55-8a77-0c1d2e3f4a5b";
    correlation_uuid5 = λ tenant order. "7c9e6679-7425-40de-944b-e07fc1f90ae7";
    uuid = λ s. none;
    decimal = λ n. "1";
    iso = λ n. "1970-01-01T00:00:00Z";
  };
  notice_texts = record {
    uuid5 = λ s. "7c9e6679-7425-40de-944b-e07fc1f90ae7";
    uuid = λ s. none;
    decimal = λ n. "1";
    stamp = λ n. "1970-01-01T00:00:00Z";
  };
  envelope_id = "6ba7b810-9dad-41d1-80b4-00c04fd430c8";
  fresh_id = "6ba7b811-9dad-41d1-80b4-00c04fd430c8";
  new_canonical_id = "6ba7b812-9dad-41d1-80b4-00c04fd430c8";
  occurred_at = 1;
  fact_at = 2;
  payment_at = 3;
  invoice_at = 4;
  database = 5;
}

abbrev scope : TenantScope
scope = record {
  tenant_id = "tn_acme1";
  legal_entity_id = "ZURI-KE";
  ad_client_id = 11;
  ad_org_id = 12;
}

abbrev empty : Ledger
empty = record { mappings = []; consequences = []; links = []; outcomes = []; outbox = [] }

abbrev start : World ℕ
start = (no_permits, (empty, 0))

run-denied_example :
    run (env true) scope (order_done "ord_1" "corr") start ≡ (err not_permitted, start)
unfolding is_permitted native_action_allowed
run-denied_example =
    run-denied (env true) scope (order_done "ord_1" "corr") no_permits (empty, 0) refl

run-Grows_example :
    Grows empty (ledger (run (env false) scope (new_payment "pay_1" 5 "10.00" "KES") start).1)
run-Grows_example = run-Grows (env false) scope (new_payment "pay_1" 5 "10.00" "KES") start

empty-IsConsistent : IsConsistent []
empty-IsConsistent = record {
  resources = λ tenant kind id. omega arith;
  natives = λ tenant table id. omega arith;
}

run-IsConsistent_example :
    IsConsistent
      (ledger (run (env false) scope (new_payment "pay_1" 5 "10.00" "KES") start).1).mappings
run-IsConsistent_example =
    run-IsConsistent (env false) scope (new_payment "pay_1" 5 "10.00" "KES") start
      empty-IsConsistent

abbrev payment_row : Mapping
payment_row = record {
  mapping_id = "map_1";
  tenant_id = "tn_acme1";
  legal_entity_id = "ZURI-KE";
  canonical_type = "Payment";
  canonical_id = "pay_1";
  native_table = "C_Payment";
  native_id = 1000;
  canonical_owner = "erp";
  erp_resource_id = "erp_1";
  status = active;
}

one-IsConsistent : IsConsistent (payment_row ∷ [])
one-IsConsistent = record {
  resources = λ tenant kind id. ground arith;
  natives = λ tenant table id. ground arith;
}

payment_is_found :
    find_native (λ s. some s) "tn_acme1" "Payment" "pay_1" (payment_row ∷ [])
    ≡ ok (some (record { table = "C_Payment"; record_id = 1000 }))
unfolding find_native find_active is_of
payment_is_found = refl

find_native-find_canonical_example :
    find_canonical "tn_acme1" "C_Payment" 1000 (payment_row ∷ []) ≡ some "pay_1"
find_native-find_canonical_example =
    find_native-find_canonical (λ s. some s) "tn_acme1" "Payment" "pay_1" (payment_row ∷ [])
      one-IsConsistent payment_is_found

abbrev created : World ℕ
created = (no_permits, (record empty { mappings = payment_row ∷ [] }, 1))

payment_is_created :
    create_and_map (env false) scope "Payment" "pay_1" "C_Payment" end start
    ≡ (ok (record { canonical_id = "pay_1"; table = "C_Payment"; native_id = 1000 }), created)
unfolding ◌>>=◌ ◌>>◌ create_and_map map_record create_mapping with_request Identifiers.tenant_id
    Identifiers.legal_entity_id Identifiers.check is_of is_native
payment_is_created = refl

create_and_map-resolve_native_example :
    resolve_native (env false) scope "Payment" "pay_1" "C_Payment" created ≡ (ok 1000, created)
create_and_map-resolve_native_example =
    create_and_map-resolve_native (env false) scope "Payment" "pay_1" "C_Payment" end start created
      payment_is_created
