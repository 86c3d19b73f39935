-- ===== src/Egress/Tests.antt =====
-- The egress guard at a concrete order and a concrete process, and one mutation sent by a client
-- whose token the engine rejects.
use baobab_erp.Common.{
  ℕ, ◌+◌, ◌≤◌, String, string_eq, nat_eq, ◌==◌, ◌≡◌, refl, true, false, none, some, List, [], ◌∷◌,
  ok, err, if◌then◌else◌,
}
use baobab_erp.Json.{Fields, Items, obj, arr, item, text, int, field, end, get, member}
use baobab_erp.Egress.Scopes.{TenantScope, Permits, no_permits, with_native_action, with_request}
use baobab_erp.Egress.Paths.{split_slash, strip_slashes, ends_with_slash, has_percent}
use baobab_erp.Egress.Guard.{
  denied, Company, Host, is_mutation, require_authority, check_target, check_creation,
  check_process, is_plain, creation_action, is_finance_table, native_bound, is_bound, has_status,
  require_exact, process_action, complete_action, is_configured, process_variable, keys_are,
  only_keys,
}
use baobab_erp.Egress.Authority.{
  CreationIsGranted, ProcessIsGranted, IsPermitted, after, models_request-CreationIsGranted,
  processes_request-ProcessIsGranted,
}
use baobab_erp.Egress.Client.{
  unauthenticated, Transport, guarded, beside, sent, raw_request, call, permitted_call, run_all,
}
use baobab_erp.Egress.Once.{one_mutation}
use baobab_erp.Egress.Query.{
  Condition, words, query, build_filter, filter_parts, escaped, read_pages, rows_in,
}
use baobab_erp.Egress.Ending.{Ended, query-Ended}

abbrev host : Host
host = record {
  upper = λ s. if s == "C_Order" then "C_ORDER" else s;
  urlsplit = λ s. record { path = s; query = ""; fragment = "" };
  digest = λ body. "digest";
  digits = λ s. if s == "104" then some 104 else none;
  environ = λ name. if name == "IDEMPIERE_PROCESS_COMPLETE_SALES_ORDER" then "104" else "";
}

abbrev company : Company
company = record { client_id = 11; organization_id = 12 }

abbrev scope : TenantScope
scope = record {
  tenant_id = "tn_acme1";
  legal_entity_id = "ZURI-KE";
  ad_client_id = 11;
  ad_org_id = 12;
}

abbrev order : Fields
order = field "C_BPartner_ID" (int 7) (field "POReference" (text "ord_1") end)

abbrev permits_for : String → String → Permits
permits_for action path = record {
  native = some (record { scope = scope; action = action; reference = "ord_1" });
  invoice = none;
  request = some (record { method = "POST"; path = path; digest = "digest" });
  spent = false;
}

abbrev creating : Permits
creating = permits_for "create_sales_order" "/models/C_Order"

abbrev spent_creating : Permits
spent_creating = record creating { request = none; spent = true }

order_is_created :
    require_authority host true "POST" "/models/C_Order" order company true creating
    ≡ ok spent_creating
unfolding require_authority is_mutation split_slash strip_slashes check_target check_creation
    is_plain creation_action is_finance_table native_bound is_bound has_status require_exact
    ends_with_slash has_percent get member
order_is_created = refl

-- the permit is spent
order_is_not_created_again :
    require_authority host true "POST" "/models/C_Order" order company true spent_creating
    ≡ err denied
unfolding require_authority is_mutation split_slash strip_slashes check_target check_creation
    is_plain creation_action is_finance_table native_bound is_bound has_status require_exact
    ends_with_slash has_percent get member
order_is_not_created_again = refl

models_request-CreationIsGranted_example :
    CreationIsGranted host "POST" ("C_Order" ∷ []) order company creating
    × IsPermitted host "POST" "/models/C_Order" order creating
    × (spent_creating ≡ after host true creating)
unfolding split_slash strip_slashes is_mutation
models_request-CreationIsGranted_example =
    models_request-CreationIsGranted host "POST" "/models/C_Order" ("C_Order" ∷ []) order company
      true creating refl refl order_is_created

abbrev completion : Fields
completion = field "C_Order_ID" (int 1000) (field "DocAction" (text "CO") end)

abbrev completing : Permits
completing = permits_for "complete_sales_order" "/processes/104"

order_is_completed :
    require_authority host true "POST" "/processes/104" completion company false completing
    ≡ ok completing
unfolding require_authority is_mutation split_slash strip_slashes check_target check_process
    is_plain process_action complete_action is_configured process_variable keys_are only_keys
    native_bound is_bound require_exact ends_with_slash has_percent get member
order_is_completed = refl

processes_request-ProcessIsGranted_example :
    ProcessIsGranted host "POST" ("104" ∷ []) completion company completing
    × IsPermitted host "POST" "/processes/104" completion completing
    × (completing ≡ after host false completing)
unfolding split_slash strip_slashes is_mutation
processes_request-ProcessIsGranted_example =
    processes_request-ProcessIsGranted host "POST" "/processes/104" ("104" ∷ []) completion company
      false completing refl refl order_is_completed

-- every token is rejected
abbrev rejecting : Transport ℕ
rejecting = record {
  ensure_token = λ v. (ok "old", v);
  authenticate = λ v. (ok "new", v + 1);
  send = λ request body token v. (err unauthenticated, v);
}

abbrev twice : List (String × (String × Fields))
twice = ("POST", ("/models/C_Order", order)) ∷ ("POST", ("/models/C_Order", order)) ∷ []

one_mutation_example :
    (with_native_action scope "create_sales_order" "ord_1"
      (run_all host true company rejecting twice)
      (no_permits, (3, 0))).1.1.0
    ≤ 3 + 1
unfolding split_slash strip_slashes is_mutation
one_mutation_example =
    one_mutation host company rejecting twice scope "create_sales_order" "ord_1" no_permits 3 0
      ((refl, refl), ((refl, refl), tt))

-- the second request finds the permit spent, after the login
one_is_sent :
    (with_native_action scope "create_sales_order" "ord_1"
      (run_all host true company rejecting twice)
      (no_permits, (3, 0))).1.1
    ≡ (4, 1)
unfolding with_native_action run_all permitted_call with_request call raw_request guarded beside
    sent require_authority is_mutation split_slash strip_slashes check_target check_creation
    is_plain creation_action is_finance_table native_bound is_bound has_status require_exact
    ends_with_slash has_percent get member
one_is_sent = refl

-- an engine that always answers with one record
abbrev one_record : Transport ℕ
one_record = record {
  ensure_token = λ n. (ok "token", n);
  authenticate = λ n. (ok "token", n);
  send = λ request body token n.
      (ok (obj (field "records" (arr (item (obj order) Items.stop)) end)), n);
}

abbrev decimal : ℕ → String
decimal n = if n == 0 then "0" else "100"

abbrev by_reference : Condition
by_reference = record { column = "POReference"; value = words "ord_1" }

one_record_is_found :
    (query host false company one_record decimal
      (λ ps. "query")
      "C_Order"
      (by_reference ∷ [])
      ("C_Order_ID" ∷ [])
      (no_permits, (0, 0))).0
    ≡ ok (order ∷ [])
unfolding query call guarded beside sent raw_request require_authority is_mutation build_filter
    filter_parts escaped read_pages rows_in get member
one_record_is_found = refl

query-Ended_example :
    Ended
      (query host false company one_record decimal
        (λ ps. "query")
        "C_Order"
        (by_reference ∷ [])
        ("C_Order_ID" ∷ [])
        (no_permits, (0, 0))).0
query-Ended_example =
    query-Ended host false company one_record decimal (λ ps. "query") "C_Order" (by_reference ∷ [])
      ("C_Order_ID" ∷ []) (no_permits, (0, 0))
