-- ===== src/Execution/Tests.antt =====
-- An order executed on a small engine: the list of the references of its orders.
use baobab_erp.Common.{
  ℕ, ◌+◌, ◌≤◌, String, string_eq, nat_eq, pair_eq, option_eq, ◌==◌, ◌≡◌, refl, sym, ap, subst, ◌∙◌,
  ok_inj, true, false, none, some, List, [], ◌∷◌, ◌++◌, arith, length, eqb, Result, ok, err,
  if◌then◌else◌,
}
use baobab_erp.Json.{Value, Fields, text, int, field, end, get, member, equals_text}
use baobab_erp.Egress.{TenantScope, no_permits, Host, with_request, native_action_allowed}
use baobab_erp.Events
use baobab_erp.Inbox
use baobab_erp.Inbox.{processed, Outcome, outcome, Claim, Db, Session, mark_processed, is_held}
use baobab_erp.Orders
use baobab_erp.Orders.{line_items, sales_order_fields, PlacedOrder, parse_placed_order, open_order}
use baobab_erp.Orders.Later.{unchanged, fact_recorded, order_opened}
use baobab_erp.Orders.PayloadTests.{decimal, payload, placed, payload_is_parsed}
use baobab_erp.Outbox
use baobab_erp.Execution.World.{Business, Target, Engine, reference, target}
use baobab_erp.Execution.Announcement.{Texts, consequence_changed_event}
use baobab_erp.Execution.Native.{
  Python, NativeLine, find_or_create, create_new, wrong_units, unit_of,
}
use baobab_erp.Execution.Env.{engine, Env}
use baobab_erp.Execution.Rows.{
  open_record, link_order, announce, settle_row, write_rows, insert_execution,
}
use baobab_erp.Execution.Attempt.{execute}
use baobab_erp.Execution.OneOrder.{KeepsOrders}
use baobab_erp.Execution.Adopted.{find_or_create-one}
use baobab_erp.Execution.Attempts.{EnvKeeps, Attempt, run_attempts, run_attempts-AtMostOne}
use baobab_erp.Execution.Together.{NothingOrAll, execute-NothingOrAll}
use baobab_erp.Execution.Statements.{at_rest, AllWritten, write_rows-AllWritten}
use baobab_erp.Execution.Again.{execute-AllWritten}

abbrev N : Type 0
N = List String

abbrev count_of : String → N → ℕ
count_of ref [] = 0
count_of ref (r ∷ rs) = (if r == ref then 1 else 0) + count_of ref rs

abbrev rows_of : String → N → List Fields
rows_of ref [] = []
rows_of ref (r ∷ rs) =
    let rest = rows_of ref rs in if r == ref then field "id" (int 1000) end ∷ rest else rest

rows_of-length : (ref : String) (n : N) → length (rows_of ref n) ≡ count_of ref n
rows_of-length ref [] = refl
rows_of-length ref (r ∷ rs) = ground (arith, rows_of-length ref rs)

abbrev reference_in : Value → String
reference_in (text s) = s
reference_in _ = ""

abbrev number_in : Value → Result String ℕ
number_in (int n) = ok n
number_in _ = err "ValueError"

engine_inj : {M : Type 0} {a b : Engine M} → engine a ≡ engine b → a ≡ b
engine_inj e = cc e

abbrev read_row : String → Fields
read_row table =
    if table == "C_UOM" then field "X12DE355" (text "EA") end else field "C_UOM_ID" (int 100) end

abbrev add_reference : Value → N → N
add_reference (text s) n = s ∷ n
add_reference _ n = n

abbrev small : Engine N
small = record {
  get_record = λ table id n. (ok (read_row table), n);
  query_orders = λ ref n. (ok (rows_of ref n), n);
  create_record = λ table fields p n. (ok 1000, (p, add_reference (get "POReference" fields) n));
}

add_reference-count :
    (v : Value) (n : N) (ref : String)
    → count_of ref (add_reference v n) ≡ count_of ref n + (if equals_text v ref then 1 else 0)
add_reference-count (text s) n ref = omega arith
add_reference-count _ n ref = omega arith

small-KeepsOrders : KeepsOrders small count_of
small-KeepsOrders = record {
  reads = λ table id n ref. refl;
  queries = λ asked n ref. refl;
  complete = λ asked n rows e. ap length (sym (ok_inj e)) ∙ rows_of-length asked n;
  creates = λ fields p n ref. omega (arith, add_reference-count (get "POReference" fields) n ref);
  adds = λ fields p n id ref e. add_reference-count (get "POReference" fields) n ref;
}

abbrev host : Host
host = record {
  upper = λ s. s;
  urlsplit = λ s. record { path = s; query = ""; fragment = "" };
  digest = λ body. "digest";
  digits = λ s. none;
  environ = λ name. "";
}

abbrev python : Python
python = record {
  decimal = λ n. "7";
  str_of = λ v. reference_in v;
  http_status = λ n. "HTTP 500";
  int_of = λ v. number_in v;
  host = host;
}

abbrev scope : TenantScope
scope = record {
  tenant_id = "tn_acme1";
  legal_entity_id = "ZURI-KE";
  ad_client_id = 11;
  ad_org_id = 12;
}

abbrev lines : List NativeLine
lines = record { product = 7; quantity = "2"; unit_price = "2" } ∷ []

order_is_created :
    find_or_create python small false scope placed 5 lines (no_permits, "other" ∷ [])
    ≡ (ok (1000, false), (no_permits, "ord_1" ∷ "other" ∷ []))
unfolding find_or_create native_action_allowed create_new wrong_units unit_of reference
    sales_order_fields line_items with_request get member
order_is_created = refl

order_is_adopted :
    find_or_create python small false scope placed 5 lines (no_permits, "ord_1" ∷ [])
    ≡ (ok (1000, true), (no_permits, "ord_1" ∷ []))
unfolding find_or_create native_action_allowed get member
order_is_adopted = refl

find_or_create-one_example :
    (count_of "ord_1" ("ord_1" ∷ "other" ∷ []) ≡ 1)
    × (false ≡ eqb (count_of "ord_1" ("other" ∷ [])) 1)
find_or_create-one_example =
    find_or_create-one python small count_of small-KeepsOrders placed 5 lines false scope no_permits
      ("other" ∷ []) (no_permits, "ord_1" ∷ "other" ∷ []) order_is_created

abbrev texts : Texts
texts = record {
  event_uuid = λ tenant order revision. "2b1f0c3e-9d4a-4e55-8a77-0c1d2e3f4a5b";
  correlation_uuid5 = λ tenant order. "7c9e6679-7425-40de-944b-e07fc1f90ae7";
  uuid = λ s. none;
  decimal = λ n. "1";
  iso = λ n. "1970-01-01T00:00:00Z";
}

abbrev env : Env N
env = record {
  number_of = decimal;
  python = python;
  texts = texts;
  erp_order_id = λ tenant order. "erp_1a2b3c";
  fresh_id = "6ba7b810-9dad-41d1-80b4-00c04fd430c8";
  valid_contract = λ name v. true;
  read_time = λ v. none;
  is_free = λ key. true;
  engine_for = λ client org. engine small;
  protected = false;
  authority = none;
  clock = record { first = 0; before_provider = 0; after_provider = 0; last = 0 };
  now = 40;
  database = 41;
}

env-EnvKeeps : EnvKeeps count_of "ord_1" env
env-EnvKeeps = record {
  engines =
      λ client org ops e. subst (λ o. KeepsOrders o count_of) (engine_inj e) small-KeepsOrders;
  gate = λ a e. absurd (cc e);
}

abbrev claim : Claim
claim = record {
  row_id = 1;
  event_id = "e1";
  event_type = "com.baobab-platform.trade.order.placed.v1";
  tenant_id = some "tn_acme1";
  payload = payload;
  attempts = 1;
  received_at = 5;
  correlation_id = none;
  worker_id = "w1";
}

abbrev inbox_row : Inbox.Row
inbox_row = record {
  id = 1;
  event_id = "e1";
  source = "trade";
  event_type = "com.baobab-platform.trade.order.placed.v1";
  is_cloudevent = true;
  tenant_id = some "tn_acme1";
  payload = payload;
  correlation_id = none;
  status = Inbox.processing;
  attempts = 1;
  next_attempt_at = 5;
  claimed_by = some "w1";
  lease_expires_at = some 100;
  outcome_code = none;
  last_error = none;
  received_at = 5;
  processed_at = none;
}

abbrev business : Business
business = record {
  tenants =
      record {
        tenant_id = "tn_acme1";
        entity_id = "ZURI-KE";
        is_active = true;
        ad_client_id = 11;
        ad_org_id = 12;
        engine_instance_id = some "engine_1";
      }
      ∷ [];
  masters =
      record {
        engine_instance_id = "engine_1";
        legal_entity_id = "ZURI-KE";
        resource_kind = "product";
        canonical_id = "sku-1";
        native_id = 7;
      }
      ∷ record {
        engine_instance_id = "engine_1";
        legal_entity_id = "ZURI-KE";
        resource_kind = "business_partner";
        canonical_id = "cus_1";
        native_id = 5;
      }
      ∷ [];
  consequences = [];
  executions = [];
  outbox = [];
}

abbrev db : Db Business
db = record { inbox = inbox_row ∷ []; business = business }

abbrev two_attempts : List (Attempt count_of "ord_1")
two_attempts =
    record { env = env; claim = claim; permits = no_permits; session = at_rest db }
    ∷ record { env = env; claim = claim; permits = no_permits; session = at_rest db }
    ∷ []

-- the first attempt died before it could commit
run_attempts-AtMostOne_example :
    count_of "ord_1" (run_attempts count_of "ord_1" two_attempts []) ≤ 1
run_attempts-AtMostOne_example =
    run_attempts-AtMostOne count_of "ord_1" two_attempts [] (env-EnvKeeps, (env-EnvKeeps, tt))
      (omega arith)

execute-NothingOrAll_example :
    NothingOrAll env claim db (execute env claim (no_permits, (at_rest db, [])))
execute-NothingOrAll_example = execute-NothingOrAll env claim db no_permits []

-- the session that the first execution writes
written : Session Business
unfolding write_rows
written = (write_rows env claim "tn_acme1" placed 1000 false (at_rest db)).1

rows_are_written : write_rows env claim "tn_acme1" placed 1000 false (at_rest db) ≡ (ok tt, written)
unfolding written insert_execution open_order Orders.get Orders.has_order Orders.derive
    consequence_changed_event Events.new_event Events.lookup Events.produced Events.validate
    Outbox.record_event Outbox.insert Outbox.check_event Events.dataschema_for mark_processed
    is_held Inbox.settle_row Events.draft open_record link_order announce settle_row
rows_are_written = refl

abbrev place : Target
place = record { ad_client_id = 11; ad_org_id = 12; engine_instance_id = some "engine_1" }

-- later: the order's invoice was posted, another order was opened, and the outbox was emptied
abbrev with_fact : Orders.Table
with_fact =
    (Orders.record_fact "tn_acme1" "ord_1" Orders.invoice_posted 50 (some "inv_1")
      written.working.business.consequences).0

abbrev with_another : Orders.Table
with_another = with_fact ++ Orders.opened "tn_acme1" "ZURI-KE" "ord_2" 1 "erp_other" 60 ∷ []

abbrev later : Db Business
later = record {
  inbox = [];
  business = record (written.working.business) { consequences = with_another; outbox = [] };
}

another_is_opened :
    open_order "tn_acme1" "ZURI-KE" "ord_2" 1 "erp_other" 60 with_fact
    ≡ ok (Orders.get "tn_acme1" "ord_2" with_another, with_another)
unfolding written open_order Orders.record_fact Orders.note Orders.has_order write_rows
    insert_execution Orders.get Orders.derive consequence_changed_event Events.new_event
    Events.lookup Events.produced Events.validate Outbox.record_event Outbox.insert
    Outbox.check_event Events.dataschema_for mark_processed is_held Inbox.settle_row Events.draft
    open_record link_order announce settle_row
another_is_opened = refl

placed_later :
    (w : AllWritten env claim "tn_acme1" placed 1000 false db written.working.business
      written.working.inbox)
    → target later.business "tn_acme1" "ZURI-KE" ≡ some place
unfolding target
placed_later w = rw (w.same_tenants) refl

execute-AllWritten_example :
    execute env claim (no_permits, (at_rest later, []))
    ≡ (ok (outcome processed "ALREADY_EXECUTED" ""), (no_permits, (at_rest later, [])))
execute-AllWritten_example =
    let w =
      write_rows-AllWritten env claim "tn_acme1" placed 1000 false db written rows_are_written in
    execute-AllWritten env claim "tn_acme1" "engine_1" placed place env claim placed 1000 false db
      written.working.business written.working.inbox later no_permits [] w
      (order_opened
        (fact_recorded unchanged "tn_acme1" "ord_1" Orders.invoice_posted 50 (some "inv_1"))
        "tn_acme1" "ZURI-KE" "ord_2" 1 "erp_other" 60 another_is_opened)
      refl refl payload_is_parsed refl refl (placed_later w) refl refl
