-- ===== src/Commands/Steps.antt =====
-- What a command does to the stores (Commands/Documents.antt): statements of seven kinds, one after the
-- other. A relation of ledgers that these keep, and that composes, is kept by whole commands.
use baobab_erp.Common.{
  ℕ, ◌≡◌, refl, String, string_eq, pair_eq, option_eq, Bool, true, false, Bool-cases, inl, inr,
  Option, none, some, List, Result, ok, err,
}
use baobab_erp.Json.{Value, Fields}
use baobab_erp.Egress.{
  TenantScope, Permits, Call, ClientError, Request, with_request, native_action_allowed,
  invoice_post_allowed,
}
use baobab_erp.Events.{CloudEvent, EventEnvelope, EnvelopeError}
use baobab_erp.Orders
use baobab_erp.Orders.{
  OrderConsequence, Fact, Recorded, Link, record_fact, open_order, link_document, advance,
}
use baobab_erp.Outbox
use baobab_erp.Outbox.{record_event, record_legacy}
use baobab_erp.Execution.Announcement.{consequence_changed_event}
use baobab_erp.Commands.Calls.{◌>>=◌, ◌>>◌, continue_with, check, when}
use baobab_erp.Commands.Mappings
use baobab_erp.Commands.Mappings.{MappingError, create_mapping, find_native, erp_resource_id}
use baobab_erp.Commands.Stores.{
  CommandError, Detail, Ledger, World, Act, ledger, Env, written, write_ledger, on_engine,
  read_ledger,
}
use baobab_erp.Commands.Ledger.{
  mapped, recorded, recorded_event, announce_changed, deny_native_action, deny_invoice_post,
  map_record, create_and_map, execute_process, resolve_native, public_id, announce, observe,
  record_envelope,
}

module _ {N : Type 0} (env : Env N) (scope : TenantScope) where
  -- a relation that every statement of a command keeps
  pub record Steps (R : Ledger → Ledger → Type 0) : Type 0 where
    pub same : (l : Ledger) → R l l
    pub next : (a b c : Ledger) → R a b → R b c → R a c
    pub maps :
        (l : Ledger) (canonical_type canonical_id table : String) (native_id : ℕ)
        (t : Mappings.Table)
        → create_mapping env.as_uuid env.new_ids scope.tenant_id scope.legal_entity_id
            canonical_type canonical_id table native_id "erp" l.mappings
          ≡ ok t
        → R l (record l { mappings = t })
    pub holds :
        (l : Ledger) (e : EventEnvelope) (t : Outbox.Table)
        → record_legacy env.database e l.outbox ≡ ok t
        → R l (record l { outbox = t })
    pub records :
        (l : Ledger) (e : CloudEvent) (t : Outbox.Table)
        → record_event env.database e l.outbox ≡ ok t
        → R l (record l { outbox = t })
    pub opens :
        (l : Ledger) (order_id : String) (version : ℕ) (erp_id : String)
        (r : Option OrderConsequence) (t : Orders.Table)
        → open_order scope.tenant_id scope.legal_entity_id order_id version erp_id env.fact_at
            l.consequences
          ≡ ok (r, t)
        → R l (record l { consequences = t })
    pub observes :
        (l : Ledger) (order_id : String) (fact : Fact) (invoice_id : Option String)
        → R l (record l {
          consequences =
              (record_fact scope.tenant_id order_id fact env.fact_at invoice_id l.consequences).0;
        })
    pub links :
        (l : Ledger) (kind id order_id : String) (done : Bool) (links : List Link)
        → link_document scope.tenant_id kind id order_id l.consequences l.links ≡ ok (done, links)
        → R l (record l { links = links })
    pub advances :
        (l : Ledger) (kind id status : String) (detail : Detail) (now : ℕ)
        → R l (record l {
          outcomes = (advance (scope.tenant_id, (kind, id)) status detail now l.outcomes).1;
        })

  module _ (R : Ledger → Ledger → Type 0) where
    -- a call whose stores afterwards are in the relation to those before
    pub record Kept {A : Type 0} (act : Act N A) : Type 0 where
      pub keeps : (w : World N) → R (ledger w) (ledger (act w).1)

  module _ (R : Ledger → Ledger → Type 0) (steps : Steps R) where
    continue_with-Kept :
        {A B : Type 0} (l : Ledger) (r : Result CommandError A × World N) (next : A → Act N B)
        → R l (ledger r.1)
        → ((a : A) → Kept R (next a))
        → R l (ledger (continue_with r next).1)
    continue_with-Kept l (ok a, w) next first rest =
        steps.next l (ledger w) (ledger (next a w).1) first ((rest a).keeps w)
    continue_with-Kept l (err e, w) next first rest = first

    -- A chain is kept where its first call and the rest are.
    pub bind-Kept :
        {A B : Type 0} {act : Act N A} {next : A → Act N B}
        → Kept R act
        → ((a : A) → Kept R (next a))
        → Kept R (act >>= next)
    unfolding ◌>>=◌
    bind-Kept {act = act} {next = next} first rest = record {
      keeps = λ w. continue_with-Kept (ledger w) (act w) next (first.keeps w) rest;
    }

    pub then-Kept :
        {B : Type 0} {act : Act N (Unit {0})} {rest : Act N B}
        → Kept R act
        → Kept R rest
        → Kept R (act >> rest)
    unfolding ◌>>◌
    then-Kept {act = act} {rest = rest} first last = record {
      keeps = λ w. continue_with-Kept (ledger w) (act w) (λ _. rest) (first.keeps w) (λ _. last);
    }

    pub check-Kept : {A : Type 0} (r : Result CommandError A) → Kept R (check r)
    check-Kept r = record { keeps = λ w. steps.same (ledger w) }

    pub read_ledger-Kept : Kept R read_ledger
    read_ledger-Kept = record { keeps = λ w. steps.same (ledger w) }

    pub when-Kept : (test : Bool) {act : Act N (Unit {0})} → Kept R act → Kept R (when test act)
    when-Kept true act = record { keeps = act.keeps }
    when-Kept false act = record { keeps = λ w. steps.same (ledger w) }

    pub with_request-Kept :
        {A : Type 0} (request : Request) {body : Act N A}
        → Kept R body
        → Kept R (with_request request body)
    unfolding with_request
    with_request-Kept request body = record {
      keeps = λ w. body.keeps (record (w.0) { request = some request }, w.1);
    }

    pub on_engine-Kept :
        {A : Type 0} (call : Call ClientError (Permits × N) A) → Kept R (on_engine call)
    on_engine-Kept call = record { keeps = λ w. steps.same (ledger w) }

    mapped-Kept :
        (canonical_type canonical_id table : String) (native_id : ℕ) (l : Ledger) (p : Permits)
        (n : N) (r : Result MappingError Mappings.Table)
        → create_mapping env.as_uuid env.new_ids scope.tenant_id scope.legal_entity_id
            canonical_type canonical_id table native_id "erp" l.mappings
          ≡ r
        → R l (
            ledger
              (written
                (mapped env scope canonical_type canonical_id table native_id l r)
                (p, (l, n))).1)
    mapped-Kept canonical_type canonical_id table native_id l p n (ok t) e =
        steps.maps l canonical_type canonical_id table native_id t e
    mapped-Kept canonical_type canonical_id table native_id l p n (err x) e = steps.same l

    map_record-Kept :
        (canonical_type canonical_id table : String) (native_id : ℕ)
        → Kept R (map_record env scope canonical_type canonical_id table native_id)
    unfolding map_record
    map_record-Kept canonical_type canonical_id table native_id = record {
      keeps = λ (p, (l, n)). mapped-Kept canonical_type canonical_id table native_id l p n _ refl;
    }

    pub create_and_map-Kept :
        (canonical_type canonical_id table : String) (fields : Fields)
        → Kept R (create_and_map env scope canonical_type canonical_id table fields)
    unfolding create_and_map
    create_and_map-Kept canonical_type canonical_id table fields =
        bind-Kept (with_request-Kept _ (on_engine-Kept (env.engine.create_record table fields)))
          λ native_id.
            then-Kept (map_record-Kept canonical_type canonical_id table native_id) (check-Kept _)

    pub execute_process-Kept :
        (id : ℕ) (parameters : Fields) → Kept R (execute_process env id parameters)
    unfolding execute_process
    execute_process-Kept id parameters =
        with_request-Kept _ (on_engine-Kept (env.engine.execute_process id parameters))

    pub resolve_native-Kept :
        (canonical_type canonical_id table : String)
        → Kept R (resolve_native env scope canonical_type canonical_id table)
    unfolding resolve_native
    resolve_native-Kept canonical_type canonical_id table = bind-Kept read_ledger-Kept λ l.
        bind-Kept (check-Kept _)
          λ found. bind-Kept (check-Kept _) λ ref. then-Kept (check-Kept _) (check-Kept _)

    pub public_id-Kept :
        (canonical_type canonical_id : String)
        → Kept R (public_id env scope canonical_type canonical_id)
    unfolding public_id
    public_id-Kept canonical_type canonical_id = bind-Kept read_ledger-Kept λ l. check-Kept _

    pub deny_native_action-Kept :
        (action reference : String) → Kept R (deny_native_action env scope action reference)
    unfolding deny_native_action
    deny_native_action-Kept action reference = record {
      keeps = λ (p, (l, n)).
          elim (Bool-cases (native_action_allowed env.protected scope action reference p)) [
            | inl e ↦ rw e (steps.same l)
            | inr e ↦ rw e (steps.same l)
          ];
    }

    pub deny_invoice_post-Kept :
        (invoice_id : String) → Kept R (deny_invoice_post env scope invoice_id)
    unfolding deny_invoice_post
    deny_invoice_post-Kept invoice_id = record {
      keeps = λ (p, (l, n)).
          elim (Bool-cases (invoice_post_allowed env.protected scope invoice_id p)) [
            | inl e ↦ rw e (steps.same l)
            | inr e ↦ rw e (steps.same l)
          ];
    }

    recorded-Kept :
        (l : Ledger) (p : Permits) (n : N) (e : EventEnvelope)
        (r : Result Outbox.StoreError Outbox.Table)
        → record_legacy env.database e l.outbox ≡ r
        → R l (ledger (written (recorded env l r) (p, (l, n))).1)
    recorded-Kept l p n e (ok t) h = steps.holds l e t h
    recorded-Kept l p n e (err x) h = steps.same l

    pub record_envelope-Kept :
        (event_type correlation_id : String) (payload : Value)
        → Kept R (record_envelope env event_type scope correlation_id payload)
    unfolding record_envelope
    record_envelope-Kept event_type correlation_id payload = record {
      keeps = λ (p, (l, n)). recorded-Kept l p n _ _ refl;
    }

    event-Kept :
        (l : Ledger) (p : Permits) (n : N) (e : CloudEvent)
        (r : Result Outbox.StoreError Outbox.Table)
        → record_event env.database e l.outbox ≡ r
        → R l (ledger (written (recorded env l r) (p, (l, n))).1)
    event-Kept l p n e (ok t) h = steps.records l e t h
    event-Kept l p n e (err x) h = steps.same l

    pub recorded_event-Kept :
        (event : Result EnvelopeError CloudEvent)
        → Kept R (write_ledger (λ l. recorded_event env l event))
    recorded_event-Kept (ok e) = record { keeps = λ (p, (l, n)). event-Kept l p n e _ refl }
    recorded_event-Kept (err x) = record { keeps = λ w. steps.same (ledger w) }

    pub announce-Kept :
        (entry : Option OrderConsequence) (correlation_id : Option String)
        → Kept R (announce env entry correlation_id)
    unfolding announce
    announce-Kept none correlation_id = record { keeps = λ w. steps.same (ledger w) }
    announce-Kept (some r) correlation_id = record {
      keeps =
          (recorded_event-Kept
            (consequence_changed_event env.texts env.fresh_id r correlation_id)).keeps;
    }

    announce_changed-Kept :
        (found : Option Recorded) (correlation_id : Option String)
        → Kept R (announce_changed env found correlation_id)
    announce_changed-Kept none correlation_id = record { keeps = λ w. steps.same (ledger w) }
    announce_changed-Kept (some r) correlation_id = record {
      keeps = (when-Kept r.changed (announce-Kept r.entry correlation_id)).keeps;
    }

    pub observe-Kept :
        (order_id : String) (fact : Fact) (invoice_id correlation_id : Option String)
        → Kept R (observe env scope order_id fact invoice_id correlation_id)
    unfolding observe
    observe-Kept order_id fact invoice_id correlation_id =
        bind-Kept (record { keeps = λ w. steps.observes (ledger w) order_id fact invoice_id })
          λ found. announce_changed-Kept found correlation_id
