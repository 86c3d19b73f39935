-- ===== src/Commands/Grown.antt =====
-- What a command leaves of the stores as they were (Commands/Documents.antt).
use mathlib.Core.List.{append-nil, append_assoc}
use baobab_erp.Common.{
  ℕ, ◌≡◌, sym, ap, ◌∙◌, arith, String, string_eq, pair_eq, Bool, Option, List, [], ◌∷◌, ◌++◌,
  is_some, find_key, ok, ok_inj, Result-cases, Bool-cases, inl, inr, subst,
}
use baobab_erp.Events.{CloudEvent}
use baobab_erp.Egress.{TenantScope}
use baobab_erp.Orders
use baobab_erp.Orders.{Link, link_key, link_document, StoreError, has_order, duplicate_key}
use baobab_erp.Outbox
use baobab_erp.Outbox.{insert, record_legacy, record_event, check_event, insert_checked}
use baobab_erp.Commands.Mappings
use baobab_erp.Commands.Mappings.{
  Mapping, MappingError, unknown_owner, not_a_uuid, NewIds, create_mapping, well_formed,
  insert_mapping,
}
use baobab_erp.Commands.Inserted.{create_mapping-IsInserted}
use baobab_erp.Commands.Stores.{Ledger, World, ledger, Env}
use baobab_erp.Commands.Requests.{Command, run}
use baobab_erp.Commands.Steps.{Steps}
use baobab_erp.Commands.Whole.{run-Kept}

-- rows were added at the end, and none was changed or removed
abbrev pub IsLonger : {A : Type 0} → List A → List A → Type 0
IsLonger {A = A} before after = (added : List A) × (after ≡ before ++ added)

-- the mappings, the links of documents and the recorded events grow
pub record Grows (before after : Ledger) : Type 0 where
  pub mappings : IsLonger before.mappings after.mappings
  pub links : IsLonger before.links after.links
  pub outbox : IsLonger before.outbox after.outbox

same_rows : {A : Type 0} (xs : List A) → IsLonger xs xs
same_rows xs = ([], sym (append-nil xs))

more_rows : {A : Type 0} (xs ys zs : List A) → IsLonger xs ys → IsLonger ys zs → IsLonger xs zs
more_rows xs ys zs (a, e) (b, f) = (a ++ b, f ∙ ap (λ l. l ++ b) e ∙ append_assoc xs a b)

insert-IsLonger : (r : Outbox.Row) (t u : Outbox.Table) → insert r t ≡ ok u → IsLonger t u
unfolding insert
insert-IsLonger r t u h = (r ∷ [], ground (arith, h))

record_event-IsLonger :
    (now : ℕ) (e : CloudEvent) (t u : Outbox.Table) → record_event now e t ≡ ok u → IsLonger t u
unfolding record_event
record_event-IsLonger now e t u h = elim (Result-cases (check_event e)) [
  | inl (x, k) ↦ insert-IsLonger _ t u (rw (k, insert_checked) at h)
  | inr (x, k) ↦ cc (rw (k, insert_checked) at h)
]

link_document-IsLonger :
    (tenant_id kind id order_id : String) (t : Orders.Table) (links after : List Link)
    (found : Bool)
    → link_document tenant_id kind id order_id t links ≡ ok (found, after)
    → IsLonger links after
unfolding link_document
link_document-IsLonger tenant_id kind id order_id t links after found h =
    elim (Bool-cases (has_order tenant_id order_id t)) [
      | inr e ↦ subst (IsLonger links) (ap (λ x. x.1) (ok_inj (rw e at h))) (same_rows links)
      | inl e ↦ elim (Bool-cases (is_some (find_key link_key (tenant_id, (kind, id)) links))) [
        | inl taken ↦ absurd (cc (rw (e, taken) at h))
        | inr free ↦ (_, sym (ap (λ x. x.1) (ok_inj (rw (e, free) at h))))
      ]
    ]

create_mapping-IsLonger :
    (as_uuid : String → Option String) (ids : NewIds) (tenant entity kind id table : String)
    (native_id : ℕ) (owner : String) (t u : Mappings.Table)
    → create_mapping as_uuid ids tenant entity kind id table native_id owner t ≡ ok u
    → IsLonger t u
create_mapping-IsLonger as_uuid ids tenant entity kind id table native_id owner t u h =
    let (uuid, known, inserted) =
      create_mapping-IsInserted as_uuid ids tenant entity kind id table native_id owner t u h in
    (_, inserted.added)

module _ {N : Type 0} (env : Env N) (scope : TenantScope) where
  Grows-Steps : Steps env scope Grows
  unfolding record_legacy
  Grows-Steps = record {
    same = λ l. record {
      mappings = same_rows l.mappings;
      links = same_rows l.links;
      outbox = same_rows l.outbox;
    };
    next = λ a b c x y. record {
      mappings = more_rows a.mappings b.mappings c.mappings x.mappings y.mappings;
      links = more_rows a.links b.links c.links x.links y.links;
      outbox = more_rows a.outbox b.outbox c.outbox x.outbox y.outbox;
    };
    maps = λ l kind id table native_id t h. record {
      mappings =
          create_mapping-IsLonger env.as_uuid env.new_ids scope.tenant_id scope.legal_entity_id kind
            id table native_id "erp" l.mappings t h;
      links = same_rows l.links;
      outbox = same_rows l.outbox;
    };
    holds = λ l e t h. record {
      mappings = same_rows l.mappings;
      links = same_rows l.links;
      outbox = insert-IsLonger _ l.outbox t h;
    };
    records = λ l e t h. record {
      mappings = same_rows l.mappings;
      links = same_rows l.links;
      outbox = record_event-IsLonger env.database e l.outbox t h;
    };
    opens = λ l order_id version erp_id r t h. record {
      mappings = same_rows l.mappings;
      links = same_rows l.links;
      outbox = same_rows l.outbox;
    };
    observes = λ l order_id fact invoice_id. record {
      mappings = same_rows l.mappings;
      links = same_rows l.links;
      outbox = same_rows l.outbox;
    };
    links = λ l kind id order_id found links h. record {
      mappings = same_rows l.mappings;
      links =
          link_document-IsLonger scope.tenant_id kind id order_id l.consequences l.links links found
            h;
      outbox = same_rows l.outbox;
    };
    advances = λ l kind id status detail now. record {
      mappings = same_rows l.mappings;
      links = same_rows l.links;
      outbox = same_rows l.outbox;
    };
  }

  -- A command, whether it returns or raises and wherever, only adds rows to the mappings, to the links
  -- of documents and to the outbox: what was recorded before it is still there, in its order.
  pub run-Grows : (c : Command) (w : World N) → Grows (ledger w) (ledger (run env scope c w).1)
  run-Grows c w = (run-Kept env scope Grows Grows-Steps c).keeps w
