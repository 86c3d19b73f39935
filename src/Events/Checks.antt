-- ===== src/Events/Checks.antt =====
-- What the envelope checks establish (Events/Envelope.antt).
use baobab_erp.Common.{
  String, string_eq, option_eq, eq_law, ◌≡◌, refl, ◌⊎◌, true, Option, none, some, List, [], ◌∷◌,
  ◌==◌, arith, All, Result, ok, err, is_ok, ◌>>=◌, ◌>>◌, Option-cases, Bool-cases, inl, inr, subst,
  sym, ap, ◌∙◌, ◌≢◌,
}
use baobab_erp.Identifiers
use baobab_erp.Events.Registry.{erp_source, lookup, produced, consumed, dataschema_for}
use baobab_erp.Events.Envelope.{
  CloudEvent, EnvelopeError, not_consumed, check_tenant, check_scope, validate, NewEvent, draft,
  new_event, check_consumable,
}

-- what a check returns, if it returns, is the event that it was given
record Gives (e : CloudEvent) (r : Result EnvelopeError CloudEvent) : Type 0 where
  same : (f : CloudEvent) → r ≡ ok f → f ≡ e

Gives-ok : (e : CloudEvent) → Gives e (ok e)
Gives-ok e = record { same = λ f h. cc }

Gives-bind {ℓ} :
    {A : Type ℓ} (e : CloudEvent) (m : Result EnvelopeError A)
    (k : A → Result EnvelopeError CloudEvent)
    → ((a : A) → Gives e (k a))
    → Gives e (m >>= k)
Gives-bind e (ok a) k h = h a
Gives-bind e (err _) k h = record { same = λ f q. cc }

Gives-then :
    (e : CloudEvent) (m : Result EnvelopeError Unit) (k : Result EnvelopeError CloudEvent)
    → Gives e k
    → Gives e (m >> k)
Gives-then e (ok _) k h = h
Gives-then e (err _) k h = record { same = λ f q. cc }

ruleset gives_rules = (Gives-ok, Gives-bind, Gives-then)

validate-Gives : (e : CloudEvent) → Gives e (validate e)
unfolding validate
validate-Gives e = search gives_rules depth 15

-- Validation never rewrites a member: what it returns is the event that it was given.
pub validate-same : (e : CloudEvent) {f : CloudEvent} → validate e ≡ ok f → f ≡ e
validate-same e {f} h = (validate-Gives e).same f h

-- A tenant event carries a canonical tenant, and a platform event carries none.
abbrev pub HasScope : CloudEvent → Type 0
HasScope e =
    ((e.baobabscope ≡ "tenant")
      × ((tenant : String) × (e.tenantid ≡ some tenant)
          × (is_ok (Identifiers.tenant_id tenant) ≡ true)))
    ⊎ ((e.baobabscope ≡ "platform") × (e.tenantid ≡ none))

check_tenant-ok :
    (o : Option String)
    → check_tenant o ≡ ok tt
    → (tenant : String) × (o ≡ some tenant) × (is_ok (Identifiers.tenant_id tenant) ≡ true)
unfolding check_tenant
check_tenant-ok none h = cc
check_tenant-ok (some tenant) h = (tenant, refl, ground arith)

check_scope-ok : (e : CloudEvent) → check_scope e ≡ ok tt → HasScope e
unfolding check_scope
check_scope-ok e h = elim (Bool-cases (e.baobabscope == "tenant")) [
  | inl t ↦ inl ((eq_law e.baobabscope "tenant").0 t, check_tenant-ok e.tenantid (ground arith))
  | inr t ↦ inr (ground (arith, eq_law e.baobabscope "platform"), ground arith)
]

validate-check_scope : (e : CloudEvent) {f : CloudEvent} → validate e ≡ ok f → check_scope e ≡ ok tt
unfolding validate
validate-check_scope e h = ground arith

-- The scope rule holds of every event that passes validation.
validate-HasScope : (e : CloudEvent) {f : CloudEvent} → validate e ≡ ok f → HasScope e
validate-HasScope e h = check_scope-ok e (validate-check_scope e h)

-- a validated event of ERP with the registered schema of its type
pub record IsProduced (e : CloudEvent) : Type 0 where
  pub valid : validate e ≡ ok e
  pub from_erp : e.source ≡ erp_source
  pub registered : lookup e.type produced ≡ some e.dataschema

-- A validated draft is the draft, so it has what the draft has.
validated_draft :
    (d : CloudEvent) (uri : String) {e : CloudEvent}
    → d.source ≡ erp_source
    → lookup d.type produced ≡ some uri
    → d.dataschema ≡ uri
    → validate d ≡ ok e
    → IsProduced e
validated_draft d uri {e} from reg schema h =
    let same = validate-same d h in
    subst IsProduced (sym same)
      (record { valid = h ∙ ap ok same; from_erp = from; registered = reg ∙ ap some (sym schema) })

-- What `new_event` returns is validated, comes from ERP, and carries its type's registered schema.
pub new_event-IsProduced : (a : NewEvent) {e : CloudEvent} → new_event a ≡ ok e → IsProduced e
unfolding new_event draft
new_event-IsProduced a {e} h = elim (Option-cases (lookup a.event_type produced)) [
  | inl missing ↦ cc (rw missing at h)
  | inr (uri, found) ↦ validated_draft (draft a uri) uri refl found refl (rw found at h)
]

-- No type is both produced and consumed.
module _ {ℓ κ} {V : Type ℓ} (P : String → Type κ) where
  lookup-All :
      (k : String) (entries : List (String × V)) {v : V}
      → All (λ e. P e.0) entries
      → lookup k entries ≡ some v
      → P k
  unfolding lookup
  lookup-All k [] h found = cc
  lookup-All k ((j, w) ∷ entries) {v} h found = elim (Bool-cases (j == k)) [
    | inl e ↦ subst P ((eq_law j k).0 e) h.0
    | inr e ↦ lookup-All k entries {v = v} h.1 (rw e at found)
  ]

produced_not_consumed :
    (k : String) {uri : String} → lookup k produced ≡ some uri → lookup k consumed ≡ none
unfolding lookup produced consumed
produced_not_consumed k found =
    lookup-All (λ t. lookup t consumed ≡ none) k produced
      (refl, (refl, (refl, (refl, (refl, (refl, (refl, (refl, tt)))))))) found

-- ERP never accepts an event of its own making as an inbound one.
new_event-check_consumable :
    (a : NewEvent) {e : CloudEvent} → new_event a ≡ ok e → check_consumable e ≡ err not_consumed
unfolding check_consumable
new_event-check_consumable a {e} h =
    rw (produced_not_consumed e.type (new_event-IsProduced a h).registered)

-- An inbound event that passes is registered, carries its type's schema and is tenant-scoped.
pub check_consumable-ok :
    (e : CloudEvent) {f : CloudEvent}
    → check_consumable e ≡ ok f
    → (f ≡ e)
      × (lookup e.type consumed ≢ none)
      × (dataschema_for e.type ≡ some e.dataschema)
      × (e.baobabscope ≡ "tenant")
unfolding check_consumable
check_consumable-ok e h = elim (Option-cases (lookup e.type consumed)) [
  | inl missing ↦ cc (rw missing at h)
  | inr (entry, found) ↦
      ground
        (arith, eq_law (some e.dataschema) (dataschema_for e.type), eq_law e.baobabscope "tenant")
]
