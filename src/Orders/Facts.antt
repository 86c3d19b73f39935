-- ===== src/Orders/Facts.antt =====
-- What the order-consequence read model (Orders/Consequence.antt) keeps true, and that it depends on
-- which facts were observed and not on their order.
use baobab_erp.Common.{
  ℕ, ◌+◌, String, string_eq, pair_eq, eq_law, ◌≡◌, ◌↔◌, refl, sym, subst, ◌∙◌, Bool, true, false,
  Option, none, some, ◌==◌, arith, is_none, find_key, map_option, find_key-update, find_key-key,
  Bool-cases, Option-cases, inl, inr, if◌then◌else◌,
}
use baobab_erp.Orders.Consequence.{
  Fact, order_completed, shipment_completed, invoice_posted, Observed, derive, Row, Table, read,
  key, find, get, is_order, observed_at, observed, note, note_row, record_fact,
}

abbrev Reads : Observed → Type 0
Reads f =
    (((derive f).status ≡ "posted") ↔ ((f.has_invoice ≡ true) × (f.has_shipment ≡ true)))
    × (((derive f).status ≡ "accepted")
        ↔ ((f.has_order ≡ false) × (f.has_shipment ≡ false) × (f.has_invoice ≡ false)))

abbrev facts : Bool → Bool → Bool → Observed
facts o s i = record { has_order = o; has_shipment = s; has_invoice = i }

reads : (o s i : Bool) → Reads (facts o s i)
unfolding derive
reads true true true = (((λ h. (refl, refl)), (λ (a, b). refl)), ((λ h. cc), (λ (a, b, c). cc)))
reads true true false = (((λ h. cc), (λ (a, b). cc)), ((λ h. cc), (λ (a, b, c). cc)))
reads true false true = (((λ h. cc), (λ (a, b). cc)), ((λ h. cc), (λ (a, b, c). cc)))
reads true false false = (((λ h. cc), (λ (a, b). cc)), ((λ h. cc), (λ (a, b, c). cc)))
reads false true true = (((λ h. (refl, refl)), (λ (a, b). refl)), ((λ h. cc), (λ (a, b, c). cc)))
reads false true false = (((λ h. cc), (λ (a, b). cc)), ((λ h. cc), (λ (a, b, c). cc)))
reads false false true = (((λ h. cc), (λ (a, b). cc)), ((λ h. cc), (λ (a, b, c). cc)))
reads false false false = (((λ h. cc), (λ (a, b). cc)), ((λ h. (refl, refl, refl)), (λ h. refl)))

-- An order is posted exactly when its invoice was posted and its shipment completed, and accepted
-- exactly when nothing was observed.
pub derive_lem :
    (f : Observed)
    → (((derive f).status ≡ "posted") ↔ ((f.has_invoice ≡ true) × (f.has_shipment ≡ true)))
      × (((derive f).status ≡ "accepted")
          ↔ ((f.has_order ≡ false) × (f.has_shipment ≡ false) × (f.has_invoice ≡ false)))
derive_lem f = reads f.has_order f.has_shipment f.has_invoice

abbrev pub facts_known : Observed → ℕ
facts_known f =
    (if f.has_order then 1 else 0)
    + (if f.has_shipment then 1 else 0)
    + (if f.has_invoice then 1 else 0)

-- the statuses are those of the observed facts, and each fact made one revision
pub record IsDerived (r : Row) : Type 0 where
  pub statuses :
      record {
        status = r.status;
        accounting_status = r.accounting_status;
        inventory_status = r.inventory_status;
      }
      ≡ derive (observed r)
  pub revisions : r.revision ≡ 1 + facts_known (observed r)

note-IsDerived :
    (fact : Fact) (now : ℕ) (invoice_id : Option String) (r : Row)
    → observed_at fact r ≡ none
    → IsDerived r
    → IsDerived (note fact now invoice_id r)
unfolding note
note-IsDerived order_completed now invoice_id r new d = record {
  statuses = refl;
  revisions = ground (arith, new, d.revisions);
}
note-IsDerived shipment_completed now invoice_id r new d = record {
  statuses = refl;
  revisions = ground (arith, new, d.revisions);
}
note-IsDerived invoice_posted now invoice_id r new d = record {
  statuses = refl;
  revisions = ground (arith, new, d.revisions);
}

pub key-note :
    (fact : Fact) (now : ℕ) (invoice_id : Option String) (r : Row)
    → key (note fact now invoice_id r) ≡ key r
unfolding note
key-note order_completed now invoice_id r = refl
key-note shipment_completed now invoice_id r = refl
key-note invoice_posted now invoice_id r = refl

get-find :
    (tenant order : String) (t : Table) {r : Row}
    → find tenant order t ≡ some r
    → get tenant order t ≡ some (read r)
unfolding get
get-find tenant order t e = rw e

-- a fact noted where it was not observed, and the row as it is where it was
abbrev pub noted : Fact → ℕ → Option String → Row → Row
noted fact now invoice_id r = if is_none (observed_at fact r) then note fact now invoice_id r else r

module _ (tenant order : String) (fact : Fact) (now : ℕ) (invoice_id : Option String)
    (t : Table) where
  -- Recording a fact notes it in the row of its order, where it was not observed yet.
  pub find-record_fact :
      find tenant order (record_fact tenant order fact now invoice_id t).0
      ≡ map_option (noted fact now invoice_id) (find tenant order t)
  unfolding record_fact
  find-record_fact = elim (Option-cases (find tenant order t)) [
    | inl e ↦ rw (e, note_row) e
    | inr (r, e) ↦
        let here : is_order tenant order r ≡ true =
          (eq_law (key r) (tenant, order)).1 (find_key-key key (tenant, order) t e) in
        elim (Bool-cases (is_none (observed_at fact r))) [
          | inl new ↦
              rw (e, note_row, new)
                (find_key-update key (is_order tenant order) (note fact now invoice_id)
                    (tenant, order) t (key-note fact now invoice_id)
                  ∙ rw (e, here))
          | inr old ↦ rw (e, note_row, old) e
        ]
  ]

  reported :
      (r : Row)
      → find tenant order t ≡ some r
      → (record_fact tenant order fact now invoice_id t).1
        ≡ some (record {
          entry = get tenant order (record_fact tenant order fact now invoice_id t).0;
          changed = is_none (observed_at fact r);
        })
  unfolding record_fact
  reported r e = rw (e, note_row)

  -- the row that a call reports, and whether it was a change
  pub report-record_fact :
      (r : Row)
      → find tenant order t ≡ some r
      → (record_fact tenant order fact now invoice_id t).1
        ≡ some (record {
          entry = some (read (noted fact now invoice_id r));
          changed = is_none (observed_at fact r);
        })
  report-record_fact r e =
      let after : find tenant order (record_fact tenant order fact now invoice_id t).0
          ≡ some (noted fact now invoice_id r) =
        find-record_fact ∙ rw e in
      reported r e
      ∙ rw (get-find tenant order (record_fact tenant order fact now invoice_id t).0 after)

  other-record_fact :
      (k : String × String)
      → ((tenant, order) == k) ≡ false
      → find_key key k (record_fact tenant order fact now invoice_id t).0 ≡ find_key key k t
  unfolding record_fact
  other-record_fact k apart = elim (Option-cases (find tenant order t)) [
    | inl e ↦ rw (e, note_row)
    | inr (r, e) ↦ elim (Bool-cases (is_none (observed_at fact r))) [
      | inr old ↦ rw (e, note_row, old)
      | inl new ↦ elim (Option-cases (find_key key k t)) [
        | inl missing ↦
            rw (e, note_row, new)
              (find_key-update key (is_order tenant order) (note fact now invoice_id) k t
                  (key-note fact now invoice_id)
                ∙ rw missing)
        | inr (x, found) ↦
            let other : is_order tenant order x ≡ false =
              elim (Bool-cases (is_order tenant order x)) [
                | inl q ↦
                    let same : (tenant, order) ≡ k =
                      sym ((eq_law (key x) (tenant, order)).0 q) ∙ find_key-key key k t found in
                    let equal : ((tenant, order) == k) ≡ true = (eq_law (tenant, order) k).1 same in
                    cc (equal, apart)
                | inr q ↦ q
              ] in
            rw (e, note_row, new)
              (find_key-update key (is_order tenant order) (note fact now invoice_id) k t
                  (key-note fact now invoice_id)
                ∙ rw (found, other))
      ]
    ]
  ]

abbrev pub HasDerived : Option Row → Type 0
HasDerived none = Unit
HasDerived (some r) = IsDerived r

-- every row that can be looked up has the statuses and the revision of its facts
abbrev pub AllDerived : Table → Type 0
AllDerived t = (k : String × String) → HasDerived (find_key key k t)

noted-IsDerived :
    (fact : Fact) (now : ℕ) (invoice_id : Option String) (r : Row)
    → IsDerived r
    → IsDerived (noted fact now invoice_id r)
noted-IsDerived fact now invoice_id r d = elim (Option-cases (observed_at fact r)) [
  | inl new ↦ rw new (note-IsDerived fact now invoice_id r new d)
  | inr (at, old) ↦ rw old d
]

derived_after :
    (fact : Fact) (now : ℕ) (invoice_id : Option String) (o : Option Row)
    → HasDerived o
    → HasDerived (map_option (noted fact now invoice_id) o)
derived_after fact now invoice_id none d = tt
derived_after fact now invoice_id (some r) d = noted-IsDerived fact now invoice_id r d

-- Recording a fact keeps statuses derived from the facts, and one revision for each fact.
pub record_fact-AllDerived :
    (tenant order : String) (fact : Fact) (now : ℕ) (invoice_id : Option String) (t : Table)
    → AllDerived t
    → AllDerived (record_fact tenant order fact now invoice_id t).0
record_fact-AllDerived tenant order fact now invoice_id t d k =
    elim (Bool-cases ((tenant, order) == k)) [
      | inr apart ↦
          subst HasDerived (sym (other-record_fact tenant order fact now invoice_id t k apart))
            (d k)
      | inl same ↦
          subst
            (λ j. HasDerived (find_key key j (record_fact tenant order fact now invoice_id t).0))
            ((eq_law (tenant, order) k).0 same)
            (subst HasDerived (sym (find-record_fact tenant order fact now invoice_id t))
              (derived_after fact now invoice_id (find tenant order t) (d (tenant, order))))
    ]

now_observed :
    (fact : Fact) (now : ℕ) (invoice_id : Option String) (r : Row)
    → is_none (observed_at fact (note fact now invoice_id r)) ≡ false
unfolding note
now_observed order_completed now invoice_id r = refl
now_observed shipment_completed now invoice_id r = refl
now_observed invoice_posted now invoice_id r = refl

record_fact_idle :
    (tenant order : String) (fact : Fact) (now : ℕ) (invoice_id : Option String) (t : Table)
    {r : Row}
    → find tenant order t ≡ some r
    → is_none (observed_at fact r) ≡ false
    → record_fact tenant order fact now invoice_id t
      ≡ (t, some (record { entry = some (read r); changed = false }))
unfolding record_fact
record_fact_idle tenant order fact now invoice_id t e old =
    rw (e, note_row, old, get-find tenant order t e)

noted_once :
    (fact : Fact) (now : ℕ) (invoice_id : Option String) (r : Row)
    → is_none (observed_at fact (noted fact now invoice_id r)) ≡ false
noted_once fact now invoice_id r = elim (Option-cases (observed_at fact r)) [
  | inl new ↦ rw new (now_observed fact now invoice_id r)
  | inr (at, old) ↦ rw (old, is_none) (rw old)
]

-- A fact recorded again, at any time and with any invoice, changes nothing and is reported as no change.
record_fact-record_fact :
    (tenant order : String) (fact : Fact) (now later : ℕ) (invoice_id other_invoice : Option String)
    (t : Table) (r : Row)
    → find tenant order t ≡ some r
    → record_fact tenant order fact later other_invoice
        (record_fact tenant order fact now invoice_id t).0
      ≡ (
        (record_fact tenant order fact now invoice_id t).0,
        some (record { entry = some (read (noted fact now invoice_id r)); changed = false }),
      )
record_fact-record_fact tenant order fact now later invoice_id other_invoice t r e =
    record_fact_idle tenant order fact later other_invoice
      (record_fact tenant order fact now invoice_id t).0
      (find-record_fact tenant order fact now invoice_id t ∙ rw e)
      (noted_once fact now invoice_id r)
