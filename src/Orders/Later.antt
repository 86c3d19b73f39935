-- ===== src/Orders/Later.antt =====
-- What the statements of modules/order_to_cash/consequence_store.py, in any number and order, keep of
-- a record (Orders/Consequence.antt).
use baobab_erp.Common.{
  ℕ, String, string_eq, pair_eq, ◌≡◌, refl, ap, ◌∙◌, sym, Option, some, map_option, find_key-update,
  find_key-kept, Bool-cases, Option-cases, inl, inr, ok, ok_inj, is_none, any, ◌==◌, ◌||◌,
  if◌then◌else◌,
}
use baobab_erp.Orders.Consequence.{
  Fact, order_completed, shipment_completed, invoice_posted, Row, Table, OrderConsequence, read,
  key, find, get, is_order, observed_at, note, note_row, record_fact, has_order, opened, open_order,
}
use baobab_erp.Orders.Facts.{key-note}

-- the tables that facts and openings, of these and other orders, lead to from `t`
pub data Since (t : Table) : Table → Type 0 where
  unchanged : Since t t
  fact_recorded :
      {u : Table}
      → Since t u
      → (tenant order : String) (fact : Fact) (now : ℕ) (invoice_id : Option String)
      → Since t (record_fact tenant order fact now invoice_id u).0
  order_opened :
      {u v : Table} {entry : Option OrderConsequence}
      → Since t u
      → (tenant entity order : String) (version : ℕ) (erp_id : String) (now : ℕ)
      → open_order tenant entity order version erp_id now u ≡ ok (entry, v)
      → Since t v

-- the order has a record of this version
abbrev pub HasVersion : String → String → ℕ → Table → Type 0
HasVersion tenant order version t =
    (r : Row) × (find tenant order t ≡ some r) × (r.order_version ≡ version)

note-order_version :
    (fact : Fact) (now : ℕ) (invoice_id : Option String) (r : Row)
    → (note fact now invoice_id r).order_version ≡ r.order_version
unfolding note
note-order_version order_completed now invoice_id r = refl
note-order_version shipment_completed now invoice_id r = refl
note-order_version invoice_posted now invoice_id r = refl

module _ (tenant order : String) (version : ℕ) (t : Table) where
  record_fact-HasVersion :
      (its_tenant its_order : String) (fact : Fact) (now : ℕ) (invoice_id : Option String)
      → HasVersion tenant order version t
      → HasVersion tenant order version (record_fact its_tenant its_order fact now invoice_id t).0
  unfolding record_fact
  record_fact-HasVersion its_tenant its_order fact now invoice_id (r, found, same) =
      elim (Option-cases (find its_tenant its_order t)) [
        | inl e ↦ rw (e, note_row) (r, found, same)
        | inr (x, e) ↦ elim (Bool-cases (is_none (observed_at fact x))) [
          | inr old ↦ rw (e, note_row, old) (r, found, same)
          | inl new ↦
              let test = is_order its_tenant its_order in
              let f = note fact now invoice_id in
              let after =
                find_key-update key test f (tenant, order) t (key-note fact now invoice_id)
                ∙ ap (map_option (λ y. if test y then f y else y)) found in
              rw (e, note_row, new)
                (
                  (if test r then f r else r),
                  after,
                  elim (Bool-cases (test r)) [
                    | inl q ↦ rw q (note-order_version fact now invoice_id r ∙ same)
                    | inr q ↦ rw q same
                  ],
                )
        ]
      ]

  open_order-HasVersion :
      (its_tenant entity its_order : String) (its_version : ℕ) (erp_id : String) (now : ℕ)
      {u : Table} {entry : Option OrderConsequence}
      → open_order its_tenant entity its_order its_version erp_id now t ≡ ok (entry, u)
      → HasVersion tenant order version t
      → HasVersion tenant order version u
  unfolding open_order
  open_order-HasVersion its_tenant entity its_order its_version erp_id now {u} {entry} h
        (r, found, same) =
      elim (Bool-cases
        (has_order its_tenant its_order t || any (λ x. x.erp_order_id == erp_id) t)) [
          | inl taken ↦ absurd (cc (rw taken at h))
          | inr free ↦
              let row = opened its_tenant entity its_order its_version erp_id now in
              let done = ap (λ x. x.1) (ok_inj (rw free at h)) in
              (
                r,
                ap (find tenant order) (sym done) ∙ find_key-kept key (tenant, order) t row found,
                same,
              )
        ]

-- A record is kept, with its version, by every later statement.
pub Since-HasVersion :
    (tenant order : String) (version : ℕ) {t u : Table}
    → Since t u
    → HasVersion tenant order version t
    → HasVersion tenant order version u
Since-HasVersion tenant order version {t} unchanged h = h
Since-HasVersion tenant order version
      (fact_recorded {u} before its_tenant its_order fact now invoice_id) h =
    record_fact-HasVersion tenant order version u its_tenant its_order fact now invoice_id
      (Since-HasVersion tenant order version before h)
Since-HasVersion tenant order version
      (order_opened {u} before its_tenant entity its_order its_version erp_id now opens) h =
    open_order-HasVersion tenant order version u its_tenant entity its_order its_version erp_id now
      opens (Since-HasVersion tenant order version before h)

-- What is found of an order that has a record of this version.
pub get-HasVersion :
    (tenant order : String) (version : ℕ) (t : Table)
    → HasVersion tenant order version t
    → (r : OrderConsequence) × (get tenant order t ≡ some r) × (r.order_version ≡ version)
unfolding get
get-HasVersion tenant order version t (r, found, same) = (read r, rw found, same)
