-- ===== src/Orders/Sequences.antt =====
-- Sequences of recorded facts (Orders/Facts.antt): what is read depends on which facts were recorded.
use baobab_erp.Common.{
  ℕ, ◌+◌, String, string_eq, pair_eq, ◌≡◌, sym, ap, subst, ◌∙◌, Bool, true, false, ◌||◌, Option,
  some, List, [], ◌∷◌, any, is_some, arith,
}
use baobab_erp.Orders.Consequence.{
  Fact, order_completed, shipment_completed, invoice_posted, derive, Row, Table, find, observed_at,
  observed, note, record_fact,
}
use baobab_erp.Orders.Facts.{
  IsDerived, facts_known, AllDerived, HasDerived, noted, find-record_fact, record_fact-AllDerived,
}

abbrev pub same_fact : Fact → Fact → Bool
same_fact order_completed order_completed = true
same_fact shipment_completed shipment_completed = true
same_fact invoice_posted invoice_posted = true
same_fact _ _ = false

-- a fact, when it was noted and the invoice that came with it
pub record Call : Type 0 where
  pub fact : Fact
  pub now : ℕ
  pub invoice_id : Option String

abbrev pub record_all : String → String → List Call → Table → Table
record_all tenant order [] t = t
record_all tenant order (c ∷ cs) t =
    record_all tenant order cs (record_fact tenant order c.fact c.now c.invoice_id t).0

abbrev pub has_fact : Fact → List Call → Bool
has_fact fact = any (λ c. same_fact c.fact fact)

noted-observed :
    (g fact : Fact) (now : ℕ) (invoice_id : Option String) (r : Row)
    → is_some (observed_at fact (noted g now invoice_id r))
      ≡ is_some (observed_at fact r) || same_fact g fact
unfolding note
noted-observed order_completed order_completed now invoice_id r = ground arith
noted-observed order_completed shipment_completed now invoice_id r = ground arith
noted-observed order_completed invoice_posted now invoice_id r = ground arith
noted-observed shipment_completed order_completed now invoice_id r = ground arith
noted-observed shipment_completed shipment_completed now invoice_id r = ground arith
noted-observed shipment_completed invoice_posted now invoice_id r = ground arith
noted-observed invoice_posted order_completed now invoice_id r = ground arith
noted-observed invoice_posted shipment_completed now invoice_id r = ground arith
noted-observed invoice_posted invoice_posted now invoice_id r = ground arith

-- After a sequence of calls a fact is observed exactly if it was before or is among the calls, and
-- statuses and revision are those of the observed facts.
pub record_all-observed :
    (tenant order : String) (cs : List Call) (t : Table) (r : Row)
    → find tenant order t ≡ some r
    → AllDerived t
    → (v : Row) × (find tenant order (record_all tenant order cs t) ≡ some v)
      × IsDerived v
      × ((fact : Fact)
          → is_some (observed_at fact v) ≡ is_some (observed_at fact r) || has_fact fact cs)
record_all-observed tenant order [] t r e d =
    (r, e, subst HasDerived e (d (tenant, order)), λ fact. ground arith)
record_all-observed tenant order (c ∷ cs) t r e d =
    let (v, found, derived, same) =
      record_all-observed tenant order cs (record_fact tenant order c.fact c.now c.invoice_id t).0
        (noted c.fact c.now c.invoice_id r)
        (find-record_fact tenant order c.fact c.now c.invoice_id t ∙ rw e)
        (record_fact-AllDerived tenant order c.fact c.now c.invoice_id t d) in
    (
      v,
      found,
      derived,
      λ fact. ground (arith, same fact, noted-observed c.fact fact c.now c.invoice_id r),
    )

observed_same :
    (v w : Row)
    → ((fact : Fact) → is_some (observed_at fact v) ≡ is_some (observed_at fact w))
    → observed v ≡ observed w
observed_same v w h = rw (h order_completed, h shipment_completed, h invoice_posted)

-- Two sequences of the same facts, in any order, with any repetitions, invoices and times, recorded for
-- an order that has a record, end with the same three statuses and the same revision of that record;
-- where the table's statuses and revisions are those of its facts.
pub record_all-same :
    (tenant order : String) (xs ys : List Call) (t : Table) (r : Row)
    → find tenant order t ≡ some r
    → AllDerived t
    → ((fact : Fact) → has_fact fact xs ≡ has_fact fact ys)
    → (v w : Row) × (find tenant order (record_all tenant order xs t) ≡ some v)
      × (find tenant order (record_all tenant order ys t) ≡ some w)
      × (v.status ≡ w.status)
      × (v.accounting_status ≡ w.accounting_status)
      × (v.inventory_status ≡ w.inventory_status)
      × (v.revision ≡ w.revision)
record_all-same tenant order xs ys t r e d same =
    let (v, found_v, derived_v, seen_v) = record_all-observed tenant order xs t r e d in
    let (w, found_w, derived_w, seen_w) = record_all-observed tenant order ys t r e d in
    let agree : observed v ≡ observed w =
      observed_same v w (λ fact. seen_v fact ∙ rw (same fact) (sym (seen_w fact))) in
    let statuses = derived_v.statuses ∙ ap derive agree ∙ sym derived_w.statuses in
    (
      v,
      w,
      found_v,
      found_w,
      ap (λ d. d.status) statuses,
      ap (λ d. d.accounting_status) statuses,
      ap (λ d. d.inventory_status) statuses,
      derived_v.revisions ∙ ap (λ o. 1 + facts_known o) agree ∙ sym derived_w.revisions,
    )
