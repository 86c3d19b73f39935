-- ===== src/Outbox/Recording.antt =====
-- Recording an event, and reading it back for delivery (Outbox/Store.antt).
use baobab_erp.Common.{
  ℕ, string_eq, option_eq, ◌≡◌, refl, sym, subst, ap, ◌∙◌, true, some, List, [], ◌∷◌, ◌++◌, ◌==◌,
  arith, All, keep, is_some, inl, inr, Result-cases, ok, err, not, ◌||◌, bind-eq-ok, if◌then◌else◌,
}
use baobab_erp.Events.{
  CloudEvent, lookup, produced, dataschema_for, not_produced, wrong_dataschema, validate,
  erp_source,
}
use baobab_erp.Events.Checks.{validate-same}
use baobab_erp.Outbox.Store.{
  Row, Table, Selection, Content, legacy, canonical, insert, fresh_row, check_event, insert_checked,
  record_event, revalidate, read_records, due_rows, pending_records, is_due, sort_by_time,
}
use baobab_erp.Outbox.Rows.{All-keep, All-sort, All-take, All-map}

-- what the refusals after validation return, if they return, is the validated event
registered-same :
    (g : CloudEvent) {f : CloudEvent}
    → (if not (is_some (lookup g.type produced)) || not (g.source == erp_source)
        then err not_produced
        else if some g.dataschema == dataschema_for g.type
        then ok g
        else err wrong_dataschema)
      ≡ ok f
    → f ≡ g
registered-same g h = ground arith

check_event-valid :
    (e : CloudEvent) {f : CloudEvent} → check_event e ≡ ok f → (f ≡ e) × (validate e ≡ ok e)
unfolding check_event
check_event-valid e {f} h =
    let (g, v, k) = bind-eq-ok (validate e) _ h in
    let same = validate-same e v in (registered-same g k ∙ same, v ∙ ap ok same)

-- The events of a table are ones that validation accepts.
abbrev pub HasValidContent : Row → Type 0
HasValidContent r = elim r.content [ legacy _ ↦ Unit {0} | canonical e ↦ validate e ≡ ok e ]

All-end :
    (t : Table) (r : Row)
    → All HasValidContent t
    → HasValidContent r
    → All HasValidContent (t ++ r ∷ [])
All-end [] r h p = (p, tt)
All-end (x ∷ t) r h p = (h.0, All-end t r h.1 p)

insert-ok : (r : Row) (t : Table) {u : Table} → insert r t ≡ ok u → u ≡ t ++ r ∷ []
unfolding insert
insert-ok r t h = ground arith

-- Only events that validation accepts enter the table.
record_event-HasValidContent :
    (now : ℕ) (e : CloudEvent) (t : Table) {u : Table}
    → All HasValidContent t
    → record_event now e t ≡ ok u
    → All HasValidContent u
unfolding record_event
record_event-HasValidContent now e t {u} h q = elim (Result-cases (check_event e)) [
  | inl (f, k) ↦
      let (same, valid) = check_event-valid e k in
      subst (All HasValidContent)
        (sym (insert-ok (fresh_row now f) t (rw (k, insert_checked) at q)))
        (All-end t (fresh_row now f) h (rw same valid))
  | inr (x, k) ↦ cc (rw (k, insert_checked) at q)
]

revalidate-ok :
    (c : Content)
    → (elim c as (λ _. Type 0) [ legacy _ ↦ Unit {0} | canonical e ↦ validate e ≡ ok e ])
    → revalidate c ≡ ok tt
revalidate-ok (legacy e) h = refl
revalidate-ok (canonical e) h = rw (h, revalidate)

read_records-ok : (rs : List Row) → All HasValidContent rs → read_records rs ≡ ok rs
unfolding read_records
read_records-ok [] h = refl
read_records-ok (r ∷ rs) h = rw (revalidate-ok r.content h.0, read_records-ok rs h.1)

-- Reading the due records never raises on such a table: they are the due rows.
pub pending_records-ok :
    (now limit : ℕ) (s : Selection) (t : Table)
    → All HasValidContent t
    → pending_records now limit s t ≡ ok (due_rows now limit s t)
unfolding pending_records due_rows
pending_records-ok now limit s t h = read_records-ok (due_rows now limit s t) (
    All-take HasValidContent limit (sort_by_time (keep (is_due now s) t)) (
      All-sort HasValidContent (keep (is_due now s) t) (
        All-map (λ r. HasValidContent r × (is_due now s r ≡ true)) HasValidContent
          (keep (is_due now s) t) (λ r p. p.0) (All-keep HasValidContent (is_due now s) t h))))
