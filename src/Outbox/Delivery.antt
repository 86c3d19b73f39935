-- ===== src/Outbox/Delivery.antt =====
-- What the dispatcher promises: which rows it touches, how often it tries, and when it stops.
use baobab_erp.Common.{
  ℕ, ◌+◌, String, string_eq, eq_law, ◌≡◌, refl, subst, ◌∙◌, true, false, Option, some, List, [],
  ◌∷◌, ◌==◌, arith, All, Bool-cases, inl, inr, ok, length,
}
use baobab_erp.Outbox.Policy.{RetryPolicy, DispatchSummary}
use baobab_erp.Outbox.Store.{Row, Table, Selection, is_due, due_rows}
use baobab_erp.Outbox.Dispatch.{
  Reaction, Run, on_delivery, dispatch_record, dispatch_loop, dispatch_pending, start,
}
use baobab_erp.Outbox.Rows.{find, Unique, due_rows-found}
use baobab_erp.Outbox.Refinement.{expected, find-dispatch_pending, pending_then_loop}

-- A name that no due row carries keeps its row.
expected-absent :
    (policy : RetryPolicy) (react : ℕ → Reaction) (i : ℕ) (rs : List Row) (name : String)
    (old : Option Row)
    → All (λ y. (y.name == name) ≡ false) rs
    → expected policy react i rs name old ≡ old
unfolding expected
expected-absent policy react i [] name old h = refl
expected-absent policy react i (y ∷ rs) name old h =
    rw h.0 (expected-absent policy react (i + 1) rs name old h.1)

other_names :
    (now : ℕ) (s : Selection) (t : Table) (r : Row) (rs : List Row)
    → find r.name t ≡ some r
    → is_due now s r ≡ false
    → All (λ y. (find y.name t ≡ some y) × (is_due now s y ≡ true)) rs
    → All (λ y. (y.name == r.name) ≡ false) rs
other_names now s t r [] found idle h = tt
other_names now s t r (y ∷ rs) found idle h = (
  elim (Bool-cases (y.name == r.name)) [
    | inl e ↦
        let again : find r.name t ≡ some y =
          subst (λ n. find n t ≡ some y) ((eq_law y.name r.name).0 e) h.0.0 in
        cc (again, found, idle, h.0.1)
    | inr e ↦ e
  ],
  other_names now s t r rs found idle h.1,
)

-- A row that is not due, because it is delivered, dead-lettered, held, scheduled for later or not
-- selected, is after the pass what it was before, where event ids are unique.
idle_row_unchanged :
    (now limit : ℕ) (s : Selection) (policy : RetryPolicy) (react : ℕ → Reaction) (t : Table)
    (r : Row) {run : Run}
    → Unique t
    → find r.name t ≡ some r
    → is_due now s r ≡ false
    → dispatch_pending now limit s policy react t ≡ ok run
    → find r.name run.table ≡ some r
idle_row_unchanged now limit s policy react t r {run} u found idle h =
    find-dispatch_pending now limit s policy react t r.name u h
    ∙ expected-absent policy react 0 (due_rows now limit s t) r.name (find r.name t)
        (other_names now s t r (due_rows now limit s t) found idle (due_rows-found now limit s t u))
    ∙ found

abbrev pub total : DispatchSummary → ℕ
total s = s.delivered + s.retried + s.dead_lettered

total-dispatch_record :
    (policy : RetryPolicy) (x : Reaction) (r : Row) (run : Run)
    → total (dispatch_record policy x r run).summary ≡ total run.summary + 1
unfolding dispatch_record on_delivery
total-dispatch_record policy x r run = ground arith

total-dispatch_loop :
    (policy : RetryPolicy) (react : ℕ → Reaction) (i : ℕ) (rs : List Row) (run : Run)
    → total (dispatch_loop policy react i rs run).summary ≡ total run.summary + length rs
unfolding dispatch_loop
total-dispatch_loop policy react i [] run = omega arith
total-dispatch_loop policy react i (r ∷ rs) run = omega (
  arith,
  total-dispatch_loop policy react (i + 1) rs (dispatch_record policy (react i) r run),
  total-dispatch_record policy (react i) r run,
)

-- The summary accounts for every due row exactly once.
total-dispatch_pending :
    (now limit : ℕ) (s : Selection) (policy : RetryPolicy) (react : ℕ → Reaction) (t : Table)
    {run : Run}
    → dispatch_pending now limit s policy react t ≡ ok run
    → total run.summary ≡ length (due_rows now limit s t)
total-dispatch_pending now limit s policy react t {run} h =
    let (rs, e, k) = pending_then_loop now limit s policy react t h in
    rw k
      (rw e (omega (arith, total-dispatch_loop policy react 0 (due_rows now limit s t) (start t))))
