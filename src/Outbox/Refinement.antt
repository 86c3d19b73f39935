-- ===== src/Outbox/Refinement.antt =====
-- One pass of the dispatcher, row by row: the loop does to each due row what `settled` says, and to
-- every other row nothing.
use baobab_erp.Common.{
  ℕ, ◌+◌, ◌*◌, String, string_eq, eq_law, ◌≡◌, refl, ◌∙◌, true, Option, none, some, List, [], ◌∷◌,
  ◌==◌, arith, All, update_where, Bool-cases, inl, inr, bind-eq-ok, ok, if◌then◌else◌,
}
use baobab_erp.Outbox.Policy.{RetryPolicy, second, backoff_seconds}
use baobab_erp.Outbox.Store.{
  Row, Table, Selection, delivered, dead_letter, retry, named, is_due, due_rows, read_records,
  pending_records, revalidate,
}
use baobab_erp.Outbox.Dispatch.{
  Delivery, accepted, refused, failed, Reaction, Run, is_too_late, is_exhausted, horizon_error,
  on_delivery, dispatch_record, dispatch_loop, dispatch_pending, start,
}
use baobab_erp.Outbox.Rows.{
  find, find-update, Apart, Distinct, Unique, due_rows-Distinct, due_rows-found, All-map,
}

-- What one attempt makes of a row.
unfoldable pub after_success : Reaction → Row → Row
after_success x r = record r {
  status = delivered;
  delivered_at = some x.stamp;
  next_attempt_at = none;
}

unfoldable pub after_death : Reaction → ℕ → String → Row → Row
after_death x attempts error r = record r {
  status = dead_letter;
  attempts = attempts;
  last_error = some error;
  dead_lettered_at = some x.stamp;
  next_attempt_at = none;
}

unfoldable pub after_retry : Reaction → ℕ → String → Row → Row
after_retry x attempts error r = record r {
  status = retry;
  attempts = attempts;
  last_error = some error;
  next_attempt_at = some (x.stamp + backoff_seconds attempts * second);
}

unfoldable pub settled_by : Delivery → RetryPolicy → Reaction → Row → Row
settled_by accepted policy x r = after_success x r
settled_by (refused error) policy x r = after_death x (r.attempts + 1) error r
settled_by (failed error) policy x r =
    if is_exhausted policy x r
    then after_death x (r.attempts + 1) error r
    else after_retry x (r.attempts + 1) error r

unfoldable pub settled : RetryPolicy → Reaction → Row → Row
settled policy x r =
    if is_too_late policy x r
    then after_death x r.attempts horizon_error r
    else settled_by x.delivery policy x r

-- The loop's effect on the row of one name: the reaction to the record of that name, if any.
unfoldable pub expected :
    RetryPolicy → (ℕ → Reaction) → ℕ → List Row → String → Option Row → Option Row
expected policy react i [] name old = old
expected policy react i (r ∷ rs) name old =
    let rest = expected policy react (i + 1) rs name old in
    if r.name == name then some (settled policy (react i) r) else rest

-- A mark changes the row of its record, and no other.
find-mark :
    (f : Row → Row) (r : Row) (t : Table) (name : String)
    → ((x : Row) → (f x).name ≡ x.name)
    → find r.name t ≡ some r
    → find name (update_where (named r.name) f t)
      ≡ (if r.name == name then some (f r) else find name t)
find-mark f r t name keeps found =
    ground (arith, find-update r.name name f t keeps, eq_law r.name name)

module _ (policy : RetryPolicy) where
  find-on_delivery :
      (d : Delivery) (x : Reaction) (r : Row) (run : Run) (name : String)
      → find r.name run.table ≡ some r
      → find name (on_delivery d policy x r run).table
        ≡ (if r.name == name then some (settled_by d policy x r) else find name run.table)
  unfolding on_delivery settled_by after_success after_death after_retry
  find-on_delivery accepted x r run name found =
      find-mark (λ y. after_success x y) r run.table name (λ y. refl) found
  find-on_delivery (refused error) x r run name found =
      find-mark (λ y. after_death x (r.attempts + 1) error y) r run.table name (λ y. refl) found
  find-on_delivery (failed error) x r run name found = elim (Bool-cases (is_exhausted policy x r)) [
    | inl e ↦
        rw e (
          find-mark (λ y. after_death x (r.attempts + 1) error y) r run.table name (λ y. refl)
            found)
    | inr e ↦
        rw e (
          find-mark (λ y. after_retry x (r.attempts + 1) error y) r run.table name (λ y. refl)
            found)
  ]

  -- One record's turn, on the row of any name.
  find-dispatch_record :
      (x : Reaction) (r : Row) (run : Run) (name : String)
      → find r.name run.table ≡ some r
      → find name (dispatch_record policy x r run).table
        ≡ (if r.name == name then some (settled policy x r) else find name run.table)
  unfolding dispatch_record settled after_death
  find-dispatch_record x r run name found = elim (Bool-cases (is_too_late policy x r)) [
    | inl e ↦ rw e (
        find-mark (λ y. after_death x r.attempts horizon_error y) r run.table name (λ y. refl)
          found)
    | inr e ↦
        rw e (find-on_delivery x.delivery x r (record run { sent = r.name ∷ run.sent }) name found)
  ]

  found_later :
      (x : Reaction) (r : Row) (rs : List Row) (run : Run)
      → find r.name run.table ≡ some r
      → All (Apart r) rs
      → All (λ y. find y.name run.table ≡ some y) rs
      → All (λ y. find y.name (dispatch_record policy x r run).table ≡ some y) rs
  found_later x r [] run found apart all_found = tt
  found_later x r (y ∷ rs) run found apart all_found = (
    ground (
      arith,
      find-dispatch_record x r run y.name found,
      eq_law r.name y.name,
      eq_law y.name r.name,
      apart.0,
      all_found.0,
    ),
    found_later x r rs run found apart.1 all_found.1,
  )

  -- A name that no record carries is left alone by what remains of the loop.
  expected-Apart :
      (react : ℕ → Reaction) (i : ℕ) (r : Row) (rs : List Row) (name : String) (old : Option Row)
      → All (Apart r) rs
      → r.name ≡ name
      → expected policy react i rs name old ≡ old
  unfolding expected
  expected-Apart react i r [] name old apart e = refl
  expected-Apart react i r (y ∷ rs) name old apart e = ground (
    arith,
    expected-Apart react (i + 1) r rs name old apart.1 e,
    apart.0,
    eq_law y.name r.name,
    eq_law y.name name,
  )

  expected-swap :
      (react : ℕ → Reaction) (i : ℕ) (rs : List Row) (name : String) (old new : Option Row)
      → old ≡ new
      → expected policy react i rs name old ≡ expected policy react i rs name new
  expected-swap react i rs name old new e = cc

  find-dispatch_loop :
      (react : ℕ → Reaction) (i : ℕ) (rs : List Row) (run : Run) (name : String)
      → Distinct rs
      → All (λ y. find y.name run.table ≡ some y) rs
      → find name (dispatch_loop policy react i rs run).table
        ≡ expected policy react i rs name (find name run.table)
  unfolding dispatch_loop expected
  find-dispatch_loop react i [] run name d f = refl
  find-dispatch_loop react i (r ∷ rs) run name d f =
      let next = dispatch_record policy (react i) r run in
      let rest =
        find-dispatch_loop react (i + 1) rs next name d.1
          (found_later (react i) r rs run f.0 d.0 f.1) in
      let here = find-dispatch_record (react i) r run name f.0 in
      elim (Bool-cases (r.name == name)) [
        | inl e ↦ rw e (
            rest
            ∙ expected-Apart react (i + 1) r rs name (find name next.table) d.0
                ((eq_law r.name name).0 e)
            ∙ (rw e at here))
        | inr e ↦ rw e (
            rest
            ∙ expected-swap react (i + 1) rs name (find name next.table) (find name run.table)
                (rw e at here))
      ]

read_records-same : (rs : List Row) {out : List Row} → read_records rs ≡ ok out → out ≡ rs
unfolding read_records
read_records-same [] h = cc
read_records-same (r ∷ rs) {out} h =
    let (checked, _, k) = bind-eq-ok (revalidate r.content) _ h in
    let (rest, e, j) = bind-eq-ok (read_records rs) (λ rest. ok (r ∷ rest)) k in
    cc (read_records-same rs {out = rest} e)

-- A pass that does not raise is the loop over the due rows.
pub pending_then_loop :
    (now limit : ℕ) (s : Selection) (policy : RetryPolicy) (react : ℕ → Reaction) (t : Table)
    {run : Run}
    → dispatch_pending now limit s policy react t ≡ ok run
    → (rs : List Row) × (rs ≡ due_rows now limit s t)
      × (run ≡ dispatch_loop policy react 0 rs (start t))
unfolding dispatch_pending pending_records
pending_then_loop now limit s policy react t {run} h =
    let (rs, e, k) =
      bind-eq-ok (read_records (due_rows now limit s t))
        (λ records. ok (dispatch_loop policy react 0 records (start t))) h in
    (rs, read_records-same (due_rows now limit s t) e, cc)

-- A pass does to each due row what `settled` says of it and its reaction, and to every other row
-- nothing, where event ids are unique.
pub find-dispatch_pending :
    (now limit : ℕ) (s : Selection) (policy : RetryPolicy) (react : ℕ → Reaction) (t : Table)
    (name : String) {run : Run}
    → Unique t
    → dispatch_pending now limit s policy react t ≡ ok run
    → find name run.table ≡ expected policy react 0 (due_rows now limit s t) name (find name t)
find-dispatch_pending now limit s policy react t name {run} u h =
    let (rs, e, k) = pending_then_loop now limit s policy react t h in
    let f = due_rows-found now limit s t u in
    rw k (
      rw e (
        find-dispatch_loop policy react 0 (due_rows now limit s t) (start t) name
          (due_rows-Distinct now limit s t u)
          (All-map (λ r. (find r.name t ≡ some r) × (is_due now s r ≡ true))
            (λ r. find r.name t ≡ some r) (due_rows now limit s t) (λ r p. p.0) f)))
