-- ===== src/Outbox/Passes.antt =====
-- Passes of the dispatcher (`dispatch_pending` of Outbox/Dispatch.antt), one after the other, as seen
-- by the row of one event.
use baobab_erp.Common.{
  ℕ, suc, ◌+◌, String, string_eq, eq_law, ◌≡◌, refl, ◌∙◌, true, false, Option, some, List, [], ◌∷◌,
  ◌==◌, arith, All, any, update_where, Bool-cases, inl, inr, ok, if◌then◌else◌,
}
use baobab_erp.Outbox.Policy.{RetryPolicy, default_policy}
use baobab_erp.Outbox.Store.{Row, Table, Selection, named, is_waiting, is_due, due_rows}
use baobab_erp.Outbox.Dispatch.{
  Delivery, accepted, refused, failed, Reaction, Run, horizon_error, is_too_late, is_exhausted,
  dispatch_record, dispatch_loop, on_delivery, dispatch_pending, start,
}
use baobab_erp.Outbox.Rows.{find, find-update, Unique, due_rows-found}
use baobab_erp.Outbox.Refinement.{
  settled, expected, after_success, after_death, after_retry, pending_then_loop,
  find-dispatch_pending,
}

abbrev pub IsFailure : Delivery → Type 0
IsFailure (failed _) = Unit
IsFailure _ = ⊥

-- the place of a name among the records of a pass, counted from `i`
abbrev pub place : String → ℕ → List Row → ℕ
place name i [] = i
place name i (r ∷ rs) = let rest = place name (i + 1) rs in if r.name == name then i else rest

-- The tables that passes under the default policy lead to from `t`. The first index counts the passes
-- that took up the record of `name`, whose delivery then failed, and the second is the database's time
-- when the last of them marked it. What the passes do to other rows is left open, and so is the number
-- of passes that do not take up the record.
pub data Passes (name : String) (t : Table) : ℕ → ℕ → Table → Type 0 where
  no_pass : Passes name t 0 0 t
  taken_up :
      {k last : ℕ} {u : Table} {run : Run}
      → Passes name t k last u
      → (now limit : ℕ) (s : Selection) (react : ℕ → Reaction)
      → dispatch_pending now limit s default_policy react u ≡ ok run
      → any (named name) (due_rows now limit s u) ≡ true
      → IsFailure (react (place name 0 (due_rows now limit s u))).delivery
      → Passes name t (suc k) (react (place name 0 (due_rows now limit s u))).stamp run.table
  left_out :
      {k last : ℕ} {u : Table} {run : Run}
      → Passes name t k last u
      → (now limit : ℕ) (s : Selection) (react : ℕ → Reaction)
      → dispatch_pending now limit s default_policy react u ≡ ok run
      → any (named name) (due_rows now limit s u) ≡ false
      → Passes name t k last run.table

Unique-update :
    (m : String) (f : Row → Row) (t : Table)
    → ((r : Row) → (f r).name ≡ r.name)
    → Unique t
    → Unique (update_where (named m) f t)
Unique-update m f [] keeps u = tt
Unique-update m f (r ∷ t) keeps u =
    (ground (arith, keeps r, find-update m r.name f t keeps, u.0), Unique-update m f t keeps u.1)

module _ (policy : RetryPolicy) where
  on_delivery-Unique :
      (d : Delivery) (x : Reaction) (r : Row) (run : Run)
      → Unique run.table
      → Unique (on_delivery d policy x r run).table
  unfolding on_delivery after_success after_death after_retry
  on_delivery-Unique accepted x r run u =
      Unique-update r.name (after_success x) run.table (λ y. refl) u
  on_delivery-Unique (refused error) x r run u =
      Unique-update r.name (after_death x (r.attempts + 1) error) run.table (λ y. refl) u
  on_delivery-Unique (failed error) x r run u = elim (Bool-cases (is_exhausted policy x r)) [
    | inl e ↦
        rw e (Unique-update r.name (after_death x (r.attempts + 1) error) run.table (λ y. refl) u)
    | inr e ↦
        rw e (Unique-update r.name (after_retry x (r.attempts + 1) error) run.table (λ y. refl) u)
  ]

  dispatch_record-Unique :
      (x : Reaction) (r : Row) (run : Run)
      → Unique run.table
      → Unique (dispatch_record policy x r run).table
  unfolding dispatch_record after_death
  dispatch_record-Unique x r run u = elim (Bool-cases (is_too_late policy x r)) [
    | inl e ↦
        rw e (Unique-update r.name (after_death x r.attempts horizon_error) run.table (λ y. refl) u)
    | inr e ↦ rw e (on_delivery-Unique x.delivery x r (record run { sent = r.name ∷ run.sent }) u)
  ]

  dispatch_loop-Unique :
      (react : ℕ → Reaction) (i : ℕ) (rs : List Row) (run : Run)
      → Unique run.table
      → Unique (dispatch_loop policy react i rs run).table
  unfolding dispatch_loop
  dispatch_loop-Unique react i [] run u = u
  dispatch_loop-Unique react i (r ∷ rs) run u =
      dispatch_loop-Unique react (i + 1) rs (dispatch_record policy (react i) r run)
        (dispatch_record-Unique (react i) r run u)

  -- A pass keeps event ids unique.
  pub dispatch_pending-Unique :
      (now limit : ℕ) (s : Selection) (react : ℕ → Reaction) (t : Table) {run : Run}
      → Unique t
      → dispatch_pending now limit s policy react t ≡ ok run
      → Unique run.table
  dispatch_pending-Unique now limit s react t {run} u e =
      let (rs, _, k) = pending_then_loop now limit s policy react t e in
      rw k (dispatch_loop-Unique react 0 rs (start t) u)

  expected-taken :
      (now : ℕ) (s : Selection) (react : ℕ → Reaction) (i : ℕ) (rs : List Row) (t : Table)
      (name : String) {r : Row}
      → All (λ y. (find y.name t ≡ some y) × (is_due now s y ≡ true)) rs
      → find name t ≡ some r
      → any (named name) rs ≡ true
      → (expected policy react i rs name (some r)
          ≡ some (settled policy (react (place name i rs)) r))
        × (is_due now s r ≡ true)
  unfolding expected
  expected-taken now s react i [] t name {r} h found there = cc
  expected-taken now s react i (y ∷ rs) t name {r} h found there =
      elim (Bool-cases (y.name == name)) [
        | inl e ↦
            let same : y ≡ r = cc (h.0.0, found, (eq_law y.name name).0 e) in
            rw (e, same) (refl, rw same at h.0.1)
        | inr e ↦ rw e (expected-taken now s react (i + 1) rs t name h.1 found (rw e at there))
      ]

  expected-left :
      (react : ℕ → Reaction) (i : ℕ) (rs : List Row) (name : String) (old : Option Row)
      → any (named name) rs ≡ false
      → expected policy react i rs name old ≡ old
  unfolding expected
  expected-left react i [] name old h = refl
  expected-left react i (y ∷ rs) name old h =
      ground (arith, expected-left react (i + 1) rs name old)

due_waits : (now : ℕ) (s : Selection) (r : Row) → is_due now s r ≡ true → is_waiting r.status ≡ true
unfolding is_due
due_waits now s r h = ground arith

module _ (now limit : ℕ) (s : Selection) (policy : RetryPolicy) (react : ℕ → Reaction) (t : Table)
    (name : String) (u : Unique t) where
  -- A row that a pass takes up was waiting, and becomes what `settled` says.
  pub pass-taken :
      {run : Run} {r : Row}
      → dispatch_pending now limit s policy react t ≡ ok run
      → find name t ≡ some r
      → any (named name) (due_rows now limit s t) ≡ true
      → (is_waiting r.status ≡ true)
        × (find name run.table
            ≡ some (settled policy (react (place name 0 (due_rows now limit s t))) r))
  pass-taken {run} {r} h found there =
      let (turn, due) =
        expected-taken policy now s react 0 (due_rows now limit s t) t name
          (due_rows-found now limit s t u) found there in
      (
        due_waits now s r due,
        find-dispatch_pending now limit s policy react t name u h ∙ rw found turn,
      )

  -- A row that a pass does not take up is left.
  pub pass-left :
      {run : Run}
      → dispatch_pending now limit s policy react t ≡ ok run
      → any (named name) (due_rows now limit s t) ≡ false
      → find name run.table ≡ find name t
  pass-left {run} h out =
      find-dispatch_pending now limit s policy react t name u h
      ∙ expected-left policy react 0 (due_rows now limit s t) name (find name t) out
