-- ===== src/Outbox/Retries.antt =====
-- How long a failing event is retried: the attempt count, the horizon and the delays between.
use native.Mathlib.Nat.{pow-suc}
use baobab_erp.Common.{
  eqb, min, sym, ◌^◌, ◌∙◌, String, ℕ, suc, ◌+◌, ◌*◌, ◌≤◌, ◌<◌, ◌≡◌, refl, Bool, true, false, Option,
  none, some, List, [], ◌∷◌, arith, All, leb, ltb, ◌&&◌, power_pos, if◌then◌else◌, Bool-cases, inl,
  inr, ok, All-update_where,
}
use baobab_erp.Outbox.Policy.{RetryPolicy, backoff_seconds, default_policy, signed_policy, second}
use baobab_erp.Outbox.Store.{
  due_rows, named, Row, Table, Selection, Status, retry, dead_letter, is_waiting,
}
use baobab_erp.Outbox.Dispatch.{
  Delivery, accepted, refused, failed, Reaction, Run, horizon_error, is_too_late, is_exhausted,
  dispatch_record, dispatch_loop, on_delivery, dispatch_pending, start,
}
use baobab_erp.Outbox.Rows.{find, Unique}
use baobab_erp.Outbox.Passes.{
  IsFailure, place, Passes, no_pass, taken_up, left_out, dispatch_pending-Unique, pass-taken,
  pass-left,
}
use baobab_erp.Outbox.Refinement.{
  settled, settled_by, after_success, after_death, after_retry, pending_then_loop,
}

abbrev pub is_dead : Status → Bool
is_dead dead_letter = true
is_dead _ = false

-- What a row is after `k` failures under the default policy, the last of them marked at `last`: it
-- counts them; before the eighth it waits, the eighth dead-letters it; after the first and before
-- the eighth it is next due 2 ^ k seconds, and at most an hour, after `last`.
abbrev pub IsAfter : Row → ℕ → ℕ → Row → Type 0
IsAfter r k last x =
    (k ≤ 8)
    × (x.attempts ≡ k)
    × (is_waiting x.status ≡ ltb k 8)
    × (is_dead x.status ≡ leb 8 k)
    × (x.next_attempt_at ≡ (
        if eqb k 0
        then r.next_attempt_at
        else if ltb k 8
        then some (last + min (2 ^ k) 3600 * 1_000_000)
        else none))

delivery-IsAfter :
    (x : Reaction) (d : Delivery) (r y : Row) (k last : ℕ)
    → IsFailure d
    → is_waiting y.status ≡ true
    → IsAfter r k last y
    → IsAfter r (suc k) x.stamp (settled_by d default_policy x y)
unfolding settled_by is_exhausted after_death after_retry backoff_seconds
delivery-IsAfter x accepted r y k last f w h = absurd f
delivery-IsAfter x (refused error) r y k last f w h = absurd f
delivery-IsAfter x (failed error) r y k last f w (le, count, waits, dead, due) =
    let same : k ≡ y.attempts = sym count in
    let early : k < 8 = ground arith in
    elim (Bool-cases (leb 8 (suc k))) [ inl e ↦ ground (arith, e) | inr e ↦ ground (arith, e) ]

settled-IsAfter :
    (x : Reaction) (r y : Row) (k last : ℕ)
    → IsFailure x.delivery
    → is_waiting y.status ≡ true
    → IsAfter r k last y
    → IsAfter r (suc k) x.stamp (settled default_policy x y)
unfolding settled is_too_late
settled-IsAfter x r y k last f w h = elim (Bool-cases (ltb 0 y.attempts)) [
  | inl e ↦ rw e (delivery-IsAfter x x.delivery r y k last f w h)
  | inr e ↦ rw e (delivery-IsAfter x x.delivery r y k last f w h)
]

module _ (name : String) (t : Table) (u : Unique t) where
  Passes-Unique : {k last : ℕ} {v : Table} → Passes name t k last v → Unique v
  Passes-Unique no_pass = u
  Passes-Unique (taken_up {u = w} before now limit s react e there f) =
      dispatch_pending-Unique default_policy now limit s react w (Passes-Unique before) e
  Passes-Unique (left_out {u = w} before now limit s react e out) =
      dispatch_pending-Unique default_policy now limit s react w (Passes-Unique before) e

  -- An event that was never attempted and waits, in a table of unique ids, under the default policy:
  -- after any passes, of which `k` took it up and failed to deliver it and the others did not take it
  -- up, its row counts `k` attempts, which are at most eight; it waits before the eighth failure and is
  -- dead-lettered by the eighth; and after the first failure and before the eighth it is next due the
  -- lesser of 2 ^ k and 3600 seconds, in microseconds, after the last failure was marked.
  pub eight_failures :
      {k last : ℕ} {v : Table} {r : Row}
      → find name t ≡ some r
      → r.attempts ≡ 0
      → is_waiting r.status ≡ true
      → Passes name t k last v
      → (x : Row) × (find name v ≡ some x)
        × (k ≤ 8)
        × (x.attempts ≡ k)
        × (is_waiting x.status ≡ ltb k 8)
        × (is_dead x.status ≡ leb 8 k)
        × (x.next_attempt_at ≡ (
            if eqb k 0
            then r.next_attempt_at
            else if ltb k 8
            then some (last + min (2 ^ k) 3600 * 1_000_000)
            else none))
  eight_failures {r} found zero_attempts waits no_pass =
      (r, found, omega arith, zero_attempts, waits, ground arith, refl)
  eight_failures {r} found zero_attempts waits
        (taken_up {k} {last} {u = w} before now limit s react e there f) =
      let (x, there_is, le, count, idle, dead, due) =
        eight_failures found zero_attempts waits before in
      let (waiting, turned) =
        pass-taken now limit s default_policy react w name (Passes-Unique before) e there_is
          there in
      let reaction = react (place name 0 (due_rows now limit s w)) in
      let (le_now, count_now, idle_now, dead_now, due_now) =
        settled-IsAfter reaction r x k last f waiting (le, count, idle, dead, due) in
      (settled default_policy reaction x, turned, le_now, count_now, idle_now, dead_now, due_now)
  eight_failures {r} found zero_attempts waits (left_out {u = w} before now limit s react e out) =
      let (x, there_is, le, count, idle, dead, due) =
        eight_failures found zero_attempts waits before in
      (
        x,
        pass-left now limit s default_policy react w name (Passes-Unique before) e out ∙ there_is,
        le,
        count,
        idle,
        dead,
        due,
      )

signed_by :
    (x : Reaction) (d : Delivery) (r : Row)
    → IsFailure d
    → (settled_by d signed_policy x r).status
      ≡ (if leb (r.created_at + 259_200 * second) x.after then dead_letter else retry)
unfolding settled_by after_death after_retry is_exhausted
signed_by x accepted r f = absurd f
signed_by x (refused error) r f = absurd f
signed_by x (failed error) r f = ground arith

-- Under the signed policy a failure before the 72 hours are over is always retried, whatever the
-- number of attempts; a failure after them dead-letters.
signed_failure :
    (x : Reaction) (r : Row)
    → IsFailure x.delivery
    → is_too_late signed_policy x r ≡ false
    → (settled signed_policy x r).status
      ≡ (if leb (r.created_at + 259_200 * second) x.after then dead_letter else retry)
unfolding settled
signed_failure x r f e = rw e (signed_by x x.delivery r f)

-- The delay is at least a second, at most an hour, and never more than doubles.
backoff_bounds :
    (a : ℕ)
    → (1 ≤ backoff_seconds a)
      × (backoff_seconds a ≤ 3600)
      × (backoff_seconds a ≤ backoff_seconds (suc a))
      × (backoff_seconds (suc a) ≤ 2 * backoff_seconds a)
unfolding backoff_seconds
backoff_bounds a = omega (arith, pow-suc 2 a, power_pos a)

abbrev is_retry : Status → Bool
is_retry retry = true
is_retry _ = false

-- a row that waits for a retry has attempts left
abbrev pub HasAttempts : ℕ → Row → Type 0
HasAttempts most r = (is_retry r.status && leb most r.attempts) ≡ false

module _ (most : ℕ) (horizon : Option ℕ) where
  abbrev pub policy : RetryPolicy
  policy = record { max_attempts = some most; horizon = horizon }

  not_exhausted : (x : Reaction) (r : Row) → is_exhausted policy x r ≡ false → r.attempts + 1 < most
  unfolding is_exhausted
  not_exhausted x r e = ground arith

  on_delivery-HasAttempts :
      (d : Delivery) (x : Reaction) (r : Row) (run : Run)
      → All (HasAttempts most) run.table
      → All (HasAttempts most) (on_delivery d policy x r run).table
  unfolding on_delivery after_success after_death after_retry
  on_delivery-HasAttempts accepted x r run h =
      All-update_where (HasAttempts most) (named r.name) (after_success x) run.table
        (λ y t p. ground arith) h
  on_delivery-HasAttempts (refused error) x r run h =
      All-update_where (HasAttempts most) (named r.name) (after_death x (r.attempts + 1) error)
        run.table (λ y t p. ground arith) h
  on_delivery-HasAttempts (failed error) x r run h = elim (Bool-cases (is_exhausted policy x r)) [
    | inl e ↦ rw e (
        All-update_where (HasAttempts most) (named r.name) (after_death x (r.attempts + 1) error)
          run.table (λ y t p. ground arith) h)
    | inr e ↦ rw e (
        All-update_where (HasAttempts most) (named r.name) (after_retry x (r.attempts + 1) error)
          run.table (λ y t p. ground (arith, not_exhausted x r e)) h)
  ]

  dispatch_record-HasAttempts :
      (x : Reaction) (r : Row) (run : Run)
      → All (HasAttempts most) run.table
      → All (HasAttempts most) (dispatch_record policy x r run).table
  unfolding dispatch_record after_death
  dispatch_record-HasAttempts x r run h = elim (Bool-cases (is_too_late policy x r)) [
    | inl e ↦ rw e (
        All-update_where (HasAttempts most) (named r.name) (after_death x r.attempts horizon_error)
          run.table (λ y t p. ground arith) h)
    | inr e ↦
        rw e (on_delivery-HasAttempts x.delivery x r (record run { sent = r.name ∷ run.sent }) h)
  ]

  dispatch_loop-HasAttempts :
      (react : ℕ → Reaction) (i : ℕ) (rs : List Row) (run : Run)
      → All (HasAttempts most) run.table
      → All (HasAttempts most) (dispatch_loop policy react i rs run).table
  unfolding dispatch_loop
  dispatch_loop-HasAttempts react i [] run h = h
  dispatch_loop-HasAttempts react i (r ∷ rs) run h =
      dispatch_loop-HasAttempts react (i + 1) rs (dispatch_record policy (react i) r run)
        (dispatch_record-HasAttempts (react i) r run h)

-- Under a policy that counts attempts, every pass that does not raise keeps it that each row waiting
-- for a retry has made fewer attempts than the policy allows.
pub dispatch_pending-HasAttempts :
    (most : ℕ) (horizon : Option ℕ) (now limit : ℕ) (s : Selection) (react : ℕ → Reaction)
    (t : Table) {run : Run}
    → All (HasAttempts most) t
    → dispatch_pending now limit s (policy most horizon) react t ≡ ok run
    → All (HasAttempts most) run.table
dispatch_pending-HasAttempts most horizon now limit s react t {run} h e =
    let (rs, _, k) = pending_then_loop now limit s (policy most horizon) react t e in
    rw k (dispatch_loop-HasAttempts most horizon react 0 rs (start t) h)
