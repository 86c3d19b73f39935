-- ===== src/Outbox/Stats.antt =====
-- The delivery backlog (`PostgresOutboxStore.stats` of modules/outbox/postgres_store.py).
use baobab_erp.Common.{
  ℕ, zero, suc, sym, ◌+◌, ◌-◌, ◌/◌, ◌≡◌, ◌≤◌, refl, Bool, true, false, ◌&&◌, Option, none, some,
  List, [], ◌∷◌, leb, take, keep, length, arith, if◌then◌else◌, Bool-cases, inl, inr, ◌∙◌,
}
use baobab_erp.Outbox.Policy.{second}
use baobab_erp.Outbox.Store.{
  Row, Table, Status, pending, retry, delivered, dead_letter, Content, legacy, canonical, Selection,
  selects, is_waiting, is_past, is_due, insert_by_time, sort_by_time, due_rows,
}

pub record Stats : Type 0 where
  pub pending_rows : ℕ  -- `pending`
  pub retry_rows : ℕ  -- `retry`
  pub dead_letter_rows : ℕ  -- `dead_letter`
  pub delivered_rows : ℕ  -- `delivered`
  pub due : ℕ
  pub oldest_undelivered_seconds : ℕ

-- the WHERE clause
abbrev is_counted_content : Selection → Content → Bool
is_counted_content s (legacy _) = false
is_counted_content s (canonical e) = selects s e

unfoldable pub is_counted : Selection → Row → Bool
is_counted s r = is_counted_content s r.content

abbrev is_pending : Status → Bool
is_pending pending = true
is_pending _ = false

abbrev is_retry : Status → Bool
is_retry retry = true
is_retry _ = false

abbrev is_dead : Status → Bool
is_dead dead_letter = true
is_dead _ = false

abbrev is_delivered : Status → Bool
is_delivered delivered = true
is_delivered _ = false

-- `count(*) FILTER`
unfoldable pub count : (Row → Bool) → List Row → ℕ
count p [] = 0
count p (r ∷ rs) = if p r then 1 + count p rs else count p rs

-- `min(created_at) FILTER`
unfoldable pub oldest : List Row → Option ℕ
oldest [] = none
oldest (r ∷ rs) =
    let rest = oldest rs in
    if is_waiting r.status
    then elim rest [
      | none ↦ some r.created_at
      | some at ↦ if leb r.created_at at then some r.created_at else some at
    ]
    else rest

-- rows are recorded at times up to `now`
abbrev age : ℕ → Option ℕ → ℕ
age now none = 0
age now (some at) = (now - at) / second

unfoldable pub stats : ℕ → Selection → Table → Stats
stats now s t =
    let rows = keep (is_counted s) t in
    record {
      pending_rows = count (λ r. is_pending r.status) rows;
      retry_rows = count (λ r. is_retry r.status) rows;
      dead_letter_rows = count (λ r. is_dead r.status) rows;
      delivered_rows = count (λ r. is_delivered r.status) rows;
      due = count (λ r. is_waiting r.status && is_past now r.next_attempt_at) rows;
      oldest_undelivered_seconds = age now (oldest rows);
    }

length-insert_by_time : (r : Row) (rs : List Row) → length (insert_by_time r rs) ≡ 1 + length rs
unfolding insert_by_time
length-insert_by_time r [] = refl
length-insert_by_time r (x ∷ xs) = ground (arith, length-insert_by_time r xs)

length-sort_by_time : (rs : List Row) → length (sort_by_time rs) ≡ length rs
unfolding sort_by_time
length-sort_by_time [] = refl
length-sort_by_time (r ∷ rs) =
    ground (arith, length-insert_by_time r (sort_by_time rs), length-sort_by_time rs)

length-take : (n : ℕ) (rs : List Row) → length rs ≤ n → length (take n rs) ≡ length rs
length-take zero [] e = refl
length-take zero (r ∷ rs) e = absurd (omega (arith, e))
length-take (suc n) [] e = refl
length-take (suc n) (r ∷ rs) e = ground (arith, length-take n rs (omega (arith, e)))

length-keep : (p : Row → Bool) (rs : List Row) → length (keep p rs) ≤ length rs
length-keep p [] = omega arith
length-keep p (r ∷ rs) = ground (arith, length-keep p rs)

abbrev is_ready : ℕ → Row → Bool
is_ready now r = is_waiting r.status && is_past now r.next_attempt_at

is_due-is_counted :
    (now : ℕ) (s : Selection) (r : Row) (c : Content)
    → r.content ≡ c
    → is_due now s r ≡ is_counted s r && is_ready now r
unfolding is_due is_counted
is_due-is_counted now s r (legacy e) h = rw h
is_due-is_counted now s r (canonical e) h = rw h (ground arith)

count-keep :
    (now : ℕ) (s : Selection) (t : Table)
    → count (is_ready now) (keep (is_counted s) t) ≡ length (keep (is_due now s) t)
unfolding count
count-keep now s [] = refl
count-keep now s (r ∷ rs) =
    ground (arith, is_due-is_counted now s r r.content refl, count-keep now s rs)

-- a ready row is a pending or a retried one
ready_row :
    (now : ℕ) (at : Option ℕ) (status : Status) (a b c : ℕ)
    → a ≤ b + c
    → (if is_waiting status && is_past now at then 1 + a else a)
      ≤ (if is_pending status then 1 + b else b) + (if is_retry status then 1 + c else c)
ready_row now at status a b c h = elim (Bool-cases (is_past now at)) [
  | inl e ↦ rw e (ground arith)
  | inr e ↦ rw e (ground arith)
]

count-ready :
    (now : ℕ) (rs : List Row)
    → count (is_ready now) rs
      ≤ count (λ r. is_pending r.status) rs + count (λ r. is_retry r.status) rs
unfolding count
count-ready now [] = omega arith
count-ready now (r ∷ rs) = ready_row now r.next_attempt_at r.status _ _ _ (count-ready now rs)

-- The backlog counts as due exactly the rows that `pending` selects where its limit does not cut
-- them off, and these are among the pending and the retried ones.
stats-due_rows :
    (now limit : ℕ) (s : Selection) (t : Table)
    → length t ≤ limit
    → ((stats now s t).due ≡ length (due_rows now limit s t))
      × ((stats now s t).due ≤ (stats now s t).pending_rows + (stats now s t).retry_rows)
unfolding stats due_rows
stats-due_rows now limit s t h = (
  count-keep now s t
      ∙ sym (
          length-take limit _ (
            omega
              (arith, h, length-keep (is_due now s) t, length-sort_by_time (keep (is_due now s) t)))
          ∙ length-sort_by_time _),
  count-ready now (keep (is_counted s) t),
)
