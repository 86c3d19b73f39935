-- ===== src/Outbox/Store.antt =====
-- The rows of `baobab.event_outbox` and the methods of `PostgresOutboxStore`. Each method is one
-- transaction, at the database's time `now`. Event ids are canonical UUID texts.
use baobab_erp.Common.{
  ℕ, ◌+◌, ◌*◌, String, string_eq, Bool, true, false, not, ◌&&◌, ◌||◌, Option, none, some, List, [],
  ◌∷◌, ◌++◌, ◌==◌, leb, any, is_empty, is_some, take, keep, length, Result, ok, err, ◌>>=◌,
  update_where, find_where, if◌then◌else◌, option_eq,
}
use baobab_erp.Events.{
  CloudEvent, EventEnvelope, EnvelopeError, not_produced, wrong_dataschema, erp_source, lookup,
  produced, dataschema_for, validate,
}
use baobab_erp.Outbox.Policy.{second}

pub data Status : Type 0 where
  pending retry delivered dead_letter held : Status

-- the payload columns; `envelope_format` says which of the two
pub data Content : Type 0 where
  legacy : EventEnvelope → Content
  canonical : CloudEvent → Content

pub record Row : Type 0 where
  pub name : String  -- event_id
  pub content : Content
  pub status : Status
  pub attempts : ℕ
  pub last_error : Option String
  pub next_attempt_at : Option ℕ
  pub delivered_at : Option ℕ
  pub dead_lettered_at : Option ℕ
  pub created_at : ℕ

abbrev pub Table : Type 0
Table = List Row

abbrev pub named : String → Row → Bool
named name r = r.name == name

pub data StoreError : Type 0 where
  duplicate_event : StoreError  -- event_id is UNIQUE
  invalid : EnvelopeError → StoreError

abbrev held_reason : String
held_reason = "legacy envelope: no registered canonical event to deliver as"

unfoldable pub insert : Row → Table → Result StoreError Table
insert r t = if is_some (find_where (named r.name) t) then err duplicate_event else ok (t ++ r ∷ [])

-- `record`: a legacy event is kept as held
unfoldable pub record_legacy : ℕ → EventEnvelope → Table → Result StoreError Table
unfolding insert
record_legacy now e t =
    insert
      (record {
        name = e.event_id;
        content = legacy e;
        status = held;
        attempts = 0;
        last_error = some held_reason;
        next_attempt_at = none;
        delivered_at = none;
        dead_lettered_at = none;
        created_at = now;
      })
      t

abbrev pub fresh_row : ℕ → CloudEvent → Row
fresh_row now e = record {
  name = e.id;
  content = canonical e;
  status = pending;
  attempts = 0;
  last_error = none;
  next_attempt_at = none;
  delivered_at = none;
  dead_lettered_at = none;
  created_at = now;
}

-- the refusals of `record_event`
unfoldable pub check_event : CloudEvent → Result EnvelopeError CloudEvent
check_event event = do
  e ← validate event
  if not (is_some (lookup e.type produced)) || not (e.source == erp_source)
      then err not_produced
      else if some e.dataschema == dataschema_for e.type
      then ok e
      else err wrong_dataschema

abbrev pub insert_checked : ℕ → Table → Result EnvelopeError CloudEvent → Result StoreError Table
insert_checked now t (err e) = err (invalid e)
insert_checked now t (ok e) = insert (fresh_row now e) t

unfoldable pub record_event : ℕ → CloudEvent → Table → Result StoreError Table
unfolding insert check_event
record_event now event t = insert_checked now t (check_event event)

abbrev pub is_held : Status → Bool
is_held held = true
is_held _ = false

unfoldable pub held_count : Table → ℕ
held_count t = length (keep (λ r. is_held r.status) t)

-- `types` and `exclude_types`: an empty tuple counts as None
pub record Selection : Type 0 where
  pub types : List String
  pub exclude_types : List String

abbrev pub everything : Selection
everything = record { types = []; exclude_types = [] }

abbrev pub is_waiting : Status → Bool
is_waiting pending = true
is_waiting retry = true
is_waiting _ = false

abbrev pub is_past : ℕ → Option ℕ → Bool
is_past now none = true
is_past now (some at) = leb at now

unfoldable pub selects : Selection → CloudEvent → Bool
selects s e =
    (is_empty s.types || any (λ t. t == e.type) s.types)
    && (is_empty s.exclude_types || not (any (λ t. t == e.type) s.exclude_types))

-- the WHERE clause of `pending`, on the columns of a canonical row
abbrev is_due_event : ℕ → Selection → Row → Content → Bool
is_due_event now s r (legacy _) = false
is_due_event now s r (canonical e) =
    is_waiting r.status && is_past now r.next_attempt_at && selects s e

unfoldable pub is_due : ℕ → Selection → Row → Bool
is_due now s r = is_due_event now s r r.content

abbrev pub occurred_at : Row → ℕ
occurred_at r = elim r.content [ legacy e ↦ e.occurred_at | canonical e ↦ e.time ]

-- `ORDER BY occurred_at`; rows of one instant stay in table order
unfoldable pub insert_by_time : Row → List Row → List Row
insert_by_time r [] = r ∷ []
insert_by_time r (x ∷ xs) =
    let rest = insert_by_time r xs in
    if leb (occurred_at r) (occurred_at x) then r ∷ x ∷ xs else x ∷ rest

unfoldable pub sort_by_time : List Row → List Row
unfolding insert_by_time
sort_by_time [] = []
sort_by_time (r ∷ rs) = insert_by_time r (sort_by_time rs)

-- the events are validated again as they are read
abbrev pub revalidate : Content → Result EnvelopeError (Unit {0})
revalidate (legacy _) = ok tt
revalidate (canonical e) = elim (validate e) [ ok _ ↦ ok tt | err x ↦ err x ]

unfoldable pub read_records : List Row → Result EnvelopeError (List Row)
read_records [] = ok []
read_records (r ∷ rs) = do checked ← revalidate r.content; rest ← read_records rs; ok (r ∷ rest)

unfoldable pub due_rows : ℕ → ℕ → Selection → Table → List Row
unfolding is_due sort_by_time
due_rows now limit s t = take limit (sort_by_time (keep (is_due now s) t))

-- `pending`
unfoldable pub pending_records : ℕ → ℕ → Selection → Table → Result EnvelopeError (List Row)
unfolding due_rows read_records
pending_records now limit s t = read_records (due_rows now limit s t)

unfoldable pub mark_delivered : ℕ → String → Table → Table
mark_delivered now name =
    update_where (named name)
      (λ r. record r { status = delivered; delivered_at = some now; next_attempt_at = none })

unfoldable pub mark_retry : ℕ → String → ℕ → String → ℕ → Table → Table
mark_retry now name attempts error delay_seconds = update_where (named name) (λ r. record r {
  status = retry;
  attempts = attempts;
  last_error = some error;
  next_attempt_at = some (now + delay_seconds * second);
})

unfoldable pub mark_dead_letter : ℕ → String → ℕ → String → Table → Table
mark_dead_letter now name attempts error = update_where (named name) (λ r. record r {
  status = dead_letter;
  attempts = attempts;
  last_error = some error;
  dead_lettered_at = some now;
  next_attempt_at = none;
})
