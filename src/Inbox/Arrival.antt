-- ===== src/Inbox/Arrival.antt =====
-- What receipt (Inbox/Receipt.antt) promises: who is let in, and that an event is recorded once.
use baobab_erp.Common.{
  ℕ, ◌+◌, ◌≤◌, String, string_eq, eq_law, ◌≡◌, refl, sym, ap, subst, ◌∙◌, Bool, true, false, Option,
  some, List, [], ◌∷◌, ◌++◌, arith, any, count, Result, ok, ok_inj, bind-eq-ok, or_raise-eq-ok,
  Bool-cases, Option-cases, Result-cases, inl, inr, if◌then◌else◌,
}
use baobab_erp.Json.{Value}
use baobab_erp.Security.{verify_signature}
use baobab_erp.Events.{CloudEvent, check_consumable, from_wire}
use baobab_erp.Events.Checks.{check_consumable-ok}
use baobab_erp.Inbox.Queue.{Row, Table}
use baobab_erp.Inbox.Receipt.{
  ReceiptError, is_event, exists, received_row, not_a_uuid, cast_option, cast_ids, record_received,
  admit, receive,
}

-- at most one canonical row for each source and stored event id
abbrev pub HasUniqueEvents : Table → Type 0
HasUniqueEvents t = (source event_id : String) → count (is_event source event_id) t ≤ 1

count-any : (p : Row → Bool) (t : Table) → any p t ≡ false → count p t ≡ 0
count-any p [] h = refl
count-any p (r ∷ rs) h = ground (arith, count-any p rs)

one_of_any : (p : Row → Bool) (t : Table) → any p t ≡ true → count p t ≤ 1 → count p t ≡ 1
one_of_any p [] h l = cc
one_of_any p (r ∷ rs) h l = ground (arith, one_of_any p rs)

count-append :
    (p : Row → Bool) (t : Table) (r : Row)
    → count p (t ++ r ∷ []) ≡ count p t + (if p r then 1 else 0)
count-append p [] r = omega arith
count-append p (x ∷ xs) r = omega (arith, count-append p xs r)

any-append : (p : Row → Bool) (t : Table) (r : Row) → p r ≡ true → any p (t ++ r ∷ []) ≡ true
any-append p [] r h = ground arith
any-append p (x ∷ xs) r h = ground (arith, any-append p xs r h)

received-is_event :
    (serial now : ℕ) (e : CloudEvent) (source event_id : String)
    → is_event source event_id (received_row serial now e) ≡ true
    → (e.source ≡ source) × (e.id ≡ event_id)
unfolding received_row
received-is_event serial now e source event_id h =
    ground (arith, eq_law e.source source, eq_law e.id event_id)

is_event-received :
    (serial now : ℕ) (e : CloudEvent) → is_event e.source e.id (received_row serial now e) ≡ true
unfolding received_row
is_event-received serial now e = ground (arith, eq_law e.source e.source, eq_law e.id e.id)

append-HasUniqueEvents :
    (serial now : ℕ) (e : CloudEvent) (t : Table)
    → any (is_event e.source e.id) t ≡ false
    → HasUniqueEvents t
    → HasUniqueEvents (t ++ received_row serial now e ∷ [])
append-HasUniqueEvents serial now e t new u source event_id =
    let row = received_row serial now e in
    rw (count-append (is_event source event_id) t row)
      (elim (Bool-cases (is_event source event_id row)) [
        | inl here ↦
            let (s, i) = received-is_event serial now e source event_id here in
            let none_yet : any (is_event source event_id) t ≡ false =
              subst (λ x. any (is_event x event_id) t ≡ false) s
                (subst (λ x. any (is_event e.source x) t ≡ false) i new) in
            rw (here, count-any (is_event source event_id) t none_yet) (omega arith)
        | inr other ↦ rw other (omega (arith, u source event_id))
      ])

module _ (as_uuid : String → Option String) where
  -- what receipt leaves of an event: a row under its cast id, and no second one
  abbrev IsStored : Table → CloudEvent → Table → Type 0
  IsStored t e v =
      (key : String) × (as_uuid e.id ≡ some key)
      × (any (is_event e.source key) v ≡ true)
      × (HasUniqueEvents t → HasUniqueEvents v)

  exists-ok :
      (source event_id : String) (t : Table) {seen : Bool}
      → exists as_uuid source event_id t ≡ ok seen
      → (key : String) × (as_uuid event_id ≡ some key) × (any (is_event source key) t ≡ seen)
  unfolding exists
  exists-ok source event_id t h =
      let (key, known, rest) = or_raise-eq-ok (as_uuid event_id) not_a_uuid _ h in
      (key, known, ok_inj rest)

  cast_ids-ok :
      (e : CloudEvent) {c : CloudEvent}
      → cast_ids as_uuid e ≡ ok c
      → (as_uuid e.id ≡ some c.id) × (e.source ≡ c.source)
  unfolding cast_ids
  cast_ids-ok e {c} h =
      let (id, known, h1) = or_raise-eq-ok (as_uuid e.id) not_a_uuid _ h in
      let (correlation, _, h2) = or_raise-eq-ok (as_uuid e.correlationid) not_a_uuid _ h1 in
      let (causation, _, h3) = bind-eq-ok (cast_option as_uuid e.causationid) _ h2 in
      let made = ok_inj h3 in
      (known ∙ ap (λ (x : CloudEvent). some x.id) made, ap (λ (x : CloudEvent). x.source) made)

  record_received-IsStored :
      (serial now : ℕ) (e : CloudEvent) (t : Table) {v : Table}
      → record_received as_uuid serial now e t ≡ ok v
      → IsStored t e v
  unfolding record_received
  record_received-IsStored serial now e t {v} h =
      let (c, made, rest) = bind-eq-ok (cast_ids as_uuid e) _ h in
      let (known, source) = cast_ids-ok e made in
      let wrote = ok_inj rest in
      let test = is_event c.source c.id in
      elim (Bool-cases (any test t)) [
        | inl seen ↦
            let kept : t ≡ v = rw seen at wrote in
            (
              c.id,
              known,
              subst (λ s. any (is_event s c.id) v ≡ true) (sym source)
                  (subst (λ x. any test x ≡ true) kept seen),
              λ u. subst HasUniqueEvents kept u,
            )
        | inr new ↦
            let row = received_row serial now c in
            let added : t ++ row ∷ [] ≡ v = rw new at wrote in
            (
              c.id,
              known,
              subst (λ s. any (is_event s c.id) v ≡ true) (sym source)
                  (subst (λ x. any test x ≡ true) added
                    (any-append test t row (is_event-received serial now c))),
              λ u. subst HasUniqueEvents added (append-HasUniqueEvents serial now c t new u),
            )
      ]

  write-IsStored :
      (serial now : ℕ) (e : CloudEvent) (t : Table) {seen : Bool} {v : Table}
      → exists as_uuid e.source e.id t ≡ ok seen
      → (if seen then ok t else record_received as_uuid serial now e t) ≡ ok v
      → IsStored t e v
  write-IsStored serial now e t {seen = true} {v} looked wrote =
      let (key, known, seen) = exists-ok e.source e.id t looked in
      let kept = ok_inj wrote in
      (
        key,
        known,
        subst (λ x. any (is_event e.source key) x ≡ true) kept seen,
        λ u. subst HasUniqueEvents kept u,
      )
  write-IsStored serial now e t {seen = false} {v} looked wrote =
      record_received-IsStored serial now e t wrote

module _ (hmac : String → List ℕ → String) (loads : List ℕ → Option Value)
    (instant : String → Option ℕ) (as_uuid : String → Option String) (body : List ℕ)
    (signature secret : String) where
  abbrev admitted : Result ReceiptError CloudEvent
  admitted = admit hmac loads instant body signature secret

  -- what receipt does with the event that it lets in
  receive-admit :
      (serial now : ℕ) (t : Table) {e : CloudEvent} {v : Table}
      → receive hmac loads instant as_uuid serial now body signature secret t ≡ ok (e, v)
      → (admitted ≡ ok e) × IsStored as_uuid t e v
  unfolding receive
  receive-admit serial now t {e} {v} h =
      let (f, known, rest) = bind-eq-ok admitted _ h in
      let (seen, looked, more) = bind-eq-ok (exists as_uuid f.source f.id t) _ rest in
      let (w, wrote, last) =
        bind-eq-ok (if seen then ok t else record_received as_uuid serial now f t) _ more in
      let pair = ok_inj last in
      (
        known ∙ ap (λ x. ok x.0) pair,
        subst (λ x. IsStored as_uuid t x.0 x.1) pair
            (write-IsStored as_uuid serial now f t looked wrote),
      )

  admit-ok :
      {e : CloudEvent}
      → admitted ≡ ok e
      → (verify_signature hmac body signature secret ≡ true)
        × ((parsed : Value) × (loads body ≡ some parsed)
            × (from_wire instant parsed ≡ ok e)
            × (check_consumable e ≡ ok e))
  unfolding admit
  admit-ok {e} h = elim (Bool-cases (verify_signature hmac body signature secret)) [
    | inr bad ↦ cc (rw bad at h)
    | inl good ↦
        let h1 = rw good at h in
        elim (Option-cases (loads body)) [
          | inl bad ↦ cc (rw bad at h1)
          | inr (parsed, loaded) ↦
              let h2 = rw loaded at h1 in
              elim (Result-cases (from_wire instant parsed)) [
                | inr (_, bad) ↦ cc (rw bad at h2)
                | inl (event, read) ↦
                    let h3 = rw read at h2 in
                    elim (Result-cases (check_consumable event)) [
                      | inr (_, bad) ↦ cc (rw bad at h3)
                      | inl (last, checked) ↦
                          let h4 = rw checked at h3 in
                          let end : last ≡ e = cc h4 in
                          let same : event ≡ e = sym (check_consumable-ok event checked).0 ∙ end in
                          (
                            good,
                            (
                              parsed,
                              loaded,
                              read ∙ ap ok same,
                              subst (λ x. check_consumable x ≡ ok e) same (checked ∙ ap ok end),
                            ),
                          )
                    ]
              ]
        ]
  ]

  -- An event that receipt returns came under a valid signature of the body, is what the body says, and
  -- is registered for consumption from its source.
  pub receive-admitted :
      (serial now : ℕ) (t : Table) {e : CloudEvent} {v : Table}
      → receive hmac loads instant as_uuid serial now body signature secret t ≡ ok (e, v)
      → (verify_signature hmac body signature secret ≡ true)
        × ((parsed : Value) × (loads body ≡ some parsed)
            × (from_wire instant parsed ≡ ok e)
            × (check_consumable e ≡ ok e))
  receive-admitted serial now t h = admit-ok (receive-admit serial now t h).0

  -- Receipt that returns keeps it that there is at most one canonical row for each source and UUID, the
  -- ids of rows being stored as the database casts them; and where that was so, it leaves exactly one of the source and the UUID of the event that
  -- it returns, in whatever spelling the event has it.
  pub receive-HasUniqueEvents :
      (serial now : ℕ) (t : Table) {e : CloudEvent} {v : Table}
      → receive hmac loads instant as_uuid serial now body signature secret t ≡ ok (e, v)
      → HasUniqueEvents t
      → HasUniqueEvents v
        × ((key : String) × (as_uuid e.id ≡ some key) × (count (is_event e.source key) v ≡ 1))
  receive-HasUniqueEvents serial now t {e} {v} h u =
      let (key, known, seen, unique) = (receive-admit serial now t h).1 in
      (unique u, (key, known, one_of_any (is_event e.source key) v seen (unique u e.source key)))

  -- A second delivery of an event of this source and UUID, in any spelling that the database casts to
  -- it, in any bytes and under any signature that is let in, is answered with its event and changes
  -- nothing.
  pub receive-receive :
      (serial now serial_again later : ℕ) (t : Table) {e : CloudEvent} {v : Table}
      (body_again : List ℕ) (signature_again secret_again : String) {f : CloudEvent}
      → receive hmac loads instant as_uuid serial now body signature secret t ≡ ok (e, v)
      → admit hmac loads instant body_again signature_again secret_again ≡ ok f
      → f.source ≡ e.source
      → as_uuid f.id ≡ as_uuid e.id
      → receive hmac loads instant as_uuid serial_again later body_again signature_again
          secret_again v
        ≡ ok (f, v)
  unfolding receive exists
  receive-receive serial now serial_again later t {e} {v} body_again signature_again secret_again
        {f} h let_in s i =
      let (key, known, seen, _) = (receive-admit serial now t h).1 in
      let respelled : as_uuid f.id ≡ some key = i ∙ known in rw (let_in, respelled, s, seen)
