-- ===== src/Inbox/Lease.antt =====
-- Leases (Inbox/Queue.antt): what a claim takes and leaves, and what a lease protects.
use baobab_erp.Common.{
  ℕ, ◌+◌, ◌*◌, ◌<◌, ◌≤◌, String, string_eq, nat_eq, option_eq, eq_law, ◌≡◌, refl, sym, ap, subst,
  ◌∙◌, Bool, true, false, some, arith, All-find, Option-cases, ◌⊎◌, ◌&&◌, ◌||◌, leb, List, inl, inr,
  is_ok,
}
use baobab_erp.Inbox.Queue.{
  Row, Table, Claim, is_idle, is_processing, has_expired, is_locked, comes_before, processing,
  is_claimable, next_due, take_lease, claim_of, claim_row, claim, is_held, Settlement, settle_claim,
}
use baobab_erp.Inbox.Choice.{
  find, HasUniqueIds, Eligible, IsFirst, is_eligible, next_due-Eligible, next_due-IsFirst,
}
use baobab_erp.Inbox.Found.{
  find-claim, claim-HasUniqueIds, chosen_found, unclaimable_kept, settle_claim_lem,
}

leased_idle :
    (now : ℕ) (event_type : String) (until : ℕ) (r : Row)
    → r.status ≡ processing
    → r.lease_expires_at ≡ some until
    → now < until
    → is_claimable now event_type r ≡ false
unfolding is_claimable
leased_idle now event_type until r busy leased early = ground arith

-- A row under a lease that has not expired is not claimed by anybody.
pub lease_protects :
    (now : ℕ) (event_type : String) (locked : List ℕ) (worker : String) (lease : ℕ) (t : Table)
    (k until : ℕ) (r : Row)
    → HasUniqueIds t
    → find k t ≡ some r
    → r.status ≡ processing
    → r.lease_expires_at ≡ some until
    → now < until
    → find k (claim now event_type locked worker lease t).0 ≡ some r
lease_protects now event_type locked worker lease t k until r u found busy leased early =
    unclaimable_kept now event_type locked worker lease t k r u found
      (leased_idle now event_type until r busy leased early)

id-take_lease :
    (now : ℕ) (worker : String) (lease : ℕ) (r : Row) → (take_lease now worker lease r).id ≡ r.id
unfolding take_lease
id-take_lease now worker lease r = refl

claimed_from :
    (now : ℕ) (event_type : String) (locked : List ℕ) (worker : String) (lease : ℕ) (t : Table)
    {c : Claim}
    → (claim now event_type locked worker lease t).1 ≡ some c
    → (r : Row) × (next_due now event_type locked t ≡ some r)
      × (c ≡ claim_of worker (take_lease now worker lease r))
unfolding claim
claimed_from now event_type locked worker lease t {c} h =
    elim (Option-cases (next_due now event_type locked t)) [
      | inl e ↦ cc (rw (e, claim_row) at h)
      | inr (r, e) ↦ let taken = rw (e, claim_row) at h in (r, e, cc taken)
    ]

is_held-claimed :
    (now : ℕ) (worker : String) (lease : ℕ) (r : Row)
    → is_held (claim_of worker (take_lease now worker lease r)) (take_lease now worker lease r)
      ≡ true
unfolding is_held take_lease
is_held-claimed now worker lease r = ground (
  arith,
  eq_law r.id r.id,
  eq_law (some worker) (some worker),
  eq_law (r.attempts + 1) (r.attempts + 1),
)

-- the chosen row, in the terms of the model
claim-taken :
    (now : ℕ) (event_type : String) (locked : List ℕ) (worker : String) (lease : ℕ) (t : Table)
    {c : Claim}
    → HasUniqueIds t
    → (claim now event_type locked worker lease t).1 ≡ some c
    → (r : Row) × (find c.row_id t ≡ some r)
      × Eligible now event_type locked r
      × IsFirst now event_type locked r t
      × (find c.row_id (claim now event_type locked worker lease t).0
          ≡ some (take_lease now worker lease r))
      × (c ≡ claim_of worker (take_lease now worker lease r))
claim-taken now event_type locked worker lease t {c} u h =
    let (r, e, same) = claimed_from now event_type locked worker lease t h in
    let found = chosen_found now event_type locked worker lease t u e in
    let key : c.row_id ≡ r.id =
      ap (λ (d : Claim). d.row_id) same ∙ id-take_lease now worker lease r in
    (
      r,
      subst (λ i. find i t ≡ some r) (sym key) found,
      next_due-Eligible now event_type locked t e,
      next_due-IsFirst now event_type locked t e,
      find-claim now event_type locked worker lease t c.row_id
          ∙ rw (e, key, found, (eq_law r.id r.id).1 refl),
      same,
    )

take_lease_lem :
    (now : ℕ) (worker : String) (lease : ℕ) (r : Row)
    → take_lease now worker lease r ≡ record r {
      status = processing;
      claimed_by = some worker;
      attempts = r.attempts + 1;
      lease_expires_at = some (now + lease * 1_000_000);
    }
unfolding take_lease
take_lease_lem now worker lease r = refl

not_before :
    (r x : Row)
    → comes_before x r ≡ false
    → (r.next_attempt_at < x.next_attempt_at)
      ⊎ ((r.next_attempt_at ≡ x.next_attempt_at) × (r.id ≤ x.id))
not_before r x h = ground (arith, eq_law x.next_attempt_at r.next_attempt_at)

and_false : {a b : Bool} → a ≡ true → (a && b) ≡ false → b ≡ false
and_false {a} {b} h g = rw h at g

-- A row that is due: a canonical row of this event type that no other transaction holds, which either
-- waits and whose time has come, or is processed under a lease that is over.
abbrev pub IsDue : ℕ → String → List ℕ → Row → Type 0
IsDue now event_type locked r =
    (r.is_cloudevent ≡ true)
    × (r.event_type ≡ event_type)
    × (is_locked locked r.id ≡ false)
    × (((is_idle r.status ≡ true) × (r.next_attempt_at ≤ now))
        ⊎ ((r.status ≡ processing)
            × ((until : ℕ) × (r.lease_expires_at ≡ some until) × (until ≤ now))))

due_of_status :
    (now : ℕ) (r : Row)
    → ((is_idle r.status && leb r.next_attempt_at now)
        || (is_processing r.status && has_expired now r.lease_expires_at))
      ≡ true
    → ((is_idle r.status ≡ true) × (r.next_attempt_at ≤ now))
      ⊎ ((r.status ≡ processing)
          × ((until : ℕ) × (r.lease_expires_at ≡ some until) × (until ≤ now)))
due_of_status now r h = ground arith

IsDue-Eligible :
    (now : ℕ) (event_type : String) (locked : List ℕ) (r : Row)
    → IsDue now event_type locked r
    → Eligible now event_type locked r
unfolding is_claimable
IsDue-Eligible now event_type locked r (canonical, type, free, inl (idle, past)) =
    ground (arith, eq_law r.event_type event_type)
IsDue-Eligible now event_type locked r (canonical, type, free, inr (busy, (until, leased, past))) =
    ground (arith, eq_law r.event_type event_type)

Eligible-IsDue :
    (now : ℕ) (event_type : String) (locked : List ℕ) (r : Row)
    → Eligible now event_type locked r
    → IsDue now event_type locked r
unfolding is_claimable
Eligible-IsDue now event_type locked r h =
    ground (arith, eq_law r.event_type event_type, due_of_status now r)

-- Given any due row `x` of the table, a claim takes a row that is due and that is not after `x` by
-- time and then by id; it leaves that row `processing` under the worker, with one more attempt and a
-- lease of `lease` seconds from `now` in microseconds, and all else of it as it was; and it returns
-- that row's data with the new count of attempts. Ids are unique.
pub claim-IsFirst :
    (now : ℕ) (event_type : String) (locked : List ℕ) (worker : String) (lease : ℕ) (t : Table)
    {c : Claim} (k : ℕ) {x : Row}
    → HasUniqueIds t
    → (claim now event_type locked worker lease t).1 ≡ some c
    → find k t ≡ some x
    → IsDue now event_type locked x
    → (r : Row) × (find c.row_id t ≡ some r)
      × IsDue now event_type locked r
      × ((r.next_attempt_at < x.next_attempt_at)
          ⊎ ((r.next_attempt_at ≡ x.next_attempt_at) × (r.id ≤ x.id)))
      × (find c.row_id (claim now event_type locked worker lease t).0
          ≡ some (record r {
            status = processing;
            claimed_by = some worker;
            attempts = r.attempts + 1;
            lease_expires_at = some (now + lease * 1_000_000);
          }))
      × (c ≡ record {
        row_id = r.id;
        event_id = r.event_id;
        event_type = r.event_type;
        tenant_id = r.tenant_id;
        payload = r.payload;
        attempts = r.attempts + 1;
        received_at = r.received_at;
        correlation_id = r.correlation_id;
        worker_id = worker;
      })
claim-IsFirst now event_type locked worker lease t {c} k {x} u h found due =
    let (r, chosen, eligible, first, taken, same) =
      claim-taken now event_type locked worker lease t u h in
    let last =
      All-find (λ (y : Row). y.id)
        (λ y. (is_eligible now event_type locked y && comes_before y r) ≡ false) k t first found in
    (
      r,
      chosen,
      Eligible-IsDue now event_type locked r eligible,
      not_before r x (and_false (IsDue-Eligible now event_type locked x due) last),
      taken ∙ ap some (take_lease_lem now worker lease r),
      same ∙ ap (claim_of worker) (take_lease_lem now worker lease r),
    )

-- What a worker has just claimed it can settle, whatever else is in the table.
pub claim-settle_claim :
    (now later : ℕ) (event_type : String) (locked : List ℕ) (worker : String) (lease : ℕ)
    (s : Settlement) (t : Table) {c : Claim}
    → HasUniqueIds t
    → (claim now event_type locked worker lease t).1 ≡ some c
    → is_ok (settle_claim later c s (claim now event_type locked worker lease t).0) ≡ true
claim-settle_claim now later event_type locked worker lease s t {c} u h =
    let (r, _, _, _, taken, same) = claim-taken now event_type locked worker lease t u h in
    let held : is_held c (take_lease now worker lease r) ≡ true =
      rw same (is_held-claimed now worker lease r) in
    rw (
      settle_claim_lem later c s (claim now event_type locked worker lease t).0
          (claim-HasUniqueIds now event_type locked worker lease t u),
      taken,
      held,
    )
