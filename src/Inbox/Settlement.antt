-- ===== src/Inbox/Settlement.antt =====
-- What `settle` (Inbox/Attempt.antt) leaves behind, by how the attempt ended and whether the claim
-- still holds its row.
use baobab_erp.Common.{
  ℕ, String, ◌≡◌, refl, ap, ◌∙◌, Bool, true, false, Option, some, List, arith, update_where,
  Option-cases, inl, inr, Result, ok, err,
}
use baobab_erp.Inbox.Policy.{
  Ending, processed, retry, blocked, dead_letter, Outcome, outcome, failure_outcome,
}
use baobab_erp.Inbox.Queue.{
  Table, Row, Status, Claim, lease_lost, is_held, status_of, Settlement, settle_row, settle_claim,
  mark_processed, release, clip,
}
use baobab_erp.Inbox.Attempt.{
  Session, Raised, stop, lost, other, Times, write_outcome, unexpected, conclude, settle,
  settled_already, delayed,
}
use baobab_erp.Inbox.Budgets.{success_kept}
use baobab_erp.Inbox.Choice.{find, HasUniqueIds}
use baobab_erp.Inbox.Found.{settle_claim_lem, find-settle_claim}

module _ (times : Times) (c : Claim) (t : Table) where
  abbrev Writes : Outcome → Type 0
  Writes o =
      (s : Settlement) × (s.ending ≡ o.status)
      × (write_outcome times c o t ≡ settle_claim times.database c s t)

  Writes-Outcome :
      (e : Ending) (code detail : String) (delay : Option ℕ) (refund : Bool)
      → Writes (record {
        status = e;
        code = code;
        detail = detail;
        delay_seconds = delay;
        refund_attempt = refund;
      })
  unfolding write_outcome mark_processed release
  Writes-Outcome processed code detail delay refund = (_, refl, refl)
  Writes-Outcome retry code detail delay refund = (_, refl, refl)
  Writes-Outcome blocked code detail delay refund = (_, refl, refl)
  Writes-Outcome dead_letter code detail delay refund = (_, refl, refl)

  -- the settlement of a claim with an outcome
  writes : (o : Outcome) → Writes o
  writes o = Writes-Outcome o.status o.code o.detail o.delay_seconds o.refund_attempt

releases :
    (times : Times) (c : Claim) (t : Table) (o : Outcome) (at : Option ℕ)
    → ¬ (o.status ≡ processed)
    → (s : Settlement) × (s.ending ≡ o.status)
      × (release times.database c o.status o.code o.detail at false t
          ≡ settle_claim times.database c s t)
unfolding release
releases times c t o at fails = (
  record {
    ending = o.status;
    outcome_code = o.code;
    error = some (clip 500 o.detail);
    next_attempt = at;
    refund_attempt = false;
  },
  refl,
  ground arith,
)

abbrev pub Holds : Claim → Table → Type 0
Holds c t = (r : Row) × (find c.row_id t ≡ some r) × (is_held c r ≡ true)

-- the row with this id is in this status
abbrev pub HasStatus : ℕ → Status → Table → Type 0
HasStatus id status t = (r : Row) × (find id t ≡ some r) × (r.status ≡ status)

abbrev pub IsLost : Claim → Table → Type 0
IsLost c t = (r : Row) → find c.row_id t ≡ some r → is_held c r ≡ false

module _ (now : ℕ) (c : Claim) (s : Settlement) (t : Table) (u : HasUniqueIds t) where
  settle_held :
      Holds c t
      → {e : Ending} → s.ending ≡ e
      → (v : Table) × (settle_claim now c s t ≡ ok v) × HasStatus c.row_id (status_of e) v
  settle_held (r, found, held) ends =
      let done : settle_claim now c s t ≡ ok (update_where (is_held c) (settle_row now s) t) =
        settle_claim_lem now c s t u ∙ rw (found, held) in
      (
        _,
        done,
        (
          settle_row now s r,
          find-settle_claim now c s t u c.row_id done ∙ rw (found, held),
          unfold settle_row in ap status_of ends,
        ),
      )

  settle_lost : IsLost c t → settle_claim now c s t ≡ err lease_lost
  settle_lost gone = elim (Option-cases (find c.row_id t)) [
    | inl e ↦ settle_claim_lem now c s t u ∙ rw e
    | inr (r, e) ↦ settle_claim_lem now c s t u ∙ rw (e, gone r e)
  ]

-- the claim's row ends as the outcome says, and no other write of the attempt is kept
abbrev pub IsSettled : {B : Type 0} → Claim → Session B → Outcome × Session B → Type 0
IsSettled c s (o, after) =
    HasStatus c.row_id (status_of o.status) after.committed.inbox
    × (after.committed.business ≡ s.committed.business)
    × (after.working ≡ after.committed)

-- nothing of the attempt is kept
abbrev pub IsRolledBack : {B : Type 0} → Session B → Session B → Type 0
IsRolledBack s after = (after.committed ≡ s.committed) × (after.working ≡ s.committed)

module _ {B : Type 0} (times : Times) (c : Claim) (s : Session B)
    (u : HasUniqueIds s.committed.inbox) where
  abbrev unexpected_outcome : String → Outcome
  unexpected_outcome name =
      failure_outcome (outcome retry "UNEXPECTED_ERROR" name) c.attempts c.received_at
        times.judged_again

  unexpected_fails : (name : String) → ¬ ((unexpected_outcome name).status ≡ processed)
  unexpected_fails name h =
      let absurd : retry ≡ processed =
        (success_kept (outcome retry "UNEXPECTED_ERROR" name) c.attempts c.received_at
            times.judged_again).0
          h in
      cc absurd

  unexpected_held :
      (name : String) → Holds c s.committed.inbox → IsSettled c s (unexpected times c name s)
  unfolding unexpected
  unexpected_held name held =
      let o = unexpected_outcome name in
      let (st, ends, wrote) =
        releases times c s.committed.inbox o (delayed times.scheduled_again o.delay_seconds)
          (unexpected_fails name) in
      let (v, settled, status) = settle_held times.database c st s.committed.inbox u held ends in
      rw (wrote, settled) (status, refl, refl)

  unexpected_lost :
      (name : String) → IsLost c s.committed.inbox → IsRolledBack s (unexpected times c name s).1
  unfolding unexpected
  unexpected_lost name gone =
      let o = unexpected_outcome name in
      let (st, ends, wrote) =
        releases times c s.committed.inbox o (delayed times.scheduled_again o.delay_seconds)
          (unexpected_fails name) in
      rw (wrote, settle_lost times.database c st s.committed.inbox u gone) (refl, refl)

  module _ (codes : List String) (o : Outcome) (unsettled : settled_already codes o ≡ false) where
    conclude_held : Holds c s.committed.inbox → IsSettled c s (conclude codes times c o s)
    unfolding conclude
    conclude_held held =
        let final = failure_outcome o c.attempts c.received_at times.judged in
        let (st, ends, wrote) = writes times c s.committed.inbox final in
        let (v, settled, status) = settle_held times.database c st s.committed.inbox u held ends in
        rw (unsettled, wrote, settled) (status, refl, refl)

    conclude_lost : IsLost c s.committed.inbox → IsRolledBack s (conclude codes times c o s).1
    unfolding conclude
    conclude_lost gone =
        let final = failure_outcome o c.attempts c.received_at times.judged in
        let (st, ends, wrote) = writes times c s.committed.inbox final in
        rw (unsettled, wrote, settle_lost times.database c st s.committed.inbox u gone) (refl, refl)

-- the attempt has settled its row itself
abbrev pub is_settled : List String → Result Raised Outcome → Bool
is_settled codes (ok o) = settled_already codes o
is_settled codes (err (stop o)) = settled_already codes o
is_settled codes (err lost) = false
is_settled codes (err (other name)) = false

abbrev pub is_lost : Result Raised Outcome → Bool
is_lost (err lost) = true
is_lost _ = false

module _ {B : Type 0} (codes : List String) (times : Times) (c : Claim)
    (execute : Session B → Result Raised Outcome × Session B) (s : Session B) where
  -- An attempt that did not settle its row, and whose claim still holds it, leaves the row settled
  -- with the status of the reported outcome, commits no other write of the open transaction and leaves
  -- no transaction open. This includes an attempt that raised an unexpected error.
  pub held_row_is_settled :
      {result : Result Raised Outcome} {after : Session B}
      → execute s ≡ (result, after)
      → HasUniqueIds after.committed.inbox
      → Holds c after.committed.inbox
      → is_settled codes result ≡ false
      → is_lost result ≡ false
      → IsSettled c after (settle codes times c execute s)
  unfolding settle
  held_row_is_settled {result = ok o} {after = after} ran u held unsettled kept =
      rw ran (conclude_held times c after u codes o unsettled held)
  held_row_is_settled {result = err (stop o)} {after = after} ran u held unsettled kept =
      rw ran (conclude_held times c after u codes o unsettled held)
  held_row_is_settled {result = err lost} {after = after} ran u held unsettled kept = cc kept
  held_row_is_settled {result = err (other name)} {after = after} ran u held unsettled kept =
      rw ran (unexpected_held times c after u name held)

  -- An attempt that did not settle its row, and whose claim has lost it, leaves the committed database
  -- as the attempt left it and no transaction open.
  pub lost_row_is_left :
      {result : Result Raised Outcome} {after : Session B}
      → execute s ≡ (result, after)
      → HasUniqueIds after.committed.inbox
      → IsLost c after.committed.inbox
      → is_settled codes result ≡ false
      → IsRolledBack after (settle codes times c execute s).1
  unfolding settle
  lost_row_is_left {result = ok o} {after = after} ran u gone unsettled =
      rw ran (conclude_lost times c after u codes o unsettled gone)
  lost_row_is_left {result = err (stop o)} {after = after} ran u gone unsettled =
      rw ran (conclude_lost times c after u codes o unsettled gone)
  lost_row_is_left {result = err lost} {after = after} ran u gone unsettled = rw ran (refl, refl)
  lost_row_is_left {result = err (other name)} {after = after} ran u gone unsettled =
      rw ran (unexpected_lost times c after u name gone)
