-- ===== src/Inbox/Tests.antt =====
-- Runs of the inbox, and the claims about it at a concrete table.
use baobab_erp.Common.{
  ℕ, ◌+◌, ◌*◌, ◌<◌, ◌≤◌, ◌⊎◌, inl, String, string_eq, option_eq, differ, ◌≡◌, ◌≢◌, ◌↔◌, refl, subst,
  true, false, none, some, [], ◌∷◌, arith, Result, err, is_ok,
}
use baobab_erp.Events.Tests.{placed_event}
use baobab_erp.Inbox.Policy.{processed, retry, Outcome, outcome, failure_outcome}
use baobab_erp.Inbox.Queue.{
  Row, Table, Claim, processing, done, lease_lost, is_claimable, next_due, take_lease, claim_of,
  claim, is_held, Settlement, settle_claim,
}
use baobab_erp.Inbox.Attempt.{Session, Raised, lost, other, Times, settle}
use baobab_erp.Inbox.Receipt.{received_row}
use baobab_erp.Inbox.Choice.{find, HasUniqueIds}
use baobab_erp.Inbox.Lease.{IsDue, claim-IsFirst, claim-settle_claim, lease_protects}
use baobab_erp.Inbox.Workers.{
  claims, Reach, here, next, Reach-HasUniqueIds, final_forever, NotClaimedBy, fence,
}
use baobab_erp.Inbox.Budgets.{success_kept}
use baobab_erp.Inbox.Settlement.{
  IsSettled, IsRolledBack, Holds, IsLost, held_row_is_settled, lost_row_is_left,
}

abbrev pub placed : String
placed = "com.baobab-platform.trade.order.placed.v1"

abbrev pub waiting : Row
waiting = received_row 1 5 placed_event

-- another worker's row, leased until 100
abbrev leased : Row
leased = record (received_row 2 3 placed_event) {
  status = processing;
  attempts = 2;
  claimed_by = some "w2";
  lease_expires_at = some 100;
}

abbrev finished : Row
finished = record (received_row 3 2 placed_event) {
  status = done;
  outcome_code = some "EXECUTED";
  processed_at = some 9;
}

abbrev rows : Table
rows = finished ∷ waiting ∷ leased ∷ []

rows-HasUniqueIds : HasUniqueIds rows
unfolding received_row
rows-HasUniqueIds = (refl, (refl, (refl, tt)))

abbrev claimed : Claim
claimed = claim_of "w1" (take_lease 10 "w1" 300 waiting)

waiting_is_claimed : (claim 10 placed [] "w1" 300 rows).1 ≡ some claimed
unfolding claim next_due is_claimable received_row
waiting_is_claimed = refl

waiting-IsDue : IsDue 10 placed [] waiting
unfolding received_row
waiting-IsDue = (refl, refl, refl, inl (refl, omega arith))

claim-IsFirst_example :
    (r : Row) × (find claimed.row_id rows ≡ some r)
    × IsDue 10 placed [] r
    × ((r.next_attempt_at < waiting.next_attempt_at)
        ⊎ ((r.next_attempt_at ≡ waiting.next_attempt_at) × (r.id ≤ waiting.id)))
    × (find claimed.row_id (claim 10 placed [] "w1" 300 rows).0
        ≡ some (record r {
          status = processing;
          claimed_by = some "w1";
          attempts = r.attempts + 1;
          lease_expires_at = some (10 + 300 * 1_000_000);
        }))
    × (claimed ≡ record {
      row_id = r.id;
      event_id = r.event_id;
      event_type = r.event_type;
      tenant_id = r.tenant_id;
      payload = r.payload;
      attempts = r.attempts + 1;
      received_at = r.received_at;
      correlation_id = r.correlation_id;
      worker_id = "w1";
    })
unfolding received_row
claim-IsFirst_example =
    claim-IsFirst 10 placed [] "w1" 300 rows {c = claimed} 1 {x = waiting} rows-HasUniqueIds
      waiting_is_claimed refl waiting-IsDue

abbrev ended : Settlement
ended = record {
  ending = processed;
  outcome_code = "EXECUTED";
  error = none;
  next_attempt = none;
  refund_attempt = false;
}

claim-settle_claim_example :
    is_ok (settle_claim 20 claimed ended (claim 10 placed [] "w1" 300 rows).0) ≡ true
claim-settle_claim_example =
    claim-settle_claim 10 20 placed [] "w1" 300 ended rows {c = claimed} rows-HasUniqueIds
      waiting_is_claimed

leased_found : find 2 rows ≡ some leased
unfolding received_row
leased_found = refl

-- the second worker claims the first one's row after its lease has run out
abbrev stale : Claim
stale = claim_of "w1" (record leased { attempts = 1 })

abbrev taken_over : Reach (λ w. w ≢ "w1") rows (claim 200 placed [] "w3" 300 rows).0
taken_over = next here (claims 200 placed [] "w3" 300 (differ "w3" "w1" refl) refl)

abbrev leased_by_other : NotClaimedBy "w1" (some leased)
leased_by_other = differ (some "w2") (some "w1") refl

fence_example : settle_claim 210 stale ended (claim 200 placed [] "w3" 300 rows).0 ≡ err lease_lost
unfolding received_row
fence_example = fence {t = rows} 210 stale ended rows-HasUniqueIds leased_by_other taken_over

finished_found : find 3 rows ≡ some finished
unfolding received_row
finished_found = refl

final_forever_example : find 3 (claim 200 placed [] "w3" 300 rows).0 ≡ some finished
final_forever_example =
    final_forever {t = rows} 3 finished taken_over rows-HasUniqueIds refl finished_found

Reach-HasUniqueIds_example : HasUniqueIds (claim 200 placed [] "w3" 300 rows).0
Reach-HasUniqueIds_example = Reach-HasUniqueIds {t = rows} taken_over rows-HasUniqueIds

success_kept_example :
    ((failure_outcome (outcome retry "X" "") 24 0 9).status ≡ processed)
    ↔ ((outcome retry "X" "").status ≡ processed)
success_kept_example = success_kept (outcome retry "X" "") 24 0 9

-- an attempt that wrote to the business tables, here a number, and then raised
abbrev wrote_and_raised : Raised → Session ℕ → Result Raised Outcome × Session ℕ
wrote_and_raised e s =
    (err e, record s { working = record { inbox = s.working.inbox; business = 7 } })

abbrev times : Times
times = record {
  judged = 20;
  scheduled = 21;
  judged_again = 22;
  scheduled_again = 23;
  database = 24;
}

abbrev session : Table → Session ℕ
session t = record {
  committed = record { inbox = t; business = 0 };
  working = record { inbox = t; business = 0 };
}

abbrev after_failure : Table → Session ℕ
after_failure t = record {
  committed = record { inbox = t; business = 0 };
  working = record { inbox = t; business = 7 };
}

-- the claim of the leased row by its holder
abbrev current : Claim
current = claim_of "w2" leased

current-Holds : Holds current rows
unfolding is_held received_row
current-Holds = (leased, refl, refl)

held_row_is_settled_example :
    IsSettled current
      (after_failure rows)
      (settle [] times current (wrote_and_raised (other "KeyError")) (session rows))
held_row_is_settled_example =
    held_row_is_settled [] times current (wrote_and_raised (other "KeyError")) (session rows)
      {result = err (other "KeyError")} {after = after_failure rows} refl rows-HasUniqueIds
      current-Holds refl refl

stale-IsLost : IsLost stale rows
unfolding is_held received_row
stale-IsLost r e =
    let found : some leased ≡ some r = e in
    let same : leased ≡ r = cc found in subst (λ x. is_held stale x ≡ false) same refl

lost_row_is_left_example :
    IsRolledBack
      (after_failure rows)
      (settle [] times stale (wrote_and_raised lost) (session rows)).1
lost_row_is_left_example =
    lost_row_is_left [] times stale (wrote_and_raised lost) (session rows) {result = err lost}
      {after = after_failure rows} refl rows-HasUniqueIds stale-IsLost refl

lease_protects_example : find 2 (claim 99 placed [] "w1" 300 rows).0 ≡ some leased
lease_protects_example =
    lease_protects 99 placed [] "w1" 300 rows 2 100 leased rows-HasUniqueIds leased_found refl refl
      (omega arith)
