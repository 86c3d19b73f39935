-- ===== src/Inbox/Workers.antt =====
-- Any number of workers on one queue: their transactions in any order, as a step relation.
use baobab_erp.Common.{
  ℕ, String, string_eq, nat_eq, option_eq, eq_law, ◌≡◌, ◌≢◌, sym, subst, ◌∙◌, true, false, Option,
  none, some, List, ◌==◌, arith, Bool-cases, Option-cases, inl, inr, map_option, ok, err,
  if◌then◌else◌,
}
use baobab_erp.Inbox.Queue.{
  Row, Table, Claim, lease_lost, next_due, take_lease, claim, is_held, Settlement, settle_row,
  settle_claim,
}
use baobab_erp.Inbox.Choice.{find, HasUniqueIds}
use baobab_erp.Inbox.Found.{
  find-claim, claim-HasUniqueIds, is_final, final_idle, unclaimable_kept, settle_claim_lem,
  find-settle_claim, settle_claim-HasUniqueIds,
}

-- One committed transaction of a worker of which `P` holds.
pub data Step (P : String → Type 0) : Table → Table → Type 0 where
  claims :
      {t u : Table} (now : ℕ) (event_type : String) (locked : List ℕ) (worker : String) (lease : ℕ)
      → P worker
      → u ≡ (claim now event_type locked worker lease t).0
      → Step P t u
  settles :
      {t u : Table} (now : ℕ) (c : Claim) (s : Settlement)
      → P c.worker_id
      → settle_claim now c s t ≡ ok u
      → Step P t u

pub data Reach (P : String → Type 0) (t : Table) : Table → Type 0 where
  here : Reach P t t
  next : {u v : Table} → Reach P t u → Step P u v → Reach P t v

final_not_held : (c : Claim) (r : Row) → is_final r.status ≡ true → is_held c r ≡ false
unfolding is_held
final_not_held c r h = ground arith

module _ {P : String → Type 0} where
  Step-HasUniqueIds : {t u : Table} → Step P t u → HasUniqueIds t → HasUniqueIds u
  Step-HasUniqueIds {t} {u} (claims now ty locked w l _ e) h =
      subst HasUniqueIds (sym e) (claim-HasUniqueIds now ty locked w l t h)
  Step-HasUniqueIds {t} {u} (settles now c s _ e) h = settle_claim-HasUniqueIds now c s t h e

  -- Whatever the workers do, event rows keep different ids.
  pub Reach-HasUniqueIds : {t u : Table} → Reach P t u → HasUniqueIds t → HasUniqueIds u
  Reach-HasUniqueIds here h = h
  Reach-HasUniqueIds (next r st) h = Step-HasUniqueIds st (Reach-HasUniqueIds r h)

  Step-final :
      {t u : Table} (k : ℕ) (r : Row)
      → Step P t u
      → HasUniqueIds t
      → is_final r.status ≡ true
      → find k t ≡ some r
      → find k u ≡ some r
  Step-final {t} {u} k r (claims now ty locked w l _ e) h f found =
      subst (λ v. find k v ≡ some r) (sym e)
        (unclaimable_kept now ty locked w l t k r h found (final_idle now ty r f))
  Step-final {t} {u} k r (settles now c s _ e) h f found =
      find-settle_claim now c s t h k e ∙ rw (found, final_not_held c r f)

  -- A row that is processed, failed or dead-lettered stays exactly as it is, whatever the workers do:
  -- no event is executed again once it has been settled for good.
  pub final_forever :
      {t u : Table} (k : ℕ) (r : Row)
      → Reach P t u
      → HasUniqueIds t
      → is_final r.status ≡ true
      → find k t ≡ some r
      → find k u ≡ some r
  final_forever k r here h f found = found
  final_forever k r (next way st) h f found =
      Step-final k r st (Reach-HasUniqueIds way h) f (final_forever k r way h f found)

-- The row under an id is not claimed by `worker`.
abbrev pub NotClaimedBy : String → Option Row → Type 0
NotClaimedBy worker none = Unit
NotClaimedBy worker (some r) = r.claimed_by ≢ some worker

module _ (worker : String) where
  abbrev Other : String → Type 0
  Other w = w ≢ worker

  claim-NotClaimedBy :
      (now : ℕ) (event_type : String) (locked : List ℕ) (w : String) (lease : ℕ) (t : Table) (k : ℕ)
      → Other w
      → NotClaimedBy worker (find k t)
      → NotClaimedBy worker (find k (claim now event_type locked w lease t).0)
  unfolding take_lease
  claim-NotClaimedBy now event_type locked w lease t k other n =
      subst (NotClaimedBy worker) (sym (find-claim now event_type locked w lease t k))
        (elim (Option-cases (next_due now event_type locked t)) [
          | inl e ↦ rw e n
          | inr (x, e) ↦ rw e (taken now w lease x (find k t) other n)
        ])
    where
      taken :
          (now : ℕ) (w : String) (lease : ℕ) (x : Row) (o : Option Row)
          → Other w
          → NotClaimedBy worker o
          → NotClaimedBy worker
              (map_option (λ y. if y.id == x.id then take_lease now w lease y else y) o)
      taken now w lease x none other n = tt
      taken now w lease x (some y) other n = elim (Bool-cases (y.id == x.id)) [
        | inl e ↦ rw e (λ q. other (cc q))
        | inr e ↦ rw e n
      ]

  settle-NotClaimedBy :
      (now : ℕ) (c : Claim) (s : Settlement) (o : Option Row)
      → NotClaimedBy worker o
      → NotClaimedBy worker (map_option (λ r. if is_held c r then settle_row now s r else r) o)
  unfolding settle_row
  settle-NotClaimedBy now c s none n = tt
  settle-NotClaimedBy now c s (some y) n = elim (Bool-cases (is_held c y)) [
    | inl e ↦ rw e (λ q. cc)
    | inr e ↦ rw e n
  ]

  Step-NotClaimedBy :
      {t u : Table} (k : ℕ)
      → Step Other t u
      → HasUniqueIds t
      → NotClaimedBy worker (find k t)
      → NotClaimedBy worker (find k u)
  Step-NotClaimedBy {t} {u} k (claims now ty locked w l o e) h n =
      subst (λ v. NotClaimedBy worker (find k v)) (sym e)
        (claim-NotClaimedBy now ty locked w l t k o n)
  Step-NotClaimedBy {t} {u} k (settles now c s o e) h n =
      subst (NotClaimedBy worker) (sym (find-settle_claim now c s t h k e))
        (settle-NotClaimedBy now c s (find k t) n)

  Reach-NotClaimedBy :
      {t u : Table} (k : ℕ)
      → Reach Other t u
      → HasUniqueIds t
      → NotClaimedBy worker (find k t)
      → NotClaimedBy worker (find k u)
  Reach-NotClaimedBy k here h n = n
  Reach-NotClaimedBy k (next way st) h n =
      Step-NotClaimedBy k st (Reach-HasUniqueIds way h) (Reach-NotClaimedBy k way h n)

not_claimed-not_held : (c : Claim) (r : Row) → r.claimed_by ≢ some c.worker_id → is_held c r ≡ false
unfolding is_held
not_claimed-not_held c r n = ground (arith, eq_law r.claimed_by (some c.worker_id))

refused :
    (now : ℕ) (c : Claim) (s : Settlement) (u : Table)
    → HasUniqueIds u
    → NotClaimedBy c.worker_id (find c.row_id u)
    → settle_claim now c s u ≡ err lease_lost
refused now c s u h n = elim (Option-cases (find c.row_id u)) [
  | inl e ↦ settle_claim_lem now c s u h ∙ rw e
  | inr (r, e) ↦
      settle_claim_lem now c s u h
      ∙ rw (e, not_claimed-not_held c r (subst (NotClaimedBy c.worker_id) e n))
]

-- A worker that has lost its row, because another claimed it or it was settled, is refused whenever
-- it tries to settle its old claim, whatever the other workers do meanwhile.
pub fence :
    {t u : Table} (now : ℕ) (c : Claim) (s : Settlement)
    → HasUniqueIds t
    → NotClaimedBy c.worker_id (find c.row_id t)
    → Reach (λ w. w ≢ c.worker_id) t u
    → settle_claim now c s u ≡ err lease_lost
fence {t} {u} now c s h n way =
    refused now c s u (Reach-HasUniqueIds way h) (Reach-NotClaimedBy c.worker_id c.row_id way h n)
