-- ===== src/Inbox/Found.antt =====
-- What a claim and a settlement change (Inbox/Queue.antt), row by row.
use baobab_erp.Common.{
  ℕ, String, string_eq, nat_eq, option_eq, eq_law, ◌≡◌, refl, sym, subst, ◌∙◌, Bool, true, false,
  none, some, ◌==◌, arith, update_where, map_option, find_key-update, Unique-update, find_key-key,
  count-Unique, All-found, Bool-cases, Option-cases, List, inl, inr, ok, err, if◌then◌else◌,
}
use baobab_erp.Inbox.Queue.{
  Row, Table, Claim, Status, done, dead, failed, lease_lost, is_claimable, next_due, with_id,
  take_lease, claim_row, claim, is_held, Settlement, settle_row, settle_claim,
}
use baobab_erp.Inbox.Choice.{find, HasUniqueIds, Eligible, next_due-Eligible, next_due-holds}

module _ (now : ℕ) (event_type : String) (locked : List ℕ) (worker : String) (lease : ℕ)
    (t : Table) where
  -- A claim takes the lease of the row that it chose, and changes no other row.
  pub find-claim :
      (k : ℕ)
      → find k (claim now event_type locked worker lease t).0
        ≡ elim (next_due now event_type locked t) [
          | none ↦ find k t
          | some r ↦
              map_option (λ x. if x.id == r.id then take_lease now worker lease x else x) (find k t)
        ]
  unfolding claim
  find-claim k = elim (Option-cases (next_due now event_type locked t)) [
    | inl e ↦ rw (e, claim_row)
    | inr (r, e) ↦ rw e (
        find_key-update (λ (x : Row). x.id) (with_id r.id) (take_lease now worker lease) k t
          (λ x. unfold take_lease in refl))
  ]

  pub claim-HasUniqueIds :
      HasUniqueIds t → HasUniqueIds (claim now event_type locked worker lease t).0
  unfolding claim
  claim-HasUniqueIds u = elim (Option-cases (next_due now event_type locked t)) [
    | inl e ↦ rw (e, claim_row) u
    | inr (r, e) ↦
        rw (e, claim_row)
          (Unique-update (λ (x : Row). x.id) (with_id r.id) (take_lease now worker lease) t
            (λ x. unfold take_lease in refl) u)
  ]

  pub chosen_found :
      {r : Row} → HasUniqueIds t → next_due now event_type locked t ≡ some r → find r.id t ≡ some r
  chosen_found u e =
      next_due-holds (λ r. find r.id t ≡ some r) now event_type locked t
        (All-found (λ (x : Row). x.id) t u) e

  -- A row that cannot be claimed is the same after any claim, where ids are unique.
  pub unclaimable_kept :
      (k : ℕ) (r : Row)
      → HasUniqueIds t
      → find k t ≡ some r
      → is_claimable now event_type r ≡ false
      → find k (claim now event_type locked worker lease t).0 ≡ some r
  unclaimable_kept k r u found idle = elim (Option-cases (next_due now event_type locked t)) [
    | inl e ↦ find-claim k ∙ (rw (e, found))
    | inr (x, e) ↦
        let other : (r.id == x.id) ≡ false = elim (Bool-cases (r.id == x.id)) [
          | inl q ↦
              let again : find r.id t ≡ some x =
                subst (λ i. find i t ≡ some x) (sym ((eq_law r.id x.id).0 q)) (chosen_found u e) in
              let here : find r.id t ≡ some r =
                subst (λ i. find i t ≡ some r) (sym (find_key-key (λ (y : Row). y.id) k t found))
                  found in
              let same : x ≡ r = cc (again, here) in
              let eligible =
                subst (Eligible now event_type locked) same
                  (next_due-Eligible now event_type locked t e) in
              ground (arith, eligible, idle)
          | inr q ↦ q
        ] in
        find-claim k ∙ rw (e, found, other)
  ]

abbrev pub is_final : Status → Bool
is_final done = true
is_final failed = true
is_final dead = true
is_final _ = false

pub final_idle :
    (now : ℕ) (event_type : String) (r : Row)
    → is_final r.status ≡ true
    → is_claimable now event_type r ≡ false
unfolding is_claimable
final_idle now event_type r h = ground arith

module _ (now : ℕ) (c : Claim) (s : Settlement) (t : Table) (u : HasUniqueIds t) where
  held_id : (r : Row) → is_held c r ≡ true → r.id ≡ c.row_id
  unfolding is_held
  held_id r h = ground (arith, eq_law r.id c.row_id)

  -- Settling succeeds exactly when the claim's row is still held under the claim, and then changes
  -- that row; otherwise the lease is lost.
  pub settle_claim_lem : settle_claim now c s t ≡ elim (find c.row_id t) [
    | none ↦ err lease_lost
    | some r ↦
        if is_held c r then ok (update_where (is_held c) (settle_row now s) t) else err lease_lost
  ]
  unfolding settle_claim
  settle_claim_lem =
      let counted = count-Unique (λ (r : Row). r.id) (is_held c) c.row_id t held_id u in
      elim (Option-cases (find c.row_id t)) [
        | inl e ↦ rw (counted, e)
        | inr (r, e) ↦ elim (Bool-cases (is_held c r)) [
          | inl h ↦ rw (counted, e, h)
          | inr h ↦ rw (counted, e, h)
        ]
      ]

  -- A settlement that succeeds changes the claim's row as `settle_row` says, and no other.
  pub find-settle_claim :
      (k : ℕ) {v : Table}
      → settle_claim now c s t ≡ ok v
      → find k v ≡ map_option (λ r. if is_held c r then settle_row now s r else r) (find k t)
  unfolding settle_claim
  find-settle_claim k {v} h =
      let same : v ≡ update_where (is_held c) (settle_row now s) t = ground arith in
      rw same (
        find_key-update (λ (r : Row). r.id) (is_held c) (settle_row now s) k t
          (λ r. unfold settle_row in refl))

  pub settle_claim-HasUniqueIds : {v : Table} → settle_claim now c s t ≡ ok v → HasUniqueIds v
  unfolding settle_claim
  settle_claim-HasUniqueIds {v} h =
      let same : v ≡ update_where (is_held c) (settle_row now s) t = ground arith in
      subst HasUniqueIds (sym same) (
        Unique-update (λ (r : Row). r.id) (is_held c) (settle_row now s) t
          (λ r. unfold settle_row in refl) u)
