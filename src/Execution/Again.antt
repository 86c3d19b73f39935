-- ===== src/Execution/Again.antt =====
-- An executed order is not executed again (Execution/Attempt.antt).
use baobab_erp.Common.{
  ℕ, ◌≡◌, refl, sym, ap, subst, ◌∙◌, String, string_eq, pair_eq, nat_eq, eq_law, Bool, true, false,
  some, ◌==◌, any, find_key-append, ok_inj, ok, Bool-cases, Option-cases, inl, inr,
}
use baobab_erp.Egress.{Permits}
use baobab_erp.Inbox
use baobab_erp.Inbox.{processed, Outcome, outcome, Claim, Db, Session, Raised}
use baobab_erp.Orders
use baobab_erp.Orders.{
  PlacedOrder, OrderConsequence, parse_placed_order, open_order, opened, key, read, duplicate_key,
}
use baobab_erp.Orders.Later.{Since, HasVersion, Since-HasVersion, get-HasVersion}
use baobab_erp.Execution.World.{Business, World, Target, target}
use baobab_erp.Execution.Env.{Env}
use baobab_erp.Execution.Attempt.{
  execute, execute_locked, known_outcome, leave_lock, at_instance, at_place, with_order, lock_key,
}
use baobab_erp.Execution.Statements.{at_rest, AllWritten}

-- A record that was opened has the version that it was opened with.
opened_found :
    (tenant_id entity_id order_id : String) (version : ℕ) (erp_id : String) (now : ℕ)
    (t u : Orders.Table) {entry : OrderConsequence}
    → open_order tenant_id entity_id order_id version erp_id now t ≡ ok (some entry, u)
    → HasVersion tenant_id order_id version u
unfolding open_order Orders.has_order
opened_found tenant_id entity_id order_id version erp_id now t u {entry} h =
    elim (Option-cases (Orders.find tenant_id order_id t)) [
      | inr (r, e) ↦ absurd (cc (rw e at h))
      | inl e ↦ elim (Bool-cases (any (λ r. r.erp_order_id == erp_id) t)) [
        | inl taken ↦ absurd (cc (rw (e, taken) at h))
        | inr free ↦
            let row = opened tenant_id entity_id order_id version erp_id now in
            let done = ok_inj (rw (e, free) at h) in
            (
              row,
              ap (Orders.find tenant_id order_id) (sym (ap (λ x. x.1) done))
                  ∙ find_key-append key (tenant_id, order_id) t row e refl,
              refl,
            )
      ]
    ]

module _ {N : Type 0} (env : Env N) (claim : Claim) (tenant_id instance : String)
    (order : PlacedOrder) (place : Target) where
  -- an order with a record is not executed
  known_is_left :
      (db : Db Business) (p : Permits) (n : N) (r : OrderConsequence)
      → Orders.get tenant_id order.commerce_order_id db.business.consequences ≡ some r
      → execute_locked env claim tenant_id instance place order (p, (at_rest db, n))
        ≡ (known_outcome env claim order.order_version r.order_version, (p, (at_rest db, n)))
  unfolding execute_locked
  known_is_left db p n r known = rw known

  -- Once the rows of an order were written, every attempt at it is answered ALREADY_EXECUTED and
  -- leaves the engine, the permits and the database as they are: whichever worker makes it, under
  -- whatever event, and on any later database, whose consequence table is reached from the written one
  -- by recorded facts and opened orders and whose other tables are any; where its payload parses to
  -- an order of the same id and version, its tenant is placed on an engine instance and its lock is
  -- free.
  pub execute-AllWritten :
      (first : Env N) (its_claim : Claim) (its_order : PlacedOrder) (native_id : ℕ) (adopted : Bool)
      (before : Db Business) (b : Business) (rows : Inbox.Table) (later : Db Business) (p : Permits)
      (n : N)
      → AllWritten first its_claim tenant_id its_order native_id adopted before b rows
      → Since b.consequences later.business.consequences
      → its_order.commerce_order_id ≡ order.commerce_order_id
      → its_order.order_version ≡ order.order_version
      → parse_placed_order env.number_of claim.payload ≡ ok order
      → claim.tenant_id ≡ some tenant_id
      → (tenant_id == "") ≡ false
      → target later.business tenant_id order.legal_entity_id ≡ some place
      → place.engine_instance_id ≡ some instance
      → env.is_free (lock_key env claim tenant_id order) ≡ true
      → execute env claim (p, (at_rest later, n))
        ≡ (ok (outcome processed "ALREADY_EXECUTED" ""), (p, (at_rest later, n)))
  unfolding execute known_outcome
  execute-AllWritten first its_claim its_order native_id adopted before b rows later p n written
        since same_id same_version parsed tenant named placed there free =
      let id = order.commerce_order_id in
      let at_first =
        opened_found tenant_id its_order.legal_entity_id its_order.commerce_order_id
          its_order.order_version (first.erp_order_id tenant_id its_order.commerce_order_id)
          first.now before.business.consequences b.consequences written.opened in
      let at_last = Since-HasVersion tenant_id id order.order_version since (
        subst (λ v. HasVersion tenant_id id v b.consequences) same_version
          (subst (λ i. HasVersion tenant_id i its_order.order_version b.consequences) same_id
            at_first)) in
      let (entry, found, version) =
        get-HasVersion tenant_id id order.order_version later.business.consequences at_last in
      let left = known_is_left later p n entry found in
      let w : World N = (p, (at_rest later, n)) in
      ap (λ x. with_order env claim x claim.tenant_id w) parsed
      ∙ ap (λ x. with_order env claim (ok order) x w) tenant
      ∙ rw named (
          ap (λ x. at_place env claim tenant_id order x w) placed
          ∙ ap (λ x. at_instance env claim tenant_id order place x w) there
          ∙ rw free (
              ap (leave_lock env claim)
                (left ∙ ap (λ k. (known_outcome env claim order.order_version k, w)) version)
              ∙ rw ((eq_law order.order_version order.order_version).1 refl)))
