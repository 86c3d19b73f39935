-- ===== src/Inbox/Budgets.antt =====
-- The budgets of a failed attempt (Inbox/Policy.antt).
use native.Mathlib.Nat.{pow-suc}
use baobab_erp.Common.{
  ℕ, suc, ◌+◌, ◌*◌, ◌^◌, ◌≤◌, ◌<◌, ◌≡◌, ap, power_pos, min, ◌↔◌, false, some, arith, is_none,
}
use baobab_erp.Inbox.Policy.{
  Outcome, processed, retry, blocked, max_attempts, retry_base_seconds, retry_ceiling_seconds,
  blocked_delay_seconds, blocked_horizon, retry_delay_seconds, failure_outcome,
}

-- A row is retried only before its 24th attempt, and at a given time.
retry_within_budget :
    (o : Outcome) (attempts received_at now : ℕ)
    → (failure_outcome o attempts received_at now).status ≡ retry
    → (attempts < max_attempts)
      × (is_none (failure_outcome o attempts received_at now).delay_seconds ≡ false)
unfolding failure_outcome
retry_within_budget o attempts received_at now h = ground arith

-- A row stays blocked only within 72 hours of its receipt, and is looked at again every 15 minutes.
blocked_within_horizon :
    (o : Outcome) (attempts received_at now : ℕ)
    → (failure_outcome o attempts received_at now).status ≡ blocked
    → (now ≤ received_at + blocked_horizon)
      × ((failure_outcome o attempts received_at now).delay_seconds ≡ some blocked_delay_seconds)
unfolding failure_outcome
blocked_within_horizon o attempts received_at now h = ground arith

-- The budgets change no success into a failure and no failure into a success.
pub success_kept :
    (o : Outcome) (attempts received_at now : ℕ)
    → ((failure_outcome o attempts received_at now).status ≡ processed) ↔ (o.status ≡ processed)
unfolding failure_outcome
success_kept o attempts received_at now = (λ h. ground arith, λ h. ground arith)

delay_after :
    (a : ℕ) → retry_delay_seconds (suc a) ≡ min (retry_base_seconds * 2 ^ a) retry_ceiling_seconds
unfolding retry_delay_seconds
delay_after a = ap (λ n. min (retry_base_seconds * 2 ^ n) retry_ceiling_seconds) (omega arith)

-- The delay before a retry is from 30 seconds to an hour; each attempt waits at least as long as the
-- one before it, and at most twice as long.
retry_delay_bounds :
    (a : ℕ)
    → (retry_base_seconds ≤ retry_delay_seconds (suc a))
      × (retry_delay_seconds (suc a) ≤ retry_ceiling_seconds)
      × (retry_delay_seconds (suc a) ≤ retry_delay_seconds (suc (suc a)))
      × (retry_delay_seconds (suc (suc a)) ≤ 2 * retry_delay_seconds (suc a))
retry_delay_bounds a = omega (arith, pow-suc 2 a, power_pos a, delay_after a, delay_after (suc a))
