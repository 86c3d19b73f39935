-- ===== src/Outbox/Policy.antt =====
-- The retry policy and the backoff of modules/outbox/service.py. A duration is in microseconds.
use baobab_erp.Common.{ℕ, ◌*◌, ◌^◌, min, Option, none, some}

abbrev pub max_attempts : ℕ
max_attempts = 8

abbrev pub backoff_ceiling_seconds : ℕ
backoff_ceiling_seconds = 3600

abbrev pub second : ℕ
second = 1_000_000

pub record RetryPolicy : Type 0 where
  pub max_attempts : Option ℕ
  pub horizon : Option ℕ

-- `RetryPolicy()`
abbrev pub default_policy : RetryPolicy
default_policy = record { max_attempts = some max_attempts; horizon = none }

-- `SIGNED_POLICY` of modules/application/dispatch_worker.py: no cap, 72 hours
abbrev pub signed_policy : RetryPolicy
signed_policy = record { max_attempts = none; horizon = some (259_200 * second) }

pub record DispatchSummary : Type 0 where
  pub delivered : ℕ
  pub retried : ℕ
  pub dead_lettered : ℕ

unfoldable pub backoff_seconds : ℕ → ℕ
backoff_seconds attempt = min (2 ^ attempt) backoff_ceiling_seconds
