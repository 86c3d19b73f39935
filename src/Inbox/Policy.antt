-- ===== src/Inbox/Policy.antt =====
-- Outcomes of a claimed row and their budgets (modules/order_to_cash/execution_policy.py). Instants
-- are in microseconds, delays in seconds.
use baobab_erp.Common.{
  ℕ, ◌+◌, ◌-◌, ◌*◌, ◌^◌, min, String, Bool, true, false, ◌&&◌, Option, none, some, leb, ltb,
  is_none, if◌then◌else◌,
}

abbrev pub max_attempts : ℕ
max_attempts = 24

abbrev pub retry_base_seconds : ℕ
retry_base_seconds = 30

abbrev pub retry_ceiling_seconds : ℕ
retry_ceiling_seconds = 3600

abbrev pub all_organizations_ad_org_id : ℕ
all_organizations_ad_org_id = 0

abbrev pub contention_delay_seconds : ℕ
contention_delay_seconds = 5

abbrev pub blocked_delay_seconds : ℕ
blocked_delay_seconds = 900

abbrev pub microseconds : ℕ → ℕ
microseconds seconds = seconds * 1_000_000

-- 72 hours
abbrev pub blocked_horizon : ℕ
blocked_horizon = microseconds 259_200

pub data Ending : Type 0 where
  processed retry blocked dead_letter : Ending

pub record Outcome : Type 0 where
  pub status : Ending
  pub code : String
  pub detail : String
  pub delay_seconds : Option ℕ
  pub refund_attempt : Bool

-- `Outcome(status, code, detail)`
abbrev pub outcome : Ending → String → String → Outcome
outcome status code detail = record {
  status = status;
  code = code;
  detail = detail;
  delay_seconds = none;
  refund_attempt = false;
}

-- for a claimed row `attempts` is at least 1
unfoldable pub retry_delay_seconds : ℕ → ℕ
retry_delay_seconds attempts = min (retry_base_seconds * 2 ^ (attempts - 1)) retry_ceiling_seconds

abbrev pub is_retry : Ending → Bool
is_retry retry = true
is_retry _ = false

abbrev pub is_blocked : Ending → Bool
is_blocked blocked = true
is_blocked _ = false

unfoldable pub failure_outcome : Outcome → ℕ → ℕ → ℕ → Outcome
failure_outcome o attempts received_at now =
    if is_retry o.status && leb max_attempts attempts
    then outcome dead_letter "ATTEMPTS_EXHAUSTED" o.code
    else if is_blocked o.status && ltb (received_at + blocked_horizon) now
    then outcome dead_letter "BLOCKED_HORIZON_EXCEEDED" o.code
    else if is_retry o.status && is_none o.delay_seconds
    then record {
      status = retry;
      code = o.code;
      detail = o.detail;
      delay_seconds = some (retry_delay_seconds attempts);
      refund_attempt = false;
    }
    else if is_blocked o.status
    then record {
      status = blocked;
      code = o.code;
      detail = o.detail;
      delay_seconds = some blocked_delay_seconds;
      refund_attempt = false;
    }
    else o
