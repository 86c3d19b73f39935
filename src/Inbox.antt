-- ===== src/Inbox.antt =====
-- The idempotent inbox: receipt (modules/inbox/service.py, postgres_store.py), the work queue
-- (modules/inbox/postgres_queue.py), the budgets of an attempt (the rules of
-- modules/order_to_cash/execution_policy.py) and settling it (modules/inbox/execution_support.py).
mod Policy
mod Queue
mod Receipt
mod Attempt
pub mod Choice
pub mod Found
pub mod Lease
pub mod Workers
pub mod Budgets
pub mod Settlement
pub mod Arrival
mod Tests
mod ArrivalTests
unfoldable pub use Policy.*
unfoldable pub use Queue.*
unfoldable pub use Receipt.*
unfoldable pub use Attempt.*
