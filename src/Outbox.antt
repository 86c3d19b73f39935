-- ===== src/Outbox.antt =====
-- The transactional outbox: the store of events (modules/outbox/postgres_store.py), the retry
-- policy and the dispatch loop (modules/outbox/service.py).
mod Policy
mod Store
mod Stats
mod Dispatch
pub mod Rows
pub mod Refinement
pub mod Delivery
pub mod Passes
pub mod Retries
pub mod Recording
mod Tests
unfoldable pub use Policy.*
unfoldable pub use Store.*
unfoldable pub use Dispatch.*
