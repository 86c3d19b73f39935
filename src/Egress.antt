-- ===== src/Egress.antt =====
-- Permits of native financial actions, the client of the engine, and the guard at its REST egress
-- (modules/integration/native_finance_guard.py, idempiere_client.py).
mod Scopes
mod Paths
mod Guard
mod Client
pub mod Query
pub mod Ending
pub mod Authority
pub mod Once
mod Tests
unfoldable pub use Scopes.*
unfoldable pub use Guard.*
unfoldable pub use Client.*
