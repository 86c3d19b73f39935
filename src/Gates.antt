-- ===== src/Gates.antt =====
-- The gates ahead of native financial actions: the legal actor, the documentary restriction and the exact
-- action (modules/order_to_cash/legal_actor_gate.py, documentary_restriction.py, native_action_gate.py,
-- governed_service.py).
mod Decision
mod Action
mod Documentary
mod ControlPlane
mod Native
pub mod Exact
pub mod Governed
pub mod Invariants
pub mod Leaving
pub mod Refusals
pub mod Authority
mod Tests
mod NativeTests
unfoldable pub use Decision.*
unfoldable pub use Action.*
unfoldable pub use Native.*
