-- ===== src/Provisioning.antt =====
-- Provisioning of legal entities (modules/provisioning): the lifecycle of an entity and the state of a
-- command over several of them.
mod Lifecycle
mod CommandState
pub mod Onboarding
pub mod Statuses
mod Tests
pub use Lifecycle.*
pub use CommandState.*
