-- ===== src/Events.antt =====
-- The canonical event envelope and the registry of event types (modules/events/).
mod Grammar
mod Registry
mod Envelope
mod Wire
pub mod Checks
pub mod RoundTrip
pub mod Tests
unfoldable pub use Grammar.{is_uuid}
unfoldable pub use Registry.*
unfoldable pub use Wire.*
unfoldable pub use Envelope.*
