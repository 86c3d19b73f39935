-- ===== src/Orders.antt =====
-- Order to cash (modules/order_to_cash): placed orders, the order-consequence read model and the accounting outcomes
-- of invoices and payments.
mod Consequence
mod Outcomes
mod Placed
mod Draft
pub mod Payload
pub mod Facts
pub mod Later
pub mod Sequences
pub mod Forward
pub mod Tests
pub mod PayloadTests
unfoldable pub use Consequence.*
unfoldable pub use Outcomes.*
unfoldable pub use Placed.*
unfoldable pub use Draft.*
