-- ===== src/Commands.antt =====
-- The order-to-cash commands (modules/order_to_cash/service.py) and what they work on.
mod Calls
mod Mappings
mod Accounts
mod Notices
mod Stores
mod Ledger
mod Outcomes
mod Documents
mod Requests
pub mod Denials
mod Steps
mod Announced
mod Whole
mod Inserted
pub mod Grown
pub mod Consistent
pub mod Resolved
mod Tests
