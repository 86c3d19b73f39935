-- ===== src/Execution.antt =====
-- The execution of placed orders on the engine (modules/order_to_cash/inbox_execution.py), with the
-- event that announces it (modules/order_to_cash/consequence_events.py) and what executors share
-- (modules/inbox/execution_support.py).
pub mod World
pub mod Announcement
mod Native
mod Env
mod Rows
mod Attempt
pub mod OneOrder
pub mod Adopted
pub mod Attempts
pub mod Statements
pub mod Together
pub mod Again
mod Tests
