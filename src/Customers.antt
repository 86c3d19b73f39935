-- ===== src/Customers.antt =====
-- The projection of customers (modules/customers/).
mod Payload
mod Tests
