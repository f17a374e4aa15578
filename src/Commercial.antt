-- ===== src/Commercial.antt =====
-- Subscriptions and billing: backend/commercial.
pub mod Entitlements
pub mod Capacity
pub mod Tests
