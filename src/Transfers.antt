-- ===== src/Transfers.antt =====
-- Custody and movement of assets: backend/transfers.
pub mod Checks
pub mod Assigning
pub mod Moving
pub mod Effects
pub mod CustodyEffects
pub mod Uniqueness
pub mod Workflow
pub mod Relocation
pub mod Tests
