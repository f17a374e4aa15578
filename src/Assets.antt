-- ===== src/Assets.antt =====
-- The asset master and acquisitions: backend/assets/services and the validation of
-- backend/assets/models.py.
pub mod Checks
pub mod Acquiring
pub mod Capitalizing
pub mod Master
pub mod Effects
pub mod Capitalization
pub mod Once
pub mod Kept
pub mod Locked
pub mod Tests
