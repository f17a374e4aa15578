-- ===== src/Disposals.antt =====
-- Disposals: backend/disposals/services.py and the validation of backend/disposals/models.py.
pub mod Checks
pub mod Saving
pub mod Requests
pub mod Decisions
pub mod Completion
pub mod Effects
pub mod Derecognition
pub mod Lawful
pub mod Workflow
pub mod Closing
pub mod Accounting
pub mod Tests
