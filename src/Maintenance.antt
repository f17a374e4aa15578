-- ===== src/Maintenance.antt =====
-- Maintenance: backend/maintenance/services.py and the validation of backend/maintenance/models.py.
pub mod Checks
pub mod Plans
pub mod Orders
pub mod Closing
pub mod Costs
pub mod Effects
pub mod Workflow
pub mod Moving
pub mod Written
pub mod Lifecycle
pub mod Idle
pub mod Service
pub mod Restoring
pub mod Completion
pub mod Numbering
pub mod Tests
