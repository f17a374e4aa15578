-- ===== src/Depreciation.antt =====
-- Depreciation: backend/depreciation.
pub mod Engine
pub mod Posting
pub mod Ledger
pub mod Advance
pub mod Schedules
pub mod Course
pub mod Totals
pub mod Generated
pub mod Automation
pub mod Executing
pub mod Runs
pub mod Posted
pub mod Completing
pub mod Waiting
pub mod RunTests
pub mod Tests
