-- ===== src/Lib.antt =====
-- AssetFlow, a fixed-asset management backend: its accounting core. The program keeps organizations'
-- assets in a PostgreSQL database through Django models; service functions change them, each in one
-- transaction under row locks, and each writes an audit event. This development models the
-- depreciation ledger, custody and transfers, disposals and the write access of subscriptions.
--
-- How the code is modelled. A database (`Records.Store.Db`) is a list of rows for each table, an
-- audit log and the next fresh key; a locked lookup is `Table.find`, an update is `Table.save`. A
-- service is a function from the caller's arguments and a database to a `Result`: `ok` with the new
-- database and the row, or the fault it raises, which carries no database because the transaction
-- is rolled back. Row locks make the services of one row run one after the other, so a run is a
-- sequence of calls. The clock (`timezone.now()`, `timezone.localdate()`) is an argument.
--
-- Money is in cents. Columns of two decimal places are natural numbers of cents where a CHECK
-- constraint keeps them from falling below zero and integers otherwise. `Decimal` division is
-- modelled in the default context of 28 digits, half-even, followed by `money`. `money`
-- fails past those 28 digits; the quotients of the columns stay below.
--
-- The parts, with the code they are about:
-- - Prelude, Result, Table: shared tests on numbers, outcomes, and tables with keys.
-- - Money: `money` and the division of backend/depreciation/services/engine.py. The search for the
--   places of a quotient runs on 60 steps, enough for every amount below 10 ^ 27 cents and divisor
--   up to 10 ^ 33, which covers the columns.
-- - Calendar: dates and the month arithmetic of backend/depreciation/services/posting.py.
-- - Records: the rows, from the models.py files under backend/.
-- - Texts: the string methods that the models call, and the currency codes.
-- - Commercial: backend/commercial/entitlements.py; Capacity is its `require_capacity`.
-- - Assets: Checks is the validation of backend/assets/models.py; Acquiring and Capitalizing are
--   backend/assets/services/acquisition.py and Master is assets.py beside it; Effects, Capitalization,
--   Once, Kept and Locked hold what follows.
-- - Depreciation: Engine is engine.py; Posting is `post_depreciation` of posting.py and Schedules its
--   other operations; Ledger, Advance, Course, Totals and Generated follow a schedule from its
--   generation through all its postings. Automation is automation.py with the selector that it
--   uses; its state is the database and the table of runs, and the sort that the database does is a
--   parameter. Executing, Posted, Completing, Waiting and Runs hold what follows.
-- - Transfers: Checks is the validation of backend/transfers/models.py; Assigning and Moving are the
--   services of backend/transfers/services.py; Effects and CustodyEffects say what a successful call
--   has found and written; Uniqueness, Workflow and Relocation hold what follows.
-- - Disposals: Checks and Saving are the validation and the save of backend/disposals/models.py;
--   Requests, Decisions and Completion are backend/disposals/services.py; Effects, Derecognition,
--   Lawful, Workflow, Closing and Accounting hold what follows.
-- - Maintenance: Checks is the validation of backend/maintenance/models.py; Plans, Orders, Closing and
--   Costs are backend/maintenance/services.py; Effects, Moving and Written say what a successful call has
--   found and written; Workflow, Lifecycle, Idle, Service, Numbering, Restoring and Completion hold
--   what follows.
-- - Samples and the Tests modules: sample rows, and the theorems applied to runs of the services.
--
-- How they interact. A schedule is generated from an asset's balances; a posting reads the asset, its
-- schedule and its latest entry and writes all three; a transfer writes the asset's placement and a
-- disposal its status, after it has looked at assignments, transfers and work orders. A capitalization
-- gives an asset its balances; the start and the end of a work order move its status between active
-- and in maintenance; a monthly run posts every schedule that is due.
--
-- Not modelled: the HTTP layer, permissions, serializers and selectors, which read or delegate; the
-- physical verification, assurance, reporting, analytics and registration
-- services; the `save` guards of backend/transfers/models.py, whose cases the services' status tests
-- exclude; notes, addresses and the texts of audit events, which no rule reads.
pub mod Prelude
pub mod Result
pub mod Table
pub mod Texts
pub mod Money
pub mod Calendar
pub mod Depreciation
pub mod Transfers
pub mod Records
pub mod Commercial
pub mod Assets
pub mod Disposals
pub mod Maintenance
pub mod Samples
