-- ===== src/Records.antt =====
-- The rows that the services read and write, and the database that holds them. Descriptive columns
-- (names, notes, vendor details) that no rule reads are left out. A foreign key to a row whose
-- organization a rule reads through the relation is a `Ref`.
mod Organizations
mod Assets
mod Ledgers
mod Custody
mod Disposals
mod Servicing
mod Store
pub use Organizations.*
pub use Assets.*
pub use Ledgers.*
pub use Custody.*
pub use Disposals.*
pub use Servicing.*
unfoldable pub use Store.*
