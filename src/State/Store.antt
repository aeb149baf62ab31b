-- ===== src/State/Store.antt =====
-- daemon/state/store.go: the SQL statements as functions on the tables. `Table` has the statements'
-- shapes; the other modules have the methods, by the tables that they change.
pub mod Table
pub mod Jobs
pub mod Steps
pub mod Recovery
pub mod Drives
pub mod Lookups
pub mod Cascade
pub mod History
pub mod Queries
