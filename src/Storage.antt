-- ===== src/Storage.antt =====
-- crates/tracker-storage: the SQLite schema with its triggers, the repository operations over it,
-- and the mapping of its errors.
pub mod Errors
pub mod Schema
pub mod Statements
pub mod Mapping
pub mod Reads
pub mod Tracking
pub mod Worklogs
pub mod Tasks
pub mod History
pub mod GlobalHistory
pub mod Reports
pub mod Invariant
pub mod Requests
pub mod Repository
pub mod Tests
pub mod ServiceTests
