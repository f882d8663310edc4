-- ===== src/Application.antt =====
-- crates/tracker-application: the rules that clients share over a repository.
pub mod Timestamps
pub mod Model
pub mod Ordering
pub mod TaskSearch
pub mod MoveCandidates
pub mod ReportTotals
pub mod CalendarReports
pub mod Tests
pub mod Repository
pub mod Error
pub mod Service
