-- ===== src/Domain.antt =====
-- crates/tracker-domain: identifiers, task names, tasks, worklogs and the tracker.
pub mod Values
pub mod TaskName
pub mod Task
pub mod Inactivity
pub mod TrackingError
pub mod Worklog
pub mod ActiveWorklog
pub mod Tracking
pub mod Tests
