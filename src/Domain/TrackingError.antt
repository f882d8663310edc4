-- ===== src/Domain/TrackingError.antt =====
-- `TrackingError` of crates/tracker-domain/src/tracking.rs.
use time_tracker.Domain.Values.{TaskId, WorklogId, Instant}

pub data TrackingError : Type 0 where
  already_running not_running : TrackingError
  task_archived task_is_active : TaskId → TrackingError
  stop_before_start : WorklogId → Instant → Instant → TrackingError
  stop_at_start : WorklogId → Instant → TrackingError
  task_already_active : TaskId → TrackingError
  worklog_not_active : WorklogId → TrackingError
