-- ===== src/Application/Error.antt =====
-- `ApplicationError` of crates/tracker-application/src/error.rs: why an operation of the service
-- failed, with the texts and the repository errors that it carries.
pub mod Failure
pub mod Tests
use time_tracker.Prelude.Text.{Text}
use time_tracker.Domain.TrackingError.{TrackingError}
use time_tracker.Domain.Worklog.{WorklogCorrectionError, WorklogMoveError}
use time_tracker.Application.Repository.{RepositoryError}

pub data ApplicationFailureCategory : Type 0 where
  general task_not_found task_changed worklog_not_found : ApplicationFailureCategory
  worklog_changed active_worklog worklog_history_changed : ApplicationFailureCategory
  worklog_overlap active_task inactive_task_candidates_changed : ApplicationFailureCategory

pub data ApplicationFailureSource : Type 0 where
  operation storage remote_unavailable remote_protocol : ApplicationFailureSource

-- The first argument of a `.._recovery` is the failed write, the second the failed reload.
pub data ApplicationError : Type 0 where
  remote_unavailable remote_protocol : Text → ApplicationError
  recovery : ApplicationError → ApplicationError → ApplicationError
  semantic : ApplicationFailureCategory → Text → ApplicationError
  domain : TrackingError → ApplicationError
  invalid_worklog_correction : WorklogCorrectionError → ApplicationError
  invalid_worklog_move : WorklogMoveError → ApplicationError
  repository tracking_write tracking_recovery task_recovery : RepositoryError → ApplicationError
  worklog_correction_write worklog_move_write : RepositoryError → ApplicationError
  worklog_deletion_write : RepositoryError → ApplicationError
  worklog_correction_recovery : RepositoryError → RepositoryError → ApplicationError
  worklog_move_recovery : RepositoryError → RepositoryError → ApplicationError
  worklog_deletion_recovery : RepositoryError → RepositoryError → ApplicationError
  tracking_state_changed invalid_report_range report_duration_overflow : ApplicationError

-- `with_recovery_failure`
abbrev pub with_recovery_failure : ApplicationError → ApplicationError → ApplicationError
with_recovery_failure primary failed = recovery primary failed
