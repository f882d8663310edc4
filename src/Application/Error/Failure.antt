-- ===== src/Application/Error/Failure.antt =====
-- `ApplicationError::failure` of crates/tracker-application/src/error.rs: the view of an error that
-- clients show. The texts that thiserror derives for the errors of the domain are parameters.
pub mod Redaction
use time_tracker.Prelude.{ℕ, Bool, true, false, Option, none, some, ◌++◌}
use time_tracker.Prelude.Text.{Text, codes}
use time_tracker.Domain.TrackingError.{TrackingError}
use time_tracker.Domain.TrackingError
use time_tracker.Domain.Worklog.{WorklogCorrectionError, WorklogMoveError}
use time_tracker.Application.Repository.{RepositoryError}
use time_tracker.Application.Repository
use time_tracker.Application.Error.{
  ApplicationError, ApplicationFailureCategory, ApplicationFailureSource, general, operation,
  storage,
}
use time_tracker.Application.Error

pub record ApplicationFailure : Type 0 where
  pub category : ApplicationFailureCategory
  pub message : Text
  pub source : ApplicationFailureSource
  pub recovery : Option Text

-- `to_string` of the errors of the domain.
pub record Display : Type 0 where
  pub tracking : TrackingError → Text
  pub correction : WorklogCorrectionError → Text
  pub movement : WorklogMoveError → Text

unfoldable pub repository_error_category : RepositoryError → ApplicationFailureCategory
repository_error_category (Repository.task_not_found id) = ApplicationFailureCategory.task_not_found
repository_error_category (Repository.task_changed id) = ApplicationFailureCategory.task_changed
repository_error_category (Repository.worklog_not_found id) =
    ApplicationFailureCategory.worklog_not_found
repository_error_category (Repository.worklog_changed id) =
    ApplicationFailureCategory.worklog_changed
repository_error_category (Repository.worklog_is_active id) =
    ApplicationFailureCategory.active_worklog
repository_error_category (Repository.worklog_history_changed id) =
    ApplicationFailureCategory.worklog_history_changed
repository_error_category Repository.global_worklog_history_changed =
    ApplicationFailureCategory.worklog_history_changed
repository_error_category (Repository.same_task_worklog_overlap id) =
    ApplicationFailureCategory.worklog_overlap
repository_error_category (Repository.task_is_active id) = ApplicationFailureCategory.active_task
repository_error_category Repository.inactive_task_candidates_changed =
    ApplicationFailureCategory.inactive_task_candidates_changed
repository_error_category _ = general

unfoldable pub repository_error_message : RepositoryError → Text
repository_error_message (Repository.worklog_not_found id) = codes "Worklog not found"
repository_error_message (Repository.worklog_already_stopped id) =
    codes "Worklog is already stopped"
repository_error_message (Repository.worklog_changed id) = codes "Worklog changed in another client"
repository_error_message (Repository.worklog_is_active id) =
    codes "Running worklogs cannot be deleted"
repository_error_message (Repository.worklog_history_changed id) = codes "Worklog history changed"
repository_error_message Repository.global_worklog_history_changed = codes "Worklog history changed"
repository_error_message (Repository.same_task_worklog_overlap id) =
    codes "The worklog overlaps another worklog"
repository_error_message (Repository.worklog_already_exists id) = codes "Worklog already exists"
repository_error_message Repository.active_worklog_exists = codes "Another worklog is active"
repository_error_message (Repository.task_not_found id) = codes "Task not found"
repository_error_message (Repository.task_changed id) = codes "Task changed in another client"
repository_error_message (Repository.task_already_exists id) = codes "Task already exists"
repository_error_message (Repository.task_archived id) = codes "Task is archived"
repository_error_message (Repository.task_is_active id) = codes "Task has active work"
repository_error_message Repository.inactive_task_candidates_changed =
    codes "Inactive task list changed. Preview again"
repository_error_message (Repository.constraint message) = codes "Storage rejected the change"
repository_error_message (Repository.corrupt_data field) = codes "Stored data is invalid"
repository_error_message Repository.report_duration_overflow = codes "Report duration is too large"
repository_error_message (Repository.backend message) = codes "Storage error"

-- Backend failures and corrupt data come from the storage.
unfoldable pub repository_error_source : RepositoryError → ApplicationFailureSource
repository_error_source (Repository.backend message) = storage
repository_error_source (Repository.corrupt_data field) = storage
repository_error_source _ = operation

unfoldable pub repository_failure : RepositoryError → ApplicationFailure
unfolding repository_error_category repository_error_message repository_error_source
repository_failure error = record {
  category = repository_error_category error;
  message = repository_error_message error;
  source = repository_error_source error;
  recovery = none;
}

-- `if recovery.source != Operation { failure.source = recovery.source }`
unfoldable pub recovered_source :
    ApplicationFailureSource → ApplicationFailureSource → ApplicationFailureSource
recovered_source source operation = source
recovered_source source other = other

unfoldable pub attach_recovery : ApplicationFailure → ApplicationFailure → ApplicationFailure
unfolding recovered_source
attach_recovery failure recovery = record failure {
  source = recovered_source failure.source recovery.source;
  recovery = some recovery.message;
}

-- `format!("{operation} failed: {}. State recovery failed: {recovery_message}.", ..)`
abbrev pub named_failure : Text → ApplicationFailure → ApplicationFailure → ApplicationFailure
named_failure operation_name failure recovery = record failure {
  message =
      operation_name
      ++ codes " failed: "
      ++ failure.message
      ++ codes ". State recovery failed: "
      ++ recovery.message
      ++ codes ".";
}

unfoldable pub failure_with_recovery : Text → RepositoryError → RepositoryError → ApplicationFailure
unfolding repository_failure attach_recovery
failure_with_recovery operation_name primary recovery =
    let r = repository_failure recovery in
    attach_recovery (named_failure operation_name (repository_failure primary) r) r

-- A failure of the operation itself.
abbrev pub operation_failure : ApplicationFailureCategory → Text → ApplicationFailure
operation_failure category message = record {
  category = category;
  message = message;
  source = operation;
  recovery = none;
}

unfoldable pub tracking_category : TrackingError → ApplicationFailureCategory
tracking_category (TrackingError.task_is_active id) = ApplicationFailureCategory.active_task
tracking_category _ = general

-- A repository failure of the recovery: its message is the recovery's too.
abbrev pub recovery_only : ApplicationFailure → ApplicationFailure
recovery_only failure = record failure { recovery = some failure.message }

-- `format!("{}. State recovery failed: {}.", ..)`
abbrev pub joined_failure : ApplicationFailure → ApplicationFailure → ApplicationFailure
joined_failure primary recovery = record primary {
  message = primary.message ++ codes ". State recovery failed: " ++ recovery.message ++ codes ".";
}

module _ (display : Display) where
  unfoldable pub failure : ApplicationError → ApplicationFailure
  unfolding repository_failure attach_recovery failure_with_recovery tracking_category
  failure (Error.remote_unavailable text) = record {
    category = general;
    message = codes "Tracker server is unavailable";
    source = ApplicationFailureSource.remote_unavailable;
    recovery = none;
  }
  failure (Error.remote_protocol text) = record {
    category = general;
    message = codes "Tracker server returned invalid data";
    source = ApplicationFailureSource.remote_protocol;
    recovery = none;
  }
  failure (Error.recovery primary failed) =
      let p = failure primary in let r = failure failed in attach_recovery (joined_failure p r) r
  failure (Error.semantic category message) = operation_failure category message
  failure (Error.domain error) =
      operation_failure (tracking_category error) (display.tracking error)
  failure (Error.invalid_worklog_correction error) =
      operation_failure general (display.correction error)
  failure (Error.invalid_worklog_move error) = operation_failure general (display.movement error)
  failure Error.tracking_state_changed =
      operation_failure general (codes "Tracking state changed in another client. Refreshed state.")
  failure Error.invalid_report_range =
      operation_failure general (codes "Report end must be later than start")
  failure ApplicationError.report_duration_overflow =
      operation_failure general (codes "Report duration is too large")
  failure (Error.repository error) = repository_failure error
  failure (Error.tracking_write error) = repository_failure error
  failure (Error.tracking_recovery error) = recovery_only (repository_failure error)
  failure (Error.task_recovery error) = recovery_only (repository_failure error)
  failure (Error.worklog_correction_write write) = repository_failure write
  failure (Error.worklog_move_write write) = repository_failure write
  failure (Error.worklog_deletion_write write) = repository_failure write
  failure (Error.worklog_correction_recovery write failed) =
      failure_with_recovery (codes "Correction") write failed
  failure (Error.worklog_move_recovery write failed) =
      failure_with_recovery (codes "Move") write failed
  failure (Error.worklog_deletion_recovery write failed) =
      failure_with_recovery (codes "Deletion") write failed
