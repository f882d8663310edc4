-- ===== src/Application/Error/Failure/Redaction.antt =====
-- What a failure discloses of an error.
use time_tracker.Prelude.{◌≡◌, refl, sym, ap, ap₂, ◌∙◌, []}
use time_tracker.Prelude.Text.{Text, codes}
use time_tracker.Application.Repository.{RepositoryError}
use time_tracker.Application.Repository
use time_tracker.Application.Error.{
  ApplicationError, ApplicationFailureSource, with_recovery_failure, operation, storage,
  remote_unavailable, remote_protocol,
}
use time_tracker.Application.Error
use time_tracker.Application.Error.Failure.{
  Display, repository_error_category, repository_error_message, repository_error_source,
  repository_failure, failure, attach_recovery, failure_with_recovery, named_failure,
  joined_failure, recovery_only,
}

-- A repository error without its identifiers, messages and field names.
abbrev pub redacted_repository : RepositoryError → RepositoryError
redacted_repository (Repository.task_not_found id) = Repository.task_not_found 0
redacted_repository (Repository.task_changed id) = Repository.task_changed 0
redacted_repository (Repository.task_already_exists id) = Repository.task_already_exists 0
redacted_repository (Repository.task_archived id) = Repository.task_archived 0
redacted_repository (Repository.task_is_active id) = Repository.task_is_active 0
redacted_repository (Repository.worklog_history_changed id) = Repository.worklog_history_changed 0
redacted_repository (Repository.worklog_not_found id) = Repository.worklog_not_found 0
redacted_repository (Repository.worklog_already_stopped id) = Repository.worklog_already_stopped 0
redacted_repository (Repository.worklog_changed id) = Repository.worklog_changed 0
redacted_repository (Repository.worklog_is_active id) = Repository.worklog_is_active 0
redacted_repository (Repository.same_task_worklog_overlap id) =
    Repository.same_task_worklog_overlap 0
redacted_repository (Repository.worklog_already_exists id) = Repository.worklog_already_exists 0
redacted_repository Repository.global_worklog_history_changed =
    Repository.global_worklog_history_changed
redacted_repository Repository.active_worklog_exists = Repository.active_worklog_exists
redacted_repository Repository.inactive_task_candidates_changed =
    Repository.inactive_task_candidates_changed
redacted_repository Repository.report_duration_overflow = Repository.report_duration_overflow
redacted_repository (Repository.constraint message) = Repository.constraint []
redacted_repository (Repository.corrupt_data field) = Repository.corrupt_data []
redacted_repository (Repository.backend message) = Repository.backend []

-- An error without the diagnostics of the backends and of the connection.
abbrev pub redacted : ApplicationError → ApplicationError
redacted (Error.remote_unavailable text) = Error.remote_unavailable []
redacted (Error.remote_protocol text) = Error.remote_protocol []
redacted (Error.recovery primary failed) = Error.recovery (redacted primary) (redacted failed)
redacted (Error.semantic category message) = Error.semantic category message
redacted (Error.domain error) = Error.domain error
redacted (Error.invalid_worklog_correction error) = Error.invalid_worklog_correction error
redacted (Error.invalid_worklog_move error) = Error.invalid_worklog_move error
redacted (Error.repository error) = Error.repository (redacted_repository error)
redacted (Error.tracking_write error) = Error.tracking_write (redacted_repository error)
redacted (Error.tracking_recovery error) = Error.tracking_recovery (redacted_repository error)
redacted (Error.task_recovery error) = Error.task_recovery (redacted_repository error)
redacted (Error.worklog_correction_write write) =
    Error.worklog_correction_write (redacted_repository write)
redacted (Error.worklog_move_write write) = Error.worklog_move_write (redacted_repository write)
redacted (Error.worklog_deletion_write write) =
    Error.worklog_deletion_write (redacted_repository write)
redacted (Error.worklog_correction_recovery write failed) =
    Error.worklog_correction_recovery (redacted_repository write) (redacted_repository failed)
redacted (Error.worklog_move_recovery write failed) =
    Error.worklog_move_recovery (redacted_repository write) (redacted_repository failed)
redacted (Error.worklog_deletion_recovery write failed) =
    Error.worklog_deletion_recovery (redacted_repository write) (redacted_repository failed)
redacted Error.tracking_state_changed = Error.tracking_state_changed
redacted Error.invalid_report_range = Error.invalid_report_range
redacted ApplicationError.report_duration_overflow = ApplicationError.report_duration_overflow

repository_failure-redacted :
    (error : RepositoryError)
    → repository_failure (redacted_repository error) ≡ repository_failure error
unfolding repository_failure repository_error_category repository_error_message
    repository_error_source
repository_failure-redacted (Repository.task_not_found id) = refl
repository_failure-redacted _ = refl

with_recovery-redacted :
    (name : Text) (write failed : RepositoryError)
    → failure_with_recovery name (redacted_repository write) (redacted_repository failed)
      ≡ failure_with_recovery name write failed
unfolding failure_with_recovery
with_recovery-redacted name write failed =
    ap₂ (λ p r. attach_recovery (named_failure name p r) r) (repository_failure-redacted write)
      (repository_failure-redacted failed)

module _ (display : Display) where
  redacted_lem :
      (error : ApplicationError) → failure display (redacted error) ≡ failure display error
  unfolding failure
  redacted_lem (Error.remote_unavailable text) = refl
  redacted_lem (Error.recovery primary failed) =
      ap₂ (λ p r. attach_recovery (joined_failure p r) r) (redacted_lem primary)
        (redacted_lem failed)
  redacted_lem (Error.repository error) = repository_failure-redacted error
  redacted_lem (Error.tracking_write error) = repository_failure-redacted error
  redacted_lem (Error.tracking_recovery error) =
      ap recovery_only (repository_failure-redacted error)
  redacted_lem (Error.task_recovery error) = ap recovery_only (repository_failure-redacted error)
  redacted_lem (Error.worklog_correction_write write) = repository_failure-redacted write
  redacted_lem (Error.worklog_move_write write) = repository_failure-redacted write
  redacted_lem (Error.worklog_deletion_write write) = repository_failure-redacted write
  redacted_lem (Error.worklog_correction_recovery write failed) =
      with_recovery-redacted (codes "Correction") write failed
  redacted_lem (Error.worklog_move_recovery write failed) =
      with_recovery-redacted (codes "Move") write failed
  redacted_lem (Error.worklog_deletion_recovery write failed) =
      with_recovery-redacted (codes "Deletion") write failed
  redacted_lem _ = refl

  -- Two errors that differ only in the identifiers of their repository errors and in the
  -- diagnostics of backends and of the connection have the same failure: nothing of these reaches a
  -- client.
  pub failure-eq_of_redacted :
      (a b : ApplicationError) → redacted a ≡ redacted b → failure display a ≡ failure display b
  failure-eq_of_redacted a b h = sym (redacted_lem a) ∙ ap (failure display) h ∙ redacted_lem b
