-- ===== src/Storage/Repository.antt =====
-- `SqliteRepository` as the repository of the application service (crates/tracker-storage/src/
-- sqlite/mod.rs), with the conversion of its errors (crates/tracker-storage/src/error.rs). The
-- texts that thiserror derives, and the names of corrupt fields, are parameters.
pub mod Laws
pub mod Catalogue
use time_tracker.Prelude.{ℕ, List, Option, none, some, Result, map_err}
use time_tracker.Application.Repository.{RepositoryError, TrackerRepository}
use time_tracker.Application.Repository
use time_tracker.Storage.Errors.{Sqlite, StorageError, Field}
use time_tracker.Storage.Errors
use time_tracker.Storage.Schema.{Database}
use time_tracker.Storage.Tracking
use time_tracker.Storage.Reads
use time_tracker.Storage.Tasks
use time_tracker.Storage.Worklogs
use time_tracker.Storage.History
use time_tracker.Storage.GlobalHistory
use time_tracker.Storage.Reports

module _ (describe : StorageError → List ℕ) (field_text : Field → List ℕ) where
  unfoldable pub task_or_backend_error : StorageError → RepositoryError
  task_or_backend_error (Errors.task_not_found id) = Repository.task_not_found id
  task_or_backend_error (Errors.task_changed id) = Repository.task_changed id
  task_or_backend_error (Errors.task_already_exists id) = Repository.task_already_exists id
  task_or_backend_error (Errors.task_archived id) = Repository.task_archived id
  task_or_backend_error (StorageError.task_is_active id) = Repository.task_is_active id
  task_or_backend_error Errors.inactive_task_candidates_changed =
      Repository.inactive_task_candidates_changed
  task_or_backend_error Errors.invalid_inactive_task_time =
      Repository.constraint (describe Errors.invalid_inactive_task_time)
  task_or_backend_error (Errors.constraint error) =
      Repository.constraint (describe (Errors.constraint error))
  task_or_backend_error (Errors.corrupt_data field) = Repository.corrupt_data (field_text field)
  task_or_backend_error Errors.report_duration_overflow = Repository.report_duration_overflow
  task_or_backend_error other = Repository.backend (describe other)

  unfoldable pub repository_error : StorageError → RepositoryError
  unfolding task_or_backend_error
  repository_error (Errors.worklog_not_found id) = Repository.worklog_not_found id
  repository_error (Errors.worklog_already_stopped id) = Repository.worklog_already_stopped id
  repository_error (Errors.worklog_changed id) = Repository.worklog_changed id
  repository_error (Errors.worklog_is_active id) = Repository.worklog_is_active id
  repository_error (Errors.worklog_history_changed id) = Repository.worklog_history_changed id
  repository_error Errors.global_worklog_history_changed = Repository.global_worklog_history_changed
  repository_error (StorageError.same_task_worklog_overlap id) =
      Repository.same_task_worklog_overlap id
  repository_error (Errors.worklog_already_exists id) = Repository.worklog_already_exists id
  repository_error Errors.active_worklog_exists = Repository.active_worklog_exists
  repository_error other = task_or_backend_error other

  -- `.map_err(RepositoryError::from)` on the result, with the database behind it.
  abbrev pub converted :
      {A : Type 0} → Result StorageError A × Database → Result RepositoryError A × Database
  converted (r, db) = (map_err repository_error r, db)

  -- A read leaves the database as it is.
  abbrev pub read :
      {A : Type 0}
      → (Database → Result StorageError A)
      → Database
      → Result RepositoryError A × Database
  read query db = converted (query db, db)

  unfoldable pub sqlite_repository : ⦃sqlite : Sqlite⦄ → TrackerRepository Database
  unfolding repository_error Tracking.load_task_tracking_resources Tracking.insert_worklog
      Tracking.stop_worklog Tracking.switch_worklog Reads.task_item_by_id_on
      Reads.list_task_items_on Reads.worklog_by_id_on Reads.active_worklog_on Tasks.create_task
      Tasks.rename_task_guarded Tasks.archive_task_guarded Tasks.unarchive_task
      Tasks.preview_inactive_tasks_with_period Tasks.archive_inactive_tasks_with_period
      Worklogs.compare_and_move_worklog Worklogs.compare_and_set_worklog_times
      Worklogs.compare_and_delete_completed_worklog History.worklog_page
      GlobalHistory.global_worklog_page Reports.report_read Reports.task_list_report_read
  sqlite_repository = record {
    load_task_item = λ id. read (λ db. Reads.task_item_by_id_on db id);
    load_task_catalog = read Reads.list_task_items_on;
    create_task = λ task db. converted (Tasks.create_task db task);
    load_task_tracking_resources = read Tracking.load_task_tracking_resources;
    rename_task = λ id name at db. converted (Tasks.rename_task_guarded db id none name at);
    archive_task = λ id at db. converted (Tasks.archive_task_guarded db id none at);
    compare_and_rename_task = λ id expected name at db.
        converted (Tasks.rename_task_guarded db id (some expected) name at);
    compare_and_archive_task =
        λ id expected at db. converted (Tasks.archive_task_guarded db id (some expected) at);
    unarchive_task = λ id at db. converted (Tasks.unarchive_task db id at);
    preview_inactive_tasks_with_period =
        λ as_of period. read (λ db. Tasks.preview_inactive_tasks_with_period db as_of period.days);
    archive_inactive_tasks_with_period = λ ids as_of period db.
        converted (Tasks.archive_inactive_tasks_with_period db ids as_of period.days);
    find_worklog = λ id. read (λ db. Reads.worklog_by_id_on db id);
    compare_and_move_worklog = λ id source expected destination db.
        converted (Worklogs.compare_and_move_worklog db id source expected destination);
    compare_and_set_worklog_times = λ id expected replacement db.
        converted (Worklogs.compare_and_set_worklog_times db id expected replacement);
    compare_and_delete_completed_worklog = λ id task_id expected db.
        converted (Worklogs.compare_and_delete_completed_worklog db id task_id expected);
    worklog_page = λ task_id after. read (λ db. History.worklog_page db task_id after);
    global_worklog_page = λ after. read (λ db. GlobalHistory.global_worklog_page db after);
    active_worklog = read Reads.active_worklog_on;
    insert_worklog = λ worklog db. converted (Tracking.insert_worklog db worklog);
    stop_worklog =
        λ id expected_start end db. converted (Tracking.stop_worklog db id expected_start end);
    switch_worklog = λ id expected_start at next db.
        converted (Tracking.switch_worklog db id expected_start at next);
    task_list_report_read =
        λ start end now. read (λ db. Reports.task_list_report_read db start end now);
    report_read = λ start end now. read (λ db. Reports.report_read db start end now);
  }
