-- ===== src/Application/Repository.antt =====
-- `TrackerRepository` of crates/tracker-application/src/repository.rs: the port of the
-- service. Other processes may write between two calls, so a read returns
-- a new state too.
use time_tracker.Prelude.{ℕ, Option, List, Result}
use time_tracker.Domain.Values.{TaskId, WorklogId, Instant}
use time_tracker.Domain.TaskName.{TaskName}
use time_tracker.Domain.Task.{Task}
use time_tracker.Domain.Worklog.{Worklog, WorklogTimes}
use time_tracker.Domain.Inactivity.{InactivityPeriod}
use time_tracker.Application.Model.{
  TaskListItem, ReportRead, TaskListReportRead, InactiveTaskPreviewRead, InactiveTaskArchive,
  WorklogMove, WorklogCorrection, WorklogDeletion, WorklogCursor, WorklogPage, GlobalWorklogPage,
}

-- A field or message is its text.
pub data RepositoryError : Type 0 where
  task_not_found task_changed task_already_exists task_archived : TaskId → RepositoryError
  task_is_active worklog_history_changed : TaskId → RepositoryError
  worklog_not_found worklog_already_stopped worklog_changed : WorklogId → RepositoryError
  worklog_is_active same_task_worklog_overlap worklog_already_exists : WorklogId → RepositoryError
  global_worklog_history_changed active_worklog_exists : RepositoryError
  inactive_task_candidates_changed report_duration_overflow : RepositoryError
  constraint corrupt_data backend : List ℕ → RepositoryError

pub record TrackerRepository (S : Type 0) : Type 0 where
  pub load_task_item : TaskId → S → Result RepositoryError (Option TaskListItem) × S
  pub load_task_catalog : S → Result RepositoryError (List TaskListItem) × S
  pub create_task : Task → S → Result RepositoryError (Unit {0}) × S
  pub load_task_tracking_resources :
      S → Result RepositoryError (List TaskListItem × Option Worklog) × S
  pub rename_task : TaskId → TaskName → Instant → S → Result RepositoryError Task × S
  pub archive_task : TaskId → Instant → S → Result RepositoryError Task × S
  pub compare_and_rename_task :
      TaskId → TaskName → TaskName → Instant → S → Result RepositoryError Task × S
  pub compare_and_archive_task : TaskId → TaskName → Instant → S → Result RepositoryError Task × S
  pub unarchive_task : TaskId → Instant → S → Result RepositoryError Task × S
  pub preview_inactive_tasks_with_period :
      Instant → InactivityPeriod → S → Result RepositoryError InactiveTaskPreviewRead × S
  pub archive_inactive_tasks_with_period :
      List TaskId → Instant → InactivityPeriod → S → Result RepositoryError InactiveTaskArchive × S
  pub find_worklog : WorklogId → S → Result RepositoryError (Option Worklog) × S
  pub compare_and_move_worklog :
      WorklogId → TaskId → WorklogTimes → TaskId → S → Result RepositoryError WorklogMove × S
  pub compare_and_set_worklog_times :
      WorklogId → WorklogTimes → WorklogTimes → S → Result RepositoryError WorklogCorrection × S
  pub compare_and_delete_completed_worklog :
      WorklogId → TaskId → WorklogTimes → S → Result RepositoryError WorklogDeletion × S
  pub worklog_page : TaskId → Option WorklogCursor → S → Result RepositoryError WorklogPage × S
  pub global_worklog_page : Option WorklogCursor → S → Result RepositoryError GlobalWorklogPage × S
  pub active_worklog : S → Result RepositoryError (Option Worklog) × S
  pub insert_worklog : Worklog → S → Result RepositoryError (Unit {0}) × S
  pub stop_worklog : WorklogId → Instant → Instant → S → Result RepositoryError Worklog × S
  pub switch_worklog :
      WorklogId → Instant → Instant → Worklog → S → Result RepositoryError (Unit {0}) × S
  pub task_list_report_read :
      Instant → Instant → Instant → S → Result RepositoryError TaskListReportRead × S
  pub report_read : Instant → Instant → Instant → S → Result RepositoryError ReportRead × S
