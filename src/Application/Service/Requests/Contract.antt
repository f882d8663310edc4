-- ===== src/Application/Service/Requests/Contract.antt =====
-- What the order of the cached task list needs of the repository: its operations keep some
-- invariant of its state, and what it lists has each task once.
use time_tracker.Prelude.{◌≡◌, Option, List, map, Result, ok}
use time_tracker.Prelude.Table.{Distinct}
use time_tracker.Domain.Values.{TaskId, WorklogId, Instant}
use time_tracker.Domain.TaskName.{TaskName}
use time_tracker.Domain.TaskName.Accepted.{IsName}
use time_tracker.Domain.Task
use time_tracker.Domain.Worklog.{Worklog, WorklogTimes}
use time_tracker.Domain.Inactivity.{InactivityPeriod}
use time_tracker.Application.Model.{TaskListItem, WorklogCursor, TaskListReportRead}
use time_tracker.Application.Repository.{RepositoryError, TrackerRepository}
use time_tracker.Application.Service.Catalog.Order.{item_key}

-- An operation keeps `Valid`.
abbrev pub Preserves : {S A : Type 0} → (S → Type 0) → (S → Result RepositoryError A × S) → Type 0
Preserves {S = S} Valid call = (s : S) → Valid s → Valid (call s).1

-- What an operation returns from a valid state satisfies `Q`.
abbrev pub Returns :
    {S A : Type 0} → (S → Type 0) → (A → Type 0) → (S → Result RepositoryError A × S) → Type 0
Returns {S = S} {A = A} Valid Q call = (s : S) → Valid s → (a : A) → (call s).0 ≡ ok a → Q a

abbrev pub Lists : List TaskListItem → Type 0
Lists items = Distinct (map item_key items)

pub record IsCatalogue {S : Type 0} (repo : TrackerRepository S) (Valid : S → Type 0) : Type 0 where
  pub load_task_item : (id : TaskId) → Preserves Valid (repo.load_task_item id)
  pub load_task_catalog : Preserves Valid repo.load_task_catalog
  pub create_task :
      (id : TaskId) (name : TaskName) (at : Instant)
      → IsName name
      → Preserves Valid (repo.create_task (Task.create id name at))
  pub load_task_tracking_resources : Preserves Valid repo.load_task_tracking_resources
  pub rename_task :
      (id : TaskId) (name : TaskName) (at : Instant)
      → IsName name
      → Preserves Valid (repo.rename_task id name at)
  pub archive_task : (id : TaskId) (at : Instant) → Preserves Valid (repo.archive_task id at)
  pub compare_and_rename_task :
      (id : TaskId) (expected name : TaskName) (at : Instant)
      → IsName name
      → Preserves Valid (repo.compare_and_rename_task id expected name at)
  pub compare_and_archive_task :
      (id : TaskId) (expected : TaskName) (at : Instant)
      → Preserves Valid (repo.compare_and_archive_task id expected at)
  pub unarchive_task : (id : TaskId) (at : Instant) → Preserves Valid (repo.unarchive_task id at)
  pub preview_inactive_tasks_with_period :
      (as_of : Instant) (period : InactivityPeriod)
      → Preserves Valid (repo.preview_inactive_tasks_with_period as_of period)
  pub archive_inactive_tasks_with_period :
      (ids : List TaskId) (as_of : Instant) (period : InactivityPeriod)
      → Preserves Valid (repo.archive_inactive_tasks_with_period ids as_of period)
  pub find_worklog : (id : WorklogId) → Preserves Valid (repo.find_worklog id)
  pub compare_and_move_worklog :
      (id : WorklogId) (source : TaskId) (expected : WorklogTimes) (destination : TaskId)
      → Preserves Valid (repo.compare_and_move_worklog id source expected destination)
  pub compare_and_set_worklog_times :
      (id : WorklogId) (expected replacement : WorklogTimes)
      → Preserves Valid (repo.compare_and_set_worklog_times id expected replacement)
  pub compare_and_delete_completed_worklog :
      (id : WorklogId) (task_id : TaskId) (expected : WorklogTimes)
      → Preserves Valid (repo.compare_and_delete_completed_worklog id task_id expected)
  pub worklog_page :
      (task_id : TaskId) (after : Option WorklogCursor)
      → Preserves Valid (repo.worklog_page task_id after)
  pub global_worklog_page :
      (after : Option WorklogCursor) → Preserves Valid (repo.global_worklog_page after)
  pub active_worklog : Preserves Valid repo.active_worklog
  pub insert_worklog : (worklog : Worklog) → Preserves Valid (repo.insert_worklog worklog)
  pub stop_worklog :
      (id : WorklogId) (expected_start end : Instant)
      → Preserves Valid (repo.stop_worklog id expected_start end)
  pub switch_worklog :
      (id : WorklogId) (expected_start at : Instant) (next : Worklog)
      → Preserves Valid (repo.switch_worklog id expected_start at next)
  pub task_list_report_read :
      (start end now : Instant) → Preserves Valid (repo.task_list_report_read start end now)
  pub report_read : (start end now : Instant) → Preserves Valid (repo.report_read start end now)
  pub catalog_lists : Returns Valid Lists repo.load_task_catalog
  pub resources_lists :
      Returns Valid
        (λ (r : List TaskListItem × Option Worklog). Lists r.0)
        repo.load_task_tracking_resources
  pub report_lists :
      (start end now : Instant)
      → Returns Valid
          (λ (r : TaskListReportRead). Lists r.items)
          (repo.task_list_report_read start end now)
