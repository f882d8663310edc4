-- ===== src/Application/Service/Tasks.antt =====
-- crates/tracker-application/src/service/tasks.rs and the reads of service/mod.rs: the queries and
-- commands on tasks.
use time_tracker.Prelude.{Option, none, some, List, Result, ok, err}
use time_tracker.Prelude.Sort.{sort}
use time_tracker.Domain.Values.{TaskId, Instant}
use time_tracker.Domain.TrackingError
use time_tracker.Domain.TaskName.{TaskName}
use time_tracker.Domain.Task.{Task}
use time_tracker.Domain.Task
use time_tracker.Domain.Tracking.{ensure_archivable}
use time_tracker.Domain.Inactivity.{InactivityPeriod}
use time_tracker.Application.Timestamps.{canonical_timestamp}
use time_tracker.Application.Model.{TaskListItem}
use time_tracker.Application.Ordering.{TaskOrdering, sort_items}
use time_tracker.Application.Error.{ApplicationError, domain, repository}
use time_tracker.Application.Repository.{RepositoryError, TrackerRepository}
use time_tracker.Application.Repository
use time_tracker.Application.Service.{
  TrackerApplication, by_item_id, tracker_from_active_worklog, refresh_task_list,
}
use time_tracker.Application.Service.Command.{Command, pure, ◌>>=◌, ◌>>◌, from_result, query}
use time_tracker.Application.Service.Catalog.{
  replace_task, replace_tasks, adopt_task_item, without_task, update_tasks, set_tracker,
  adopt_tracking_read, refresh_after_task_operation, task_failure_with_recovery,
}

unfoldable pub tasks : {S : Type 0} → TrackerApplication S → TaskOrdering → List TaskListItem
unfolding sort_items
tasks self ordering = sort_items ordering self.tasks

-- An active task is a violation of a tracking rule.
unfoldable pub archive_error : RepositoryError → ApplicationError
archive_error (Repository.task_is_active id) = domain (TrackingError.task_is_active id)
archive_error error = repository error

module _ {S : Type 0} (repo : TrackerRepository S) where
  unfoldable pub read_task_item : TaskId → Command S (Option TaskListItem)
  unfolding adopt_task_item without_task
  read_task_item id = do
    found ← query (repo.load_task_item id)
    item ← from_result repository found
    update_tasks
        (λ items. elim item [ some one ↦ adopt_task_item one items | none ↦ without_task id items ])
    pure item

  unfoldable pub refresh_task_catalog : Command S (Unit {0})
  unfolding sort
  refresh_task_catalog = do
    loaded ← query repo.load_task_catalog
    items ← from_result repository loaded
    update_tasks (λ _. sort by_item_id items)

  unfoldable pub refresh_tracking_resource : Command S (Unit {0})
  unfolding tracker_from_active_worklog
  refresh_tracking_resource = do
    read ← query repo.active_worklog
    active_worklog ← from_result repository read
    tracker ← from_result domain (tracker_from_active_worklog active_worklog)
    set_tracker tracker

  unfoldable pub create_task_with_id : TaskId → TaskName → Instant → Command S Task
  unfolding canonical_timestamp Task.create replace_task
  create_task_with_id id name occurred_at =
      let task = Task.create id name (canonical_timestamp occurred_at) in
      do
        created ← query (repo.create_task task)
        from_result repository created
        update_tasks (replace_task task)
        pure task

  unfoldable pub rename_task : TaskId → TaskName → Instant → Command S Task
  unfolding canonical_timestamp replace_task
  rename_task id name occurred_at = do
    renamed ← query (repo.rename_task id name (canonical_timestamp occurred_at))
    task ← from_result repository renamed
    update_tasks (replace_task task)
    pure task

  -- `Ok` adopts the stored task and reloads; a failure is reported with what the reload says.
  unfoldable pub finish_archive :
      (RepositoryError → ApplicationError) → Result RepositoryError Task → Command S Task
  unfolding replace_task refresh_after_task_operation task_failure_with_recovery
  finish_archive convert (ok task) = do
    update_tasks (replace_task task)
    refresh_after_task_operation repo
    pure task
  finish_archive convert (err error) = task_failure_with_recovery repo (convert error)

  unfoldable pub archive_task : TaskId → Instant → Command S Task
  unfolding canonical_timestamp refresh_task_list ensure_archivable archive_error finish_archive
  archive_task id occurred_at = do
    refresh_task_list repo
    (λ self. from_result domain (ensure_archivable self.tracker id) self)
    archived ← query (repo.archive_task id (canonical_timestamp occurred_at))
    finish_archive archive_error archived

  unfoldable pub rename_task_with_expected_name :
      TaskId → TaskName → TaskName → Instant → Command S Task
  unfolding canonical_timestamp replace_task task_failure_with_recovery
  rename_task_with_expected_name id expected_name name occurred_at = do
    renamed ←
        query (repo.compare_and_rename_task id expected_name name (canonical_timestamp occurred_at))
    elim renamed [
      | ok task ↦ update_tasks (replace_task task) >> pure task
      | err error ↦ task_failure_with_recovery repo (repository error)
    ]

  unfoldable pub archive_task_with_expected_name : TaskId → TaskName → Instant → Command S Task
  unfolding canonical_timestamp refresh_task_list archive_error finish_archive
  archive_task_with_expected_name id expected_name occurred_at = do
    refresh_task_list repo
    archived ←
        query (repo.compare_and_archive_task id expected_name (canonical_timestamp occurred_at))
    finish_archive archive_error archived

  unfoldable pub unarchive_task : TaskId → Instant → Command S Task
  unfolding canonical_timestamp refresh_task_list finish_archive
  unarchive_task id occurred_at = do
    refresh_task_list repo
    restored ← query (repo.unarchive_task id (canonical_timestamp occurred_at))
    finish_archive repository restored

  unfoldable pub preview_inactive_tasks_with_period :
      Instant → InactivityPeriod → Command S (List Task)
  unfolding canonical_timestamp adopt_tracking_read replace_tasks
  preview_inactive_tasks_with_period as_of period = do
    read ← query (repo.preview_inactive_tasks_with_period (canonical_timestamp as_of) period)
    preview ← from_result repository read
    adopt_tracking_read preview.tracking
    update_tasks (replace_tasks preview.tasks)
    pure preview.tasks

  unfoldable pub archive_inactive_tasks_with_period :
      List TaskId → Instant → InactivityPeriod → Command S (List Task)
  unfolding canonical_timestamp adopt_tracking_read replace_tasks task_failure_with_recovery
  archive_inactive_tasks_with_period expected_ids as_of period = do
    written ←
        query
          (repo.archive_inactive_tasks_with_period expected_ids (canonical_timestamp as_of) period)
    elim written [
      | ok archive ↦ do
        adopt_tracking_read archive.tracking
        update_tasks (replace_tasks archive.tasks)
        pure archive.tasks
      | err error ↦ task_failure_with_recovery repo (repository error)
    ]
