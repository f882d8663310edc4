-- ===== src/Application/Service/Catalog.antt =====
-- The cached task list and tracker of `TrackerApplication` (crates/tracker-application/src/service/
-- mod.rs): adopting what a repository returned, and reloading after a failure.
pub mod Order
use time_tracker.Prelude.{
  Option, none, some, List, [], ◌∷◌, ◌++◌, Result, ok, err, ◌==◌, if◌then◌else◌, not, keep,
}
use time_tracker.Prelude.Sort.{sort}
use time_tracker.Domain.Values.{TaskId, Instant}
use time_tracker.Domain.Task.{Task}
use time_tracker.Domain.Worklog.{Worklog}
use time_tracker.Domain.Tracking.{Tracker, active}
use time_tracker.Application.Model.{
  TaskListItem, WorklogPageAdoption, ActiveTrackingRead, WorklogCorrection, WorklogDeletion,
  WorklogMove,
}
use time_tracker.Application.Error.{
  ApplicationError, domain, repository, task_recovery, worklog_correction_write,
  worklog_correction_recovery, worklog_move_write, worklog_move_recovery, worklog_deletion_write,
  worklog_deletion_recovery, with_recovery_failure,
}
use time_tracker.Application.Repository.{RepositoryError, TrackerRepository}
use time_tracker.Application.Service.{
  TrackerApplication, by_item_id, tracker_from_active_worklog, refresh_task_list, reload_error,
}
use time_tracker.Application.Service.Command.{
  Command, pure, fail, modify, ◌>>=◌, ◌>>◌, from_result, query, attempt,
}

-- The first item with the identifier gets this latest work start.
unfoldable pub set_latest : TaskId → Option Instant → List TaskListItem → List TaskListItem
set_latest id latest [] = []
set_latest id latest (item ∷ items) =
    let rest = set_latest id latest items in
    if item.task.id == id then record item { latest_work_start = latest } ∷ items else item ∷ rest

-- The first item with the task's identifier gets this task, if there is one.
unfoldable pub replaced : Task → List TaskListItem → Option (List TaskListItem)
replaced changed [] = none
replaced changed (item ∷ items) =
    let rest = replaced changed items in
    if item.task.id == changed.id
    then some (record item { task = changed } ∷ items)
    else elim rest [ none ↦ none | some items' ↦ some (item ∷ items') ]

unfoldable pub replace_task : Task → List TaskListItem → List TaskListItem
unfolding replaced sort
replace_task changed items = elim (replaced changed items) [
  | some items' ↦ items'
  | none ↦ sort by_item_id (items ++ record { task = changed; latest_work_start = none } ∷ [])
]

-- `replace_task` for each of the tasks.
unfoldable pub replace_tasks : List Task → List TaskListItem → List TaskListItem
unfolding replace_task
replace_tasks [] items = items
replace_tasks (task ∷ tasks) items = replace_tasks tasks (replace_task task items)

unfoldable pub adopt_task_item : TaskListItem → List TaskListItem → List TaskListItem
unfolding set_latest replace_task
adopt_task_item item items =
    set_latest item.task.id item.latest_work_start (replace_task item.task items)

-- `adopt_task_item` for each of the items.
unfoldable pub adopt_task_items : List TaskListItem → List TaskListItem → List TaskListItem
unfolding adopt_task_item
adopt_task_items [] items = items
adopt_task_items (item ∷ more) items = adopt_task_items more (adopt_task_item item items)

-- `tasks.retain(|item| item.task.id() != id)`
unfoldable pub without_task : TaskId → List TaskListItem → List TaskListItem
without_task id items = keep (λ item. not (item.task.id == id)) items

module _ {S : Type 0} where
  abbrev pub update_tasks : (List TaskListItem → List TaskListItem) → Command S (Unit {0})
  update_tasks f = modify (λ self. record self { tasks = f self.tasks })

  abbrev pub set_tracker : Tracker → Command S (Unit {0})
  set_tracker tracker = modify (λ self. record self { tracker = tracker })

  unfoldable pub adopt_active_worklog : Option Worklog → Option Instant → Command S (Unit {0})
  unfolding tracker_from_active_worklog set_latest active
  adopt_active_worklog active_worklog latest = do
    tracker ← from_result domain (tracker_from_active_worklog active_worklog)
    set_tracker tracker
    update_tasks (λ items. elim (active tracker) [
      | none ↦ items
      | some worklog ↦ set_latest worklog.task_id latest items
    ])

  unfoldable pub adopt_worklog_page : TaskId → WorklogPageAdoption → Command S (Unit {0})
  unfolding set_latest adopt_active_worklog
  adopt_worklog_page task_id adoption = do
    update_tasks (set_latest task_id adoption.requested_task_latest_work_start)
    adopt_active_worklog adoption.active_worklog adoption.active_task_latest_work_start

  unfoldable pub adopt_tracking_read : ActiveTrackingRead → Command S (Unit {0})
  unfolding tracker_from_active_worklog adopt_task_item
  adopt_tracking_read read = do
    tracker ← from_result domain (tracker_from_active_worklog read.active_worklog)
    update_tasks (λ items. elim read.active_task_item [
      | none ↦ items
      | some item ↦ adopt_task_item item items
    ])
    set_tracker tracker

  unfoldable pub adopt_worklog_correction : WorklogCorrection → Command S Worklog
  unfolding set_latest adopt_active_worklog
  adopt_worklog_correction correction = do
    update_tasks (set_latest correction.worklog.task_id correction.task_latest_work_start)
    adopt_active_worklog correction.active_worklog correction.active_task_latest_work_start
    pure correction.worklog

  unfoldable pub adopt_worklog_move : TaskId → WorklogMove → Command S Worklog
  unfolding set_latest adopt_active_worklog
  adopt_worklog_move source_task_id movement = do
    update_tasks (set_latest source_task_id movement.source_task_latest_work_start)
    update_tasks (set_latest movement.worklog.task_id movement.destination_task_latest_work_start)
    adopt_active_worklog movement.active_worklog movement.active_task_latest_work_start
    pure movement.worklog

  unfoldable pub adopt_worklog_deletion : WorklogDeletion → Command S Worklog
  unfolding set_latest
  adopt_worklog_deletion deletion = do
    update_tasks (set_latest deletion.worklog.task_id deletion.task_latest_work_start)
    pure deletion.worklog

-- A repository error of the reload after a write is a failed recovery.
unfoldable pub refresh_failure : ApplicationError → ApplicationError
refresh_failure (repository error) = task_recovery error
refresh_failure error = error

module _ {S : Type 0} (repo : TrackerRepository S) where
  -- Reloading after a failed write: the error of the write, or of both.
  unfoldable pub recover_after_write :
      {A : Type 0}
      → (RepositoryError → ApplicationError)
      → (RepositoryError → RepositoryError → ApplicationError)
      → RepositoryError
      → Command S A
  unfolding refresh_task_list reload_error
  recover_after_write write_failed recovery_failed write = do
    reloaded ← attempt (refresh_task_list repo)
    elim reloaded [
      | ok _ ↦ fail (write_failed write)
      | err error ↦ fail (recovery_failed write (reload_error error))
    ]

  abbrev pub recover_after_worklog_correction : {A : Type 0} → RepositoryError → Command S A
  recover_after_worklog_correction =
      recover_after_write worklog_correction_write worklog_correction_recovery

  abbrev pub recover_after_worklog_move : {A : Type 0} → RepositoryError → Command S A
  recover_after_worklog_move = recover_after_write worklog_move_write worklog_move_recovery

  abbrev pub recover_after_worklog_deletion : {A : Type 0} → RepositoryError → Command S A
  recover_after_worklog_deletion =
      recover_after_write worklog_deletion_write worklog_deletion_recovery

  unfoldable pub refresh_after_task_operation : Command S (Unit {0})
  unfolding refresh_task_list refresh_failure
  refresh_after_task_operation = do
    refreshed ← attempt (refresh_task_list repo)
    from_result refresh_failure refreshed

  unfoldable pub task_failure_with_recovery : {A : Type 0} → ApplicationError → Command S A
  unfolding refresh_after_task_operation
  task_failure_with_recovery primary = do
    refreshed ← attempt refresh_after_task_operation
    elim refreshed [
      | ok _ ↦ fail primary
      | err failed ↦ fail (with_recovery_failure primary failed)
    ]
