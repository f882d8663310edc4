-- ===== src/Storage/Tasks.antt =====
-- crates/tracker-storage/src/sqlite/tasks.rs: creating, renaming, archiving and restoring tasks,
-- and archiving the inactive ones together.
use time_tracker.Prelude.{
  ℕ, ◌-◌, ◌*◌, ◌^◌, Bool, true, false, not, ◌&&◌, Option, none, some, List, [], ◌∷◌, map, Result,
  ok, err, ◌>>=◌, ◌>>◌, map_err, reject, collect, ltb, ◌==◌, if◌then◌else◌, is_none_or, keep, any,
  ok_or, list_eq,
}
use time_tracker.Prelude.Sort.{sort}
use time_tracker.Prelude.Table.{find_row}
use time_tracker.Domain.Values.{TaskId, Instant}
use time_tracker.Domain.TaskName.{TaskName, name_eq}
use time_tracker.Domain.Task.{Task}
use time_tracker.Domain.Task
use time_tracker.Application.Timestamps.{timestamp_to_us, canonical_timestamp}
use time_tracker.Application.Model.{InactiveTaskArchive, InactiveTaskPreviewRead}
use time_tracker.Storage.Errors.{
  Sqlite, SqlError, StorageError, task_not_found, task_changed, inactive_task_candidates_changed,
  invalid_inactive_task_time, classify_write_error, create_task_error, archive_task_error,
}
use time_tracker.Storage.Schema.{TaskRow, WorklogRow, Database, task_key}
use time_tracker.Storage.Statements
use time_tracker.Storage.Mapping.{task_from_row, task_row}
use time_tracker.Storage.Reads.{transact, task_by_id_on, by_task_id, active_tracking_read_on}

-- The task that a write refers to.
unfoldable pub stored_task : Database → TaskId → Result StorageError Task
unfolding task_by_id_on
stored_task db id = do found ← task_by_id_on db id; ok_or found (task_not_found id)

-- `expected_name.is_some_and(|expected| task.name() != expected)`
abbrev pub name_changed : Task → Option TaskName → Bool
name_changed task none = false
name_changed task (some expected) = not (name_eq task.name expected)

abbrev pub day_us : ℕ
day_us = 24 * 60 * 60 * 1_000_000

-- The largest `i64`.
abbrev pub i64_max : ℕ
i64_max = 2 ^ 63 - 1

-- Both steps are checked `i64` arithmetic; a stored count is an `i64` with 2 ^ 63 added, so the
-- subtraction leaves the range exactly if the window is the larger number.
unfoldable pub inactive_task_cutoff : Instant → ℕ → Result StorageError ℕ
unfolding timestamp_to_us
inactive_task_cutoff as_of days =
    let window_us = days * day_us in
    if ltb i64_max window_us
    then err invalid_inactive_task_time
    else if ltb (timestamp_to_us as_of) window_us
    then err invalid_inactive_task_time
    else ok (timestamp_to_us as_of - window_us)

-- w.end_us IS NULL OR (w.end_us > ?1 AND w.end_us > w.start_us)
unfoldable pub works_after : ℕ → WorklogRow → Bool
works_after cutoff_us w = is_none_or w.end_us (λ end. ltb cutoff_us end && ltb w.start_us end)

unfoldable pub is_inactive : ℕ → List WorklogRow → TaskRow → Bool
unfolding works_after
is_inactive cutoff_us worklogs t =
    not t.archived
    && ltb t.created_at_us cutoff_us
    && ltb t.updated_at_us cutoff_us
    && not (any (λ w. (w.task_id == t.id) && works_after cutoff_us w) worklogs)

unfoldable pub inactive_tasks_on : Database → Instant → ℕ → Result StorageError (List Task)
unfolding inactive_task_cutoff is_inactive sort task_from_row
inactive_tasks_on db as_of days = do
  cutoff_us ← inactive_task_cutoff as_of days
  collect task_from_row (sort by_task_id (keep (is_inactive cutoff_us db.worklogs) db.tasks))

unfoldable pub preview_inactive_tasks_with_period :
    Database → Instant → ℕ → Result StorageError InactiveTaskPreviewRead
unfolding inactive_tasks_on active_tracking_read_on
preview_inactive_tasks_with_period db as_of days = do
  tasks ← inactive_tasks_on db as_of days
  tracking ← active_tracking_read_on db
  ok (record { tasks = tasks; tracking = tracking })

module _ ⦃sqlite : Sqlite⦄ where
  -- UPDATE tasks .. WHERE id = ?; no row is no error
  unfoldable pub write_task :
      Bool → TaskId → (TaskRow → TaskRow) → Database → Result SqlError Database
  unfolding Statements.update_task
  write_task sets_archived id set db = elim (find_row task_key id db.tasks) [
    | none ↦ ok db
    | some row ↦ Statements.update_task sets_archived (set row) db
  ]

  unfoldable pub create_task : Database → Task → Result StorageError (Unit {0}) × Database
  unfolding transact Statements.insert_task task_row create_task_error
  create_task db task = transact db do
    created ←
        map_err (λ error. create_task_error error task.id)
          (Statements.insert_task (task_row task) db)
    ok (tt, created)

  -- UPDATE tasks SET name = ?1, updated_at_us = ?2
  abbrev pub set_name : Task → TaskRow → TaskRow
  set_name task row = record row {
    name = task.name.text;
    updated_at_us = timestamp_to_us task.updated_at;
  }

  -- UPDATE tasks SET archived = ?, updated_at_us = ?1
  abbrev pub set_archived : Bool → Task → TaskRow → TaskRow
  set_archived archived task row = record row {
    archived = archived;
    updated_at_us = timestamp_to_us task.updated_at;
  }

  unfoldable pub rename_write : Database → Task × Bool → Result StorageError (Task × Database)
  unfolding write_task classify_write_error
  rename_write db (task, false) = ok (task, db)
  rename_write db (task, true) = do
    renamed ← map_err classify_write_error (write_task false task.id (set_name task) db)
    ok (task, renamed)

  unfoldable pub rename_task_guarded :
      Database → TaskId → Option TaskName → TaskName → Instant → Result StorageError Task × Database
  unfolding transact stored_task name_eq canonical_timestamp Task.rename rename_write
  rename_task_guarded db id expected_name name occurred_at = transact db do
    task ← stored_task db id
    reject (name_changed task expected_name) (task_changed id)
    rename_write db (Task.rename task name (canonical_timestamp occurred_at))

  unfoldable pub archive_write : Database → Task × Bool → Result StorageError (Task × Database)
  unfolding write_task archive_task_error
  archive_write db (task, false) = ok (task, db)
  archive_write db (task, true) = do
    archived ←
        map_err (λ error. archive_task_error error task.id)
          (write_task true task.id (set_archived true task) db)
    ok (task, archived)

  unfoldable pub archive_task_guarded :
      Database → TaskId → Option TaskName → Instant → Result StorageError Task × Database
  unfolding transact stored_task name_eq canonical_timestamp Task.archive archive_write
  archive_task_guarded db id expected_name occurred_at = transact db do
    task ← stored_task db id
    reject (name_changed task expected_name) (task_changed id)
    archive_write db (Task.archive task (canonical_timestamp occurred_at))

  unfoldable pub restore_write : Database → Task × Bool → Result StorageError (Task × Database)
  unfolding write_task classify_write_error
  restore_write db (task, false) = ok (task, db)
  restore_write db (task, true) = do
    restored ← map_err classify_write_error (write_task true task.id (set_archived false task) db)
    ok (task, restored)

  unfoldable pub unarchive_task : Database → TaskId → Instant → Result StorageError Task × Database
  unfolding transact stored_task canonical_timestamp Task.restore restore_write
  unarchive_task db id occurred_at = transact db do
    task ← stored_task db id
    restore_write db (Task.restore task (canonical_timestamp occurred_at))

  -- The loop over the candidates; each is archived and written whether or not that changed it.
  unfoldable pub archive_all :
      List Task → Instant → Database → Result StorageError (List Task × Database)
  unfolding Task.archive write_task archive_task_error
  archive_all [] as_of db = ok ([], db)
  archive_all (task ∷ tasks) as_of db =
      let archived = (Task.archive task as_of).0 in
      map_err (λ error. archive_task_error error task.id)
        (write_task true task.id (set_archived true archived) db)
      >>= λ db'. archive_all tasks as_of db' >>= λ (rest, db''). ok (archived ∷ rest, db'')

  unfoldable pub archive_inactive_tasks_with_period :
      Database → List TaskId → Instant → ℕ → Result StorageError InactiveTaskArchive × Database
  unfolding transact inactive_tasks_on list_eq archive_all canonical_timestamp
      active_tracking_read_on
  archive_inactive_tasks_with_period db expected_ids as_of days = transact db do
    tasks ← inactive_tasks_on db as_of days
    reject (not (list_eq (map (λ (t : Task). t.id) tasks) expected_ids))
        inactive_task_candidates_changed
    (archived, db') ← archive_all tasks (canonical_timestamp as_of) db
    tracking ← active_tracking_read_on db'
    ok (record { tasks = archived; tracking = tracking }, db')
