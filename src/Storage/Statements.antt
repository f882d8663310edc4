-- ===== src/Storage/Statements.antt =====
-- The statements that write the tables of crates/tracker-storage/src/migrate.rs, with the constraints
-- and triggers that guard them. A statement that violates something changes nothing.
pub mod Enforce
use time_tracker.Prelude.{
  ℕ, ◌+◌, ◌≤◌, ◌<◌, ◌≡◌, Bool, true, false, not, ◌&&◌, ◌||◌, Option, none, some, List, [], ◌∷◌, map,
  Result, ok, err, ◌>>=◌, ◌>>◌, ltb, leb, ◌==◌, if◌then◌else◌, is_none_or, is_some_and, is_none,
  keep, any,
}
use time_tracker.Prelude.Table.{find_row, set_row, remove_row}
use time_tracker.Domain.Values.{TaskId, WorklogId}
use time_tracker.Storage.Errors.{
  Sqlite, SqlError, Message, check, primary_key, unique, foreign_key, trigger, task_is_archived,
  task_is_active, worklog_overlap, active_worklog_delete, worklog_duration, worklogs_id_unique,
  tasks_id_unique, single_active_unique,
}
use time_tracker.Storage.Schema.{
  TaskRow, WorklogRow, Database, task_key, worklog_key, Check, raises, is_archived_task, is_nonzero,
  is_candidate, latest, ends_after_start, overlaps_predecessor, overlaps_scan, is_nonpositive,
  ends_before_start, is_second_active, Columns, sets_task_id, sets_any_time, sets_start,
  bump_history, bump_order_revision,
}

module _ ⦃sqlite : Sqlite⦄ where
  abbrev failures : List Check → List SqlError
  failures [] = []
  failures ((failed, error) ∷ checks) = if failed then error ∷ failures checks else failures checks

  abbrev report : List SqlError → Result SqlError (Unit {0})
  report [] = ok tt
  report (error ∷ errors) = err (sqlite.reported error errors)

  unfoldable pub enforce : List Check → Result SqlError (Unit {0})
  enforce checks = report (failures checks)

  -- INSERT INTO worklogs
  unfoldable pub insert_worklog_checks : Database → WorklogRow → List Check
  unfolding is_archived_task overlaps_predecessor is_nonpositive ends_before_start is_second_active
  insert_worklog_checks db new =
      (is_archived_task db.tasks new.task_id, raises task_is_archived)
      ∷ (overlaps_predecessor new db.worklogs, raises worklog_overlap)
      ∷ (is_nonpositive new, raises worklog_duration)
      ∷ (ends_before_start new, record { code = check; message = none })
      ∷ (
        not (is_none (find_row worklog_key new.id db.worklogs)),
        record { code = primary_key; message = some worklogs_id_unique },
      )
      ∷ (
        is_second_active new db.worklogs,
        record { code = unique; message = some single_active_unique },
      )
      ∷ (
        is_none (find_row task_key new.task_id db.tasks),
        record { code = foreign_key; message = none },
      )
      ∷ []

  unfoldable pub insert_worklog : Database → WorklogRow → Result SqlError Database
  unfolding enforce insert_worklog_checks
  insert_worklog db new = do
    enforce (insert_worklog_checks db new)
    ok (record db {
      worklogs = new ∷ db.worklogs;
      global_worklog_revision = db.global_worklog_revision + 1;
    })

  unfoldable pub update_worklog_checks : Columns → WorklogRow → WorklogRow → Database → List Check
  unfolding is_archived_task overlaps_predecessor is_nonpositive ends_before_start is_second_active
  update_worklog_checks columns old new db =
      (
        sets_task_id columns
            && not (new.task_id == old.task_id)
            && is_archived_task db.tasks new.task_id,
        raises task_is_archived,
      )
      ∷ (overlaps_predecessor new db.worklogs, raises worklog_overlap)
      ∷ (sets_any_time columns && is_nonpositive new, raises worklog_duration)
      ∷ (ends_before_start new, record { code = check; message = none })
      ∷ (
        is_second_active new db.worklogs,
        record { code = unique; message = some single_active_unique },
      )
      ∷ (
        sets_task_id columns && is_none (find_row task_key new.task_id db.tasks),
        record { code = foreign_key; message = none },
      )
      ∷ []

  -- UPDATE worklogs, for the row `old` that its WHERE clause selects by its key
  unfoldable pub update_worklog :
      Columns → WorklogRow → WorklogRow → Database → Result SqlError Database
  unfolding enforce update_worklog_checks bump_order_revision
  update_worklog columns old new db = do
    enforce (update_worklog_checks columns old new db)
    ok (record {
      tasks = bump_order_revision columns old new db.tasks;
      worklogs = set_row worklog_key new db.worklogs;
      global_worklog_revision = db.global_worklog_revision + 1;
    })

  -- DELETE FROM worklogs, for the row `old` that its WHERE clause selects by its key
  unfoldable pub delete_worklog : WorklogRow → Database → Result SqlError Database
  unfolding enforce
  delete_worklog old db = do
    enforce ((is_none old.end_us, raises active_worklog_delete) ∷ [])
    ok (record db {
      worklogs = remove_row worklog_key old.id db.worklogs;
      global_worklog_revision = db.global_worklog_revision + 1;
    })

  unfoldable pub insert_task_checks : TaskRow → Database → List Check
  insert_task_checks new db =
      (ltb new.updated_at_us new.created_at_us, record { code = check; message = none })
      ∷ (
        not (is_none (find_row task_key new.id db.tasks)),
        record { code = primary_key; message = some tasks_id_unique },
      )
      ∷ []

  -- INSERT INTO tasks
  unfoldable pub insert_task : TaskRow → Database → Result SqlError Database
  unfolding enforce insert_task_checks
  insert_task new db = do
    enforce (insert_task_checks new db)
    ok (record db { tasks = new ∷ db.tasks })

  unfoldable pub update_task_checks : Bool → TaskRow → Database → List Check
  update_task_checks sets_archived new db =
      (
        sets_archived
            && new.archived
            && any (λ w. (w.task_id == new.id) && is_none w.end_us) db.worklogs,
        raises task_is_active,
      )
      ∷ (ltb new.updated_at_us new.created_at_us, record { code = check; message = none })
      ∷ []

  -- UPDATE tasks, with `archived` among the columns that are set or not
  unfoldable pub update_task : Bool → TaskRow → Database → Result SqlError Database
  unfolding enforce update_task_checks
  update_task sets_archived new db = do
    enforce (update_task_checks sets_archived new db)
    ok (record db { tasks = set_row task_key new db.tasks })
