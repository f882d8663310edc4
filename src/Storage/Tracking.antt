-- ===== src/Storage/Tracking.antt =====
-- crates/tracker-storage/src/sqlite/tracking.rs. Each write takes the database and returns its
-- result and the database behind it.
pub mod Refusals
use time_tracker.Prelude.{
  not, ◌&&◌, Option, none, some, List, Result, ok, err, ◌>>=◌, map_err, ◌==◌, if◌then◌else◌,
  is_none,
}
use time_tracker.Domain.Values.{WorklogId, Instant}
use time_tracker.Domain.Worklog.{Worklog}
use time_tracker.Domain.Worklog
use time_tracker.Application.Timestamps.{timestamp_to_us}
use time_tracker.Application.Model.{TaskListItem}
use time_tracker.Storage.Errors.{
  Sqlite, SqlError, StorageError, worklog_not_found, worklog_already_stopped, worklog_changed,
  classify_write_error, insert_worklog_error,
}
use time_tracker.Storage.Schema.{WorklogRow, Database, sets_end}
use time_tracker.Storage.Statements
use time_tracker.Storage.Mapping.{worklog_from_row, worklog_row}
use time_tracker.Storage.Reads.{
  transact, select_worklog, worklog_by_id_on, active_worklog_on, list_task_items_on,
}

-- `Err(conflict?)`: an error while looking for the reason takes its place.
abbrev pub refused : {A : Type 0} → Result StorageError StorageError → Result StorageError A
refused (ok reason) = err reason
refused (err error) = err error

stop_conflict_reason : WorklogId → Option Worklog → StorageError
unfolding Worklog.is_active
stop_conflict_reason id none = worklog_not_found id
stop_conflict_reason id (some worklog) =
    if not (Worklog.is_active worklog) then worklog_already_stopped id else worklog_changed id

unfoldable pub stop_conflict_on : Database → WorklogId → Result StorageError StorageError
unfolding stop_conflict_reason worklog_by_id_on
stop_conflict_on db id = do found ← worklog_by_id_on db id; ok (stop_conflict_reason id found)

-- WHERE id = ?2 AND start_us = ?3 AND end_us IS NULL
unfoldable pub select_running : Database → WorklogId → Instant → Option WorklogRow
unfolding select_worklog timestamp_to_us
select_running db id expected_start =
    select_worklog id
      (λ row. (row.start_us == timestamp_to_us expected_start) && is_none row.end_us) db.worklogs

unfoldable pub load_task_tracking_resources :
    Database → Result StorageError (List TaskListItem × Option Worklog)
unfolding list_task_items_on active_worklog_on
load_task_tracking_resources db = do
  task_items ← list_task_items_on db
  active_worklog ← active_worklog_on db
  ok (task_items, active_worklog)

module _ ⦃sqlite : Sqlite⦄ where
  unfoldable pub insert_worklog_on : Database → Worklog → Result StorageError Database
  unfolding Statements.insert_worklog worklog_row insert_worklog_error
  insert_worklog_on db worklog =
      map_err (λ error. insert_worklog_error error worklog)
        (Statements.insert_worklog db (worklog_row worklog))

  unfoldable pub insert_worklog : Database → Worklog → Result StorageError (Unit {0}) × Database
  unfolding insert_worklog_on transact
  insert_worklog db worklog = transact db do db' ← insert_worklog_on db worklog; ok (tt, db')

  -- The row that the UPDATE selected, ended.
  abbrev pub ended : WorklogRow → Instant → WorklogRow
  ended row end = record row { end_us = some (timestamp_to_us end) }

  -- What the statement wrote stays written while its returned row is read.
  unfoldable pub returned_stop :
      Database → WorklogRow → Result SqlError Database → Result StorageError Worklog × Database
  unfolding worklog_from_row classify_write_error
  returned_stop db new (ok db') = (worklog_from_row new, db')
  returned_stop db new (err error) = (err (classify_write_error error), db)

  unfoldable pub stop_worklog :
      Database → WorklogId → Instant → Instant → Result StorageError Worklog × Database
  unfolding returned_stop select_running stop_conflict_on Statements.update_worklog
  stop_worklog db id expected_start end = elim (select_running db id expected_start) [
    | none ↦ (refused (stop_conflict_on db id), db)
    | some row ↦
        returned_stop db (ended row end) (Statements.update_worklog sets_end row (ended row end) db)
  ]

  -- The first half of a switch.
  unfoldable pub stop_for_switch :
      Database → WorklogId → Instant → Instant → Result StorageError Database
  unfolding select_running stop_conflict_on Statements.update_worklog classify_write_error
  stop_for_switch db id expected_start stop_at = elim (select_running db id expected_start) [
    | none ↦ refused (stop_conflict_on db id)
    | some row ↦
        map_err classify_write_error (Statements.update_worklog sets_end row (ended row stop_at) db)
  ]

  unfoldable pub switch_worklog :
      Database → WorklogId → Instant → Instant → Worklog → Result StorageError (Unit {0}) × Database
  unfolding stop_for_switch insert_worklog_on transact
  switch_worklog db id expected_start stop_at next = transact db do
    stopped ← stop_for_switch db id expected_start stop_at
    switched ← insert_worklog_on stopped next
    ok (tt, switched)
