-- ===== src/Storage/Worklogs.antt =====
-- crates/tracker-storage/src/sqlite/worklogs.rs: guarded moves, corrections and
-- deletions.
use mathlib.Core.Option
use time_tracker.Prelude.{
  ℕ, not, ◌&&◌, ◌||◌, Option, none, some, Result, ok, err, ◌>>=◌, map_err, ◌==◌, if◌then◌else◌,
  is_none, option_eq, differ, ok_or, transpose_map,
}
use time_tracker.Domain.Values.{TaskId, WorklogId, Instant}
use time_tracker.Domain.Worklog.{Worklog, WorklogTimes, times_eq}
use time_tracker.Domain.Worklog
use time_tracker.Application.Timestamps.{timestamp_to_us}
use time_tracker.Application.Model.{WorklogCorrection, WorklogDeletion, WorklogMove}
use time_tracker.Storage.Errors.{
  Sqlite, StorageError, worklog_not_found, worklog_changed, worklog_is_active, rule_error,
  move_worklog_error, update_worklog_error, delete_worklog_error, must_move_to_other_task,
  correction_keeps_completion,
}
use time_tracker.Storage.Schema.{WorklogRow, Database, sets_task, sets_times}
use time_tracker.Storage.Statements
use time_tracker.Storage.Mapping.{us_to_timestamp, worklog_from_row}
use time_tracker.Storage.Reads.{
  transact, select_worklog, worklog_by_id_on, latest_work_start_on, active_adoption_on,
}
use time_tracker.Storage.Tracking.{refused}

abbrev pub end_to_us : Option Instant → Option ℕ
end_to_us = Option.map timestamp_to_us

unfoldable pub stored_worklog_times : ℕ → Option ℕ → Result StorageError WorklogTimes
unfolding us_to_timestamp
stored_worklog_times start_us end_us = do
  start ← us_to_timestamp start_us
  end ← transpose_map us_to_timestamp end_us
  ok (record { start = start; end = end })

-- The worklog that a failed write refers to, or the reason that there is none.
unfoldable pub current_worklog : Database → WorklogId → Result StorageError Worklog
unfolding worklog_by_id_on
current_worklog db id = do found ← worklog_by_id_on db id; ok_or found (worklog_not_found id)

unfoldable pub moved_worklog_result :
    Database → WorklogId → TaskId → TaskId → Result StorageError (WorklogMove × Database)
unfolding current_worklog latest_work_start_on active_adoption_on
moved_worklog_result db id source_task_id destination_task_id = do
  worklog ← current_worklog db id
  source_task_latest_work_start ← latest_work_start_on db source_task_id
  destination_task_latest_work_start ← latest_work_start_on db destination_task_id
  (active_worklog, active_task_latest_work_start) ← active_adoption_on db
  ok (
    record {
      worklog = worklog;
      source_task_latest_work_start = source_task_latest_work_start;
      destination_task_latest_work_start = destination_task_latest_work_start;
      active_worklog = active_worklog;
      active_task_latest_work_start = active_task_latest_work_start;
    },
    db,
  )

unfoldable pub corrected_worklog_result :
    Database → WorklogId → Result StorageError (WorklogCorrection × Database)
unfolding current_worklog latest_work_start_on active_adoption_on
corrected_worklog_result db id = do
  worklog ← current_worklog db id
  task_latest_work_start ← latest_work_start_on db worklog.task_id
  (active_worklog, active_task_latest_work_start) ← active_adoption_on db
  ok (
    record {
      worklog = worklog;
      task_latest_work_start = task_latest_work_start;
      active_worklog = active_worklog;
      active_task_latest_work_start = active_task_latest_work_start;
    },
    db,
  )

-- WHERE id = ?2 AND task_id = ?3 AND start_us = ?4 AND end_us IS ?5 AND task_id <> ?1
unfoldable pub select_move :
    Database → WorklogId → TaskId → WorklogTimes → TaskId → Option WorklogRow
unfolding select_worklog timestamp_to_us
select_move db id expected_source_task_id expected destination_task_id =
    select_worklog id
      (λ row.
        (row.task_id == expected_source_task_id)
        && (row.start_us == timestamp_to_us expected.start)
        && option_eq row.end_us (end_to_us expected.end)
        && not (row.task_id == destination_task_id))
      db.worklogs

-- An error while looking for the reason takes its place.
abbrev pub reason_of : Result StorageError StorageError → StorageError
reason_of (ok reason) = reason
reason_of (err error) = error

-- Why no row was moved.
unfoldable pub move_refusal : Database → WorklogId → TaskId → WorklogTimes → StorageError
unfolding current_worklog stored_worklog_times times_eq Worklog.times timestamp_to_us rule_error
move_refusal db id expected_source_task_id expected = reason_of do
  current ← current_worklog db id
  stored_expected ← stored_worklog_times (timestamp_to_us expected.start) (end_to_us expected.end)
  ok (
      if not (current.task_id == expected_source_task_id)
        || not (times_eq (Worklog.times current) stored_expected)
      then worklog_changed id
      else rule_error must_move_to_other_task)

-- WHERE id = ?3 AND start_us = ?4 AND end_us IS ?5 AND (both ends are NULL or neither is)
unfoldable pub select_correction :
    Database → WorklogId → WorklogTimes → WorklogTimes → Option WorklogRow
unfolding select_worklog timestamp_to_us
select_correction db id expected replacement =
    select_worklog id
      (λ row.
        (row.start_us == timestamp_to_us expected.start)
        && option_eq row.end_us (end_to_us expected.end)
        && not (differ (is_none row.end_us) (is_none replacement.end)))
      db.worklogs

unfoldable pub correction_refusal : Database → WorklogId → WorklogTimes → StorageError
unfolding current_worklog stored_worklog_times times_eq Worklog.times timestamp_to_us rule_error
correction_refusal db id expected = reason_of do
  current ← current_worklog db id
  stored_expected ← stored_worklog_times (timestamp_to_us expected.start) (end_to_us expected.end)
  ok (
      if not (times_eq (Worklog.times current) stored_expected)
      then worklog_changed id
      else rule_error correction_keeps_completion)

-- WHERE id = ?1 AND task_id = ?2 AND start_us = ?3 AND end_us = ?4 AND end_us IS NOT NULL; a NULL
-- parameter equals nothing
unfoldable pub select_deletion : Database → WorklogId → TaskId → WorklogTimes → Option WorklogRow
unfolding select_worklog timestamp_to_us
select_deletion db id expected_task_id expected =
    select_worklog id
      (λ row.
        (row.task_id == expected_task_id)
        && (row.start_us == timestamp_to_us expected.start)
        && not (is_none row.end_us)
        && option_eq row.end_us (end_to_us expected.end))
      db.worklogs

deletion_reason : WorklogId → Option Worklog → StorageError
unfolding Worklog.is_active
deletion_reason id none = worklog_not_found id
deletion_reason id (some worklog) =
    if Worklog.is_active worklog then worklog_is_active id else worklog_changed id

unfoldable pub deletion_conflict_on : Database → WorklogId → Result StorageError StorageError
unfolding deletion_reason worklog_by_id_on
deletion_conflict_on db id = do found ← worklog_by_id_on db id; ok (deletion_reason id found)

-- The deleted row, as RETURNING gives it, and its task's latest work start.
unfoldable pub deleted_worklog_result :
    WorklogRow → Database → Result StorageError (WorklogDeletion × Database)
unfolding worklog_from_row latest_work_start_on
deleted_worklog_result row deleted = do
  worklog ← worklog_from_row row
  task_latest_work_start ← latest_work_start_on deleted worklog.task_id
  ok (record { worklog = worklog; task_latest_work_start = task_latest_work_start }, deleted)

module _ ⦃sqlite : Sqlite⦄ where
  unfoldable pub compare_and_move_worklog :
      Database
      → WorklogId
      → TaskId
      → WorklogTimes
      → TaskId
      → Result StorageError WorklogMove × Database
  unfolding transact select_move move_refusal moved_worklog_result Statements.update_worklog
      move_worklog_error
  compare_and_move_worklog db id expected_source_task_id expected destination_task_id =
      transact db (elim (select_move db id expected_source_task_id expected destination_task_id) [
        | none ↦ err (move_refusal db id expected_source_task_id expected)
        | some row ↦
            map_err (λ error. move_worklog_error error id destination_task_id)
              (Statements.update_worklog sets_task row
                (record row { task_id = destination_task_id }) db)
            >>= λ moved. moved_worklog_result moved id expected_source_task_id destination_task_id
      ])

  unfoldable pub compare_and_set_worklog_times :
      Database
      → WorklogId
      → WorklogTimes
      → WorklogTimes
      → Result StorageError WorklogCorrection × Database
  unfolding transact select_correction correction_refusal corrected_worklog_result
      Statements.update_worklog update_worklog_error timestamp_to_us
  compare_and_set_worklog_times db id expected replacement =
      transact db (elim (select_correction db id expected replacement) [
        | none ↦ err (correction_refusal db id expected)
        | some row ↦
            map_err (λ error. update_worklog_error error id)
              (Statements.update_worklog sets_times row
                (record row {
                  start_us = timestamp_to_us replacement.start;
                  end_us = end_to_us replacement.end;
                })
                db)
            >>= λ corrected. corrected_worklog_result corrected id
      ])

  unfoldable pub compare_and_delete_completed_worklog :
      Database → WorklogId → TaskId → WorklogTimes → Result StorageError WorklogDeletion × Database
  unfolding transact select_deletion deletion_conflict_on deleted_worklog_result
      Statements.delete_worklog delete_worklog_error
  compare_and_delete_completed_worklog db id expected_task_id expected =
      transact db (elim (select_deletion db id expected_task_id expected) [
        | none ↦ refused (deletion_conflict_on db id)
        | some row ↦
            map_err (λ error. delete_worklog_error error id) (Statements.delete_worklog row db)
            >>= λ deleted. deleted_worklog_result row deleted
      ])
