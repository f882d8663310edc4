-- ===== src/Storage/Mapping.antt =====
-- crates/tracker-storage/src/sqlite/mapping.rs: rows and domain values. A row that breaks a domain
-- rule, or holds a count of microseconds that is no timestamp, is corrupt data. A row holds an
-- identifier as its 128-bit value; a larger number stands for a text that is no identifier.
pub mod Readable
pub mod Range
use mathlib.Core.Option
use time_tracker.Prelude.{
  ℕ, ◌≡◌, Result, ok, err, ◌>>=◌, map_err, transpose_map, leb, ltb, ◌&&◌, if◌then◌else◌,
}
use time_tracker.Domain.Values.{TaskId, WorklogId, Instant}
use time_tracker.Domain.TaskName
use time_tracker.Domain.Task.{Task}
use time_tracker.Domain.Task
use time_tracker.Domain.Worklog.{Worklog}
use time_tracker.Domain.Worklog
use time_tracker.Application.Timestamps.{timestamp_to_us, instant_of_us}
use time_tracker.Storage.Errors.{
  StorageError, corrupt_data, task_name, task_timestamps, timestamp, worklog_interval, invalid_id,
}
use time_tracker.Storage.Schema.{TaskRow, WorklogRow}

-- The counts that `DateTime::from_timestamp_micros` accepts, from `DateTime::<Utc>::MIN_UTC`,
-- -262143-01-01T00:00:00, to `MAX_UTC`, +262142-12-31T23:59:59.999999999, with 2 ^ 63 added as to
-- all counts.
unfoldable pub min_timestamp_us : ℕ
min_timestamp_us = 888_770_808_054_775_808

unfoldable pub max_timestamp_us : ℕ
max_timestamp_us = 17_433_638_913_654_775_807

unfoldable pub us_to_timestamp : ℕ → Result StorageError Instant
unfolding instant_of_us
us_to_timestamp us =
    if leb min_timestamp_us us && leb us max_timestamp_us
    then ok (instant_of_us us)
    else err (corrupt_data timestamp)

-- 2 ^ 128
unfoldable pub id_count : ℕ
id_count = 340_282_366_920_938_463_463_374_607_431_768_211_456

unfoldable pub task_id_from_stored : ℕ → Result StorageError TaskId
task_id_from_stored value = if ltb value id_count then ok value else err invalid_id

unfoldable pub worklog_id_from_stored : ℕ → Result StorageError WorklogId
worklog_id_from_stored value = if ltb value id_count then ok value else err invalid_id

unfoldable pub task_from_row : TaskRow → Result StorageError Task
unfolding us_to_timestamp task_id_from_stored TaskName.new Task.rehydrate
task_from_row row = do
  created_at ← us_to_timestamp row.created_at_us
  updated_at ← us_to_timestamp row.updated_at_us
  id ← task_id_from_stored row.id
  name ← map_err (λ _. corrupt_data task_name) (TaskName.new row.name)
  map_err (λ _. corrupt_data task_timestamps)
      (Task.rehydrate id name row.archived created_at updated_at)

unfoldable pub worklog_from_row : WorklogRow → Result StorageError Worklog
unfolding us_to_timestamp task_id_from_stored worklog_id_from_stored Worklog.new
worklog_from_row row = do
  end ← transpose_map us_to_timestamp row.end_us
  id ← worklog_id_from_stored row.id
  task_id ← task_id_from_stored row.task_id
  start ← us_to_timestamp row.start_us
  map_err (λ _. corrupt_data worklog_interval) (Worklog.new id task_id start end)

-- The parameters of INSERT INTO tasks.
unfoldable pub task_row : Task → TaskRow
unfolding timestamp_to_us
task_row task = record {
  id = task.id;
  name = task.name.text;
  archived = task.archived;
  created_at_us = timestamp_to_us task.created_at;
  updated_at_us = timestamp_to_us task.updated_at;
  history_order_revision = 0;
}

-- The parameters of INSERT INTO worklogs.
unfoldable pub worklog_row : Worklog → WorklogRow
unfolding timestamp_to_us
worklog_row worklog = record {
  id = worklog.id;
  task_id = worklog.task_id;
  start_us = timestamp_to_us worklog.start;
  end_us = Option.map timestamp_to_us worklog.end;
}
