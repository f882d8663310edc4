-- ===== src/Storage/Reports.antt =====
-- crates/tracker-storage/src/sqlite/reports.rs: the time of every task inside an interval.
pub mod Conservation
use Prim.Native.Nat.{max, min}
use time_tracker.Prelude.{
  ℕ, ◌+◌, ◌-◌, ◌^◌, Bool, true, false, ◌&&◌, Option, none, some, List, [], ◌∷◌, Result, ok, err,
  ◌>>=◌, ◌>>◌, reject, ltb, ◌==◌, if◌then◌else◌, is_none_or, any, keep, total_of, collect,
}
use time_tracker.Prelude.Sort.{sort}
use time_tracker.Domain.Values.{TaskId, Instant}
use time_tracker.Domain.Task.{Task}
use time_tracker.Domain.Worklog.{Worklog}
use time_tracker.Application.Timestamps.{timestamp_to_us}
use time_tracker.Application.Model.{ReportRow, ReportRead, TaskListReportRead}
use time_tracker.Storage.Errors.{StorageError, report_duration_overflow}
use time_tracker.Storage.Schema.{TaskRow, WorklogRow, Database}
use time_tracker.Storage.Mapping.{task_from_row}
use time_tracker.Storage.Reads.{
  by_task_id, list_task_items_on, active_worklog_on, active_tracking_read_on,
}

abbrev pub i64_max : ℕ
i64_max = 2 ^ 63 - 1

-- The parameters ?1, ?2 and ?3 of the query.
pub record Interval : Type 0 where
  pub start_us : ℕ
  pub end_us : ℕ
  pub now_us : ℕ

abbrev pub coalesce : Option ℕ → ℕ → ℕ
coalesce none default = default
coalesce (some a) default = a

-- MIN(COALESCE(w.end_us, ?3), ?2)
abbrev pub clipped_end : Interval → WorklogRow → ℕ
clipped_end i w = min (coalesce w.end_us i.now_us) i.end_us

-- MAX(w.start_us, ?1)
abbrev pub clipped_start : Interval → WorklogRow → ℕ
clipped_start i w = max w.start_us i.start_us

-- w.start_us < ?2 AND (w.end_us IS NULL OR w.end_us > ?1) AND MIN(..) > MAX(..)
unfoldable pub is_counted : Interval → WorklogRow → Bool
is_counted i w =
    ltb w.start_us i.end_us
    && is_none_or w.end_us (λ end. ltb i.start_us end)
    && ltb (clipped_start i w) (clipped_end i w)

unfoldable pub is_group : Interval → TaskRow → WorklogRow → Bool
unfolding is_counted
is_group i t w = is_counted i w && (w.task_id == t.id)

-- SUM(MIN(..) - MAX(..)); the WHERE clause leaves positive differences only
unfoldable pub duration_us : Interval → List WorklogRow → TaskRow → ℕ
unfolding is_group
duration_us i worklogs t =
    total_of (λ w. clipped_end i w - clipped_start i w) (keep (is_group i t) worklogs)

-- A sum that is no `i64` makes the step fail with "integer overflow", or is no integer.
unfoldable pub report_row : Interval → List WorklogRow → TaskRow → Result StorageError ReportRow
unfolding duration_us task_from_row
report_row i worklogs t = do
  reject (ltb i64_max (duration_us i worklogs t)) report_duration_overflow
  task ← task_from_row t
  ok (record { task = task; duration = duration_us i worklogs t })

-- GROUP BY t.id ORDER BY t.id
unfoldable pub report_rows_on : Database → Interval → Result StorageError (List ReportRow)
unfolding report_row is_group sort
report_rows_on db i =
    collect (report_row i db.worklogs)
      (sort by_task_id (keep (λ t. any (is_group i t) db.worklogs) db.tasks))

unfoldable pub interval_of : Instant → Instant → Instant → Interval
unfolding timestamp_to_us
interval_of start end now = record {
  start_us = timestamp_to_us start;
  end_us = timestamp_to_us end;
  now_us = timestamp_to_us now;
}

unfoldable pub report_read : Database → Instant → Instant → Instant → Result StorageError ReportRead
unfolding report_rows_on interval_of active_tracking_read_on
report_read db start end now = do
  rows ← report_rows_on db (interval_of start end now)
  tracking ← active_tracking_read_on db
  ok (record { rows = rows; tracking = tracking })

unfoldable pub task_list_report_read :
    Database → Instant → Instant → Instant → Result StorageError TaskListReportRead
unfolding report_rows_on interval_of list_task_items_on active_worklog_on
task_list_report_read db start end now = do
  items ← list_task_items_on db
  rows ← report_rows_on db (interval_of start end now)
  active_worklog ← active_worklog_on db
  ok (record { items = items; rows = rows; active_worklog = active_worklog })
