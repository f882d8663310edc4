-- ===== src/Domain/Worklog.antt =====
-- `WorklogTimes`, `Worklog` and their errors of crates/tracker-domain/src/worklog.rs. An `end` of
-- `none` is an active worklog.
pub mod Overlap
pub mod Correction
use time_tracker.Prelude.{
  Bool, true, false, not, ◌&&◌, Option, none, some, Result, ok, err, ltb, ◌==◌, if◌then◌else◌,
  ◌>>=◌, ◌>>◌, reject, map_err, is_some_and, is_none_or, is_none, option_eq, differ,
}
use time_tracker.Domain.Values.{TaskId, WorklogId, Instant}

pub record WorklogTimes : Type 0 where
  pub start : Instant
  pub end : Option Instant

pub data WorklogError : Type 0 where
  zero_duration end_before_start : WorklogError

pub data WorklogCorrectionError : Type 0 where
  zero_duration end_before_start completion_state_changed : WorklogCorrectionError
  start_after_occurred_at end_after_occurred_at : WorklogCorrectionError

pub data WorklogMoveError : Type 0 where
  destination_unchanged : WorklogMoveError

unfoldable pub from_interval : WorklogError → WorklogCorrectionError
from_interval WorklogError.zero_duration = WorklogCorrectionError.zero_duration
from_interval WorklogError.end_before_start = WorklogCorrectionError.end_before_start

unfoldable pub times_is_active : WorklogTimes → Bool
times_is_active times = is_none times.end

-- The derived equality of two pairs of timestamps.
unfoldable pub times_eq : WorklogTimes → WorklogTimes → Bool
times_eq a b = a.start == b.start && option_eq a.end b.end

unfoldable pub validate : WorklogTimes → Result WorklogError (Unit {0})
validate times = do
  reject (is_some_and times.end (λ end. ltb end times.start)) WorklogError.end_before_start
  reject (is_some_and times.end (λ end. end == times.start)) WorklogError.zero_duration

unfoldable pub validate_correction :
    WorklogTimes → WorklogTimes → Instant → Result WorklogCorrectionError (Unit {0})
unfolding validate from_interval times_is_active
validate_correction times replacement occurred_at = do
  reject (differ (times_is_active times) (times_is_active replacement)) completion_state_changed
  map_err from_interval (validate replacement)
  reject (ltb occurred_at replacement.start) start_after_occurred_at
  reject (is_some_and replacement.end (λ end. ltb occurred_at end)) end_after_occurred_at

pub record Worklog : Type 0 where
  pub id : WorklogId
  pub task_id : TaskId
  pub start : Instant
  pub end : Option Instant

unfoldable pub new : WorklogId → TaskId → Instant → Option Instant → Result WorklogError Worklog
unfolding validate
new id task_id start end = do
  validate (record { start = start; end = end })
  ok (record { id = id; task_id = task_id; start = start; end = end })

unfoldable pub begin : WorklogId → TaskId → Instant → Worklog
begin id task_id start = record { id = id; task_id = task_id; start = start; end = none }

unfoldable pub is_active : Worklog → Bool
is_active worklog = is_none worklog.end

unfoldable pub times : Worklog → WorklogTimes
times worklog = record { start = worklog.start; end = worklog.end }

unfoldable pub overlaps : Worklog → Worklog → Bool
overlaps self other =
    if not (self.task_id == other.task_id)
    then false
    else is_none_or other.end (λ end. ltb self.start end)
      && is_none_or self.end (λ end. ltb other.start end)

unfoldable pub corrected : Worklog → WorklogTimes → Instant → Result WorklogCorrectionError Worklog
unfolding validate_correction times
corrected self replacement occurred_at = do
  validate_correction (times self) replacement occurred_at
  ok (record self { start = replacement.start; end = replacement.end })

unfoldable pub moved_to : Worklog → TaskId → Result WorklogMoveError Worklog
moved_to self destination_task_id =
    if destination_task_id == self.task_id
    then err destination_unchanged
    else ok (record self { task_id = destination_task_id })
