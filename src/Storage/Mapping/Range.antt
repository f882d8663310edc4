-- ===== src/Storage/Mapping/Range.antt =====
-- Counts of microseconds in the range of a timestamp, and texts of identifiers.
use mathlib.Core.Option
use time_tracker.Prelude.{
  ℕ, ◌≤◌, ◌<◌, ◌≡◌, refl, Option, none, some, ok, arith, Has, transpose_map, bind-eq-ok,
  map_err-eq-ok,
}
use time_tracker.Domain.Values.{TaskId, WorklogId, Instant}
use time_tracker.Domain.Worklog.{Worklog}
use time_tracker.Domain.Worklog.Overlap.{new-IsPositive}
use time_tracker.Application.Timestamps.{
  timestamp_to_us, instant_of_us, timestamp_to_us-instant_of_us,
}
use time_tracker.Storage.Schema.{TaskRow, WorklogRow, Database}
use time_tracker.Storage.Mapping.{
  min_timestamp_us, max_timestamp_us, id_count, us_to_timestamp, task_id_from_stored,
  worklog_id_from_stored, worklog_from_row,
}

abbrev pub IsTimestamp : ℕ → Type 0
IsTimestamp us = (min_timestamp_us ≤ us) × (us ≤ max_timestamp_us)

abbrev pub IsId : ℕ → Type 0
IsId value = value < id_count

-- The end of an active worklog is no count.
abbrev pub IsEnd : Option ℕ → Type 0
IsEnd none = Unit {0}
IsEnd (some us) = IsTimestamp us

pub record IsTaskInRange (row : TaskRow) : Type 0 where
  pub id : IsId row.id
  pub created : IsTimestamp row.created_at_us
  pub updated : IsTimestamp row.updated_at_us

pub record IsWorklogInRange (row : WorklogRow) : Type 0 where
  pub id : IsId row.id
  pub task_id : IsId row.task_id
  pub start : IsTimestamp row.start_us
  pub end : IsEnd row.end_us

-- Every count that a row of the database holds is that of a timestamp, and every identifier is one.
pub record IsInRange (db : Database) : Type 0 where
  pub tasks : (row : TaskRow) → Has row db.tasks → IsTaskInRange row
  pub worklogs : (row : WorklogRow) → Has row db.worklogs → IsWorklogInRange row

pub us_to_timestamp-eq : (us : ℕ) → IsTimestamp us → us_to_timestamp us ≡ ok (instant_of_us us)
unfolding us_to_timestamp
us_to_timestamp-eq us h = ground arith

pub task_id-eq : (id : ℕ) → IsId id → task_id_from_stored id ≡ ok id
unfolding task_id_from_stored
task_id-eq id h = ground arith

pub worklog_id-eq : (id : ℕ) → IsId id → worklog_id_from_stored id ≡ ok id
unfolding worklog_id_from_stored
worklog_id-eq id h = ground arith

pub end-eq :
    (end : Option ℕ)
    → IsEnd end
    → transpose_map us_to_timestamp end ≡ ok (Option.map instant_of_us end)
end-eq none h = refl
end-eq (some us) h = rw (us_to_timestamp-eq us h) refl

-- A timestamp that is read is the instant of its count.
pub us_to_timestamp-eq-ok :
    (us : ℕ) {at : Instant} → us_to_timestamp us ≡ ok at → at ≡ instant_of_us us
unfolding us_to_timestamp
us_to_timestamp-eq-ok us h = ground arith

-- The instant of a count that is read is a timestamp.
pub read-IsTimestamp :
    (us : ℕ) {at : Instant} → us_to_timestamp us ≡ ok at → IsTimestamp (timestamp_to_us at)
read-IsTimestamp us h =
    rw (us_to_timestamp-eq-ok us h, timestamp_to_us-instant_of_us us) (counted us h)
  where
    counted : (us : ℕ) {at : Instant} → us_to_timestamp us ≡ ok at → IsTimestamp us
    counted us h = unfold us_to_timestamp in ground arith

pub task_id-eq-ok : (id : ℕ) {found : TaskId} → task_id_from_stored id ≡ ok found → found ≡ id
unfolding task_id_from_stored
task_id-eq-ok id h = ground arith

worklog_id-eq-ok : (id : ℕ) {found : WorklogId} → worklog_id_from_stored id ≡ ok found → found ≡ id
unfolding worklog_id_from_stored
worklog_id-eq-ok id h = ground arith

pub end-eq-ok :
    (end : Option ℕ) {at : Option Instant}
    → transpose_map us_to_timestamp end ≡ ok at
    → at ≡ Option.map instant_of_us end
end-eq-ok none h = cc
end-eq-ok (some us) h =
    let (found, read, done) = bind-eq-ok (us_to_timestamp us) _ h in
    let same = us_to_timestamp-eq-ok us read in cc

-- What a stored worklog is read as.
unfoldable pub worklog_of : WorklogRow → Worklog
unfolding instant_of_us
worklog_of row = record {
  id = row.id;
  task_id = row.task_id;
  start = instant_of_us row.start_us;
  end = Option.map instant_of_us row.end_us;
}

-- A worklog that is read is that of its row.
pub worklog_from_row-eq-ok :
    (row : WorklogRow) {worklog : Worklog}
    → worklog_from_row row ≡ ok worklog
    → worklog ≡ worklog_of row
unfolding worklog_from_row worklog_of
worklog_from_row-eq-ok row {worklog} h =
    let (end, read_end, rest) = bind-eq-ok (transpose_map us_to_timestamp row.end_us) _ h in
    let (id, read_id, rest') = bind-eq-ok (worklog_id_from_stored row.id) _ rest in
    let (task_id, read_task, more) = bind-eq-ok (task_id_from_stored row.task_id) _ rest' in
    let (start, read_start, done) = bind-eq-ok (us_to_timestamp row.start_us) _ more in
    let same_id = worklog_id-eq-ok row.id read_id in
    let same_task = task_id-eq-ok row.task_id read_task in
    let same_end = end-eq-ok row.end_us read_end in
    let same_start = us_to_timestamp-eq-ok row.start_us read_start in
    let made = (new-IsPositive id task_id start end worklog (map_err-eq-ok _ _ done)).1 in cc
