-- ===== src/Domain/ActiveWorklog.antt =====
-- `ActiveWorklog` of crates/tracker-domain/src/worklog.rs.
use time_tracker.Prelude.{
  ◌≡◌, ◌≤◌, ◌<◌, ◌⊎◌, inl, inr, Bool-cases, arith, some, none, Result, ok, err, ltb, ◌==◌, ◌>>◌,
  reject,
}
use time_tracker.Domain.Values.{TaskId, WorklogId, Instant}
use time_tracker.Domain.TrackingError.{TrackingError, stop_before_start, stop_at_start}
use time_tracker.Domain.Worklog.{Worklog}

pub record ActiveWorklog : Type 0 where
  pub id : WorklogId
  pub task_id : TaskId
  pub start : Instant

unfoldable pub begin : WorklogId → TaskId → Instant → ActiveWorklog
begin id task_id start = record { id = id; task_id = task_id; start = start }

unfoldable pub stop : ActiveWorklog → Instant → Result TrackingError Worklog
stop self at = do
  reject (ltb at self.start) (stop_before_start self.id self.start at)
  reject (at == self.start) (stop_at_start self.id self.start)
  ok (record { id = self.id; task_id = self.task_id; start = self.start; end = some at })

unfoldable pub to_worklog : ActiveWorklog → Worklog
to_worklog self = record { id = self.id; task_id = self.task_id; start = self.start; end = none }

-- The worklog that a successful stop returns.
abbrev pub ended : ActiveWorklog → Instant → Worklog
ended self at = record { id = self.id; task_id = self.task_id; start = self.start; end = some at }

-- Stopping an active worklog after its start ends it at that instant; stopping it at or before its
-- start fails.
pub stop_cases :
    (self : ActiveWorklog) (at : Instant)
    → ((self.start < at) × (stop self at ≡ ok (ended self at)))
      ⊎ ((at ≤ self.start) × ((error : TrackingError) × (stop self at ≡ err error)))
unfolding stop
stop_cases self at = elim (Bool-cases (ltb at self.start)) [
  | inl e ↦ inr (ground arith, (stop_before_start self.id self.start at, ground arith))
  | inr e ↦ elim (Bool-cases (at == self.start)) [
    | inl q ↦ inr (ground arith, (stop_at_start self.id self.start, ground arith))
    | inr q ↦ inl (ground arith, ground arith)
  ]
]
