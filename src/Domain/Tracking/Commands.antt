-- ===== src/Domain/Tracking/Commands.antt =====
-- The tracker of crates/tracker-domain/src/tracking.rs as a state machine.
use time_tracker.Prelude.{◌≡◌, refl, ◌⊎◌, ◌≢◌, inl, inr, none, arith, ok, err, Bool-cases}
use time_tracker.Domain.Values.{WorklogId, Instant}
use time_tracker.Domain.TrackingError.{TrackingError, task_archived}
use time_tracker.Domain.Task.{Task}
use time_tracker.Domain.ActiveWorklog
use time_tracker.Domain.ActiveWorklog.{ActiveWorklog, to_worklog}
use time_tracker.Domain.Tracking.{SwitchedWorklogs, running_tracker, resume, start, stop, switch}

-- A switch to another task is a stop and a start at the same instant, made as one step: either
-- both succeed, with the two results of the switch and its final state, or one of them fails, and
-- then the switch fails too and the tracker stays as it was.
pub switch-eq-stop_start :
    (current : ActiveWorklog) (task : Task) (id : WorklogId) (at : Instant)
    → task.id ≢ current.task_id
    → let tracker = running_tracker current in
      ((result : SwitchedWorklogs) × ((switch tracker task id at).0 ≡ ok result)
        × ((stop tracker at).0 ≡ ok result.stopped)
        × ((start (stop tracker at).1 task id at).0 ≡ ok result.started)
        × ((switch tracker task id at).1 ≡ (start (stop tracker at).1 task id at).1))
      ⊎ ((error : TrackingError) × ((switch tracker task id at).0 ≡ err error)
          × (((stop_error : TrackingError) × ((stop tracker at).0 ≡ err stop_error))
              ⊎ ((start (stop tracker at).1 task id at).0 ≡ err error))
          × ((switch tracker task id at).1 ≡ tracker))
unfolding switch stop start
switch-eq-stop_start current task id at n = elim (ActiveWorklog.stop_cases current at) [
  | inl (later, stopped) ↦ elim (Bool-cases task.archived) [
    | inl a ↦ inr (task_archived task.id, ground arith, inr (ground arith), ground arith)
    | inr a ↦ inl (
      record {
        stopped = ActiveWorklog.ended current at;
        started = record { id = id; task_id = task.id; start = at; end = none };
      },
      ground arith,
      ground arith,
      ground arith,
      ground arith,
    )
  ]
  | inr (early, (error, refused)) ↦ elim (Bool-cases task.archived) [
    | inl a ↦ inr (task_archived task.id, ground arith, inl (error, ground arith), ground arith)
    | inr a ↦ inr (error, ground arith, inl (error, ground arith), ground arith)
  ]
]

-- Resuming the active worklog of a tracker, as it was stored, gives the tracker back; a worklog
-- that has ended is not resumed.
pub resume-to_worklog :
    (current : ActiveWorklog) → resume (to_worklog current) ≡ ok (running_tracker current)
unfolding resume to_worklog
resume-to_worklog current = refl
