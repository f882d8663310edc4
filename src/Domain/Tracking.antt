-- ===== src/Domain/Tracking.antt =====
-- `Tracker` of crates/tracker-domain/src/tracking.rs. A command on `&mut self` returns its result
-- and the tracker behind it.
pub mod Commands
use time_tracker.Prelude.{
  ◌≡◌, Bool, true, false, not, Option, none, some, Result, ok, err, ◌==◌, if◌then◌else◌,
}
use time_tracker.Domain.Values.{TaskId, WorklogId, Instant}
use time_tracker.Domain.TrackingError.{
  TrackingError, already_running, not_running, task_archived, task_is_active, task_already_active,
  worklog_not_active,
}
use time_tracker.Domain.Task.{Task}
use time_tracker.Domain.Worklog.{Worklog}
use time_tracker.Domain.Worklog
use time_tracker.Domain.ActiveWorklog.{ActiveWorklog, to_worklog}
use time_tracker.Domain.ActiveWorklog

pub data TrackingState : Type 0 where
  idle : TrackingState
  running : ActiveWorklog → TrackingState

pub record Tracker : Type 0 where
  pub state : TrackingState

pub record SwitchedWorklogs : Type 0 where
  pub stopped : Worklog
  pub started : Worklog

abbrev pub idle_tracker : Tracker
idle_tracker = record { state = idle }

abbrev pub running_tracker : ActiveWorklog → Tracker
running_tracker worklog = record { state = running worklog }

unfoldable pub resume : Worklog → Result TrackingError Tracker
unfolding Worklog.is_active ActiveWorklog.begin
resume worklog =
    if not (Worklog.is_active worklog)
    then err (worklog_not_active worklog.id)
    else ok (running_tracker (ActiveWorklog.begin worklog.id worklog.task_id worklog.start))

abbrev state_active : TrackingState → Option ActiveWorklog
state_active idle = none
state_active (running worklog) = some worklog

unfoldable pub active : Tracker → Option ActiveWorklog
active self = state_active self.state

start_from : TrackingState → Task → WorklogId → Instant → Result TrackingError Worklog × Tracker
unfolding ActiveWorklog.begin to_worklog
start_from (running worklog) task worklog_id at = (err already_running, running_tracker worklog)
start_from idle task worklog_id at =
    if task.archived
    then (err (task_archived task.id), idle_tracker)
    else let active = ActiveWorklog.begin worklog_id task.id at in
      (ok (to_worklog active), running_tracker active)

unfoldable pub start : Tracker → Task → WorklogId → Instant → Result TrackingError Worklog × Tracker
unfolding start_from
start self task worklog_id at = start_from self.state task worklog_id at

-- `?` on the result of stopping the active worklog.
finish_stop : ActiveWorklog → Result TrackingError Worklog → Result TrackingError Worklog × Tracker
finish_stop active (ok stopped) = (ok stopped, idle_tracker)
finish_stop active (err error) = (err error, running_tracker active)

stop_from : TrackingState → Instant → Result TrackingError Worklog × Tracker
unfolding finish_stop ActiveWorklog.stop
stop_from idle at = (err not_running, idle_tracker)
stop_from (running active) at = finish_stop active (ActiveWorklog.stop active at)

unfoldable pub stop : Tracker → Instant → Result TrackingError Worklog × Tracker
unfolding stop_from
stop self at = stop_from self.state at

finish_switch :
    ActiveWorklog
    → ActiveWorklog
    → Result TrackingError Worklog
    → Result TrackingError SwitchedWorklogs × Tracker
unfolding to_worklog
finish_switch active started (err error) = (err error, running_tracker active)
finish_switch active started (ok stopped) =
    (ok (record { stopped = stopped; started = to_worklog started }), running_tracker started)

switch_from :
    TrackingState → Task → WorklogId → Instant → Result TrackingError SwitchedWorklogs × Tracker
unfolding finish_switch ActiveWorklog.stop ActiveWorklog.begin
switch_from idle task worklog_id at = (err not_running, idle_tracker)
switch_from (running active) task worklog_id at =
    if task.id == active.task_id
    then (err (task_already_active task.id), running_tracker active)
    else if task.archived
    then (err (task_archived task.id), running_tracker active)
    else finish_switch active (ActiveWorklog.begin worklog_id task.id at)
        (ActiveWorklog.stop active at)

unfoldable pub switch :
    Tracker → Task → WorklogId → Instant → Result TrackingError SwitchedWorklogs × Tracker
unfolding switch_from
switch self task worklog_id at = switch_from self.state task worklog_id at

archivable_from : TrackingState → TaskId → Result TrackingError (Unit {0})
archivable_from idle task_id = ok tt
archivable_from (running worklog) task_id =
    if worklog.task_id == task_id then err (task_is_active task_id) else ok tt

unfoldable pub ensure_archivable : Tracker → TaskId → Result TrackingError (Unit {0})
unfolding archivable_from
ensure_archivable self task_id = archivable_from self.state task_id
