-- ===== src/Application/Service/Tracking.antt =====
-- crates/tracker-application/src/service/tracking.rs: making a task active, and making the tracker
-- idle.
pub mod Outcome
pub mod Failure
pub mod Contract
pub mod Change
pub mod Mirror
pub mod Catalogued
use time_tracker.Prelude.{
  Bool, true, false, not, ◌&&◌, Option, none, some, Result, ok, err, ◌==◌, if◌then◌else◌, option_eq,
}
use mathlib.Core.Option
use time_tracker.Domain.Values.{TaskId, WorklogId, Instant}
use time_tracker.Domain.TrackingError.{TrackingError}
use time_tracker.Domain.Task.{Task}
use time_tracker.Domain.Worklog.{Worklog}
use time_tracker.Domain.ActiveWorklog.{ActiveWorklog}
use time_tracker.Domain.Tracking.{Tracker, SwitchedWorklogs, active, start, stop, switch}
use time_tracker.Application.Timestamps.{canonical_timestamp}
use time_tracker.Application.Model.{TaskListItem}
use time_tracker.Application.Repository.{RepositoryError, task_not_found, TrackerRepository}
use time_tracker.Application.Error.{ApplicationError, domain, repository, tracking_state_changed}
use time_tracker.Application.Service.{
  TrackerApplication, find_item, refresh_task_list, recover_after_tracking_write, note_work_start,
}

pub data SetActiveTaskOutcome : Type 0 where
  started : Worklog → SetActiveTaskOutcome
  switched : Worklog → Worklog → SetActiveTaskOutcome
  already_active : ActiveWorklog → SetActiveTaskOutcome

pub data ClearActiveTaskOutcome : Type 0 where
  stopped : Worklog → ClearActiveTaskOutcome
  already_idle : ClearActiveTaskOutcome

-- The cached worklog is still active, but with another start.
unfoldable pub start_moved : Option ActiveWorklog → Option ActiveWorklog → Bool
start_moved (some cached) (some current) =
    (current.id == cached.id) && not (current.start == cached.start)
start_moved _ _ = false

-- The reviewed state, if the caller has one, is no longer the state.
unfoldable pub reviewed_changed : Option (Option WorklogId) → Option ActiveWorklog → Bool
reviewed_changed none current = false
reviewed_changed (some expected) current =
    not (option_eq (Option.map (λ (w : ActiveWorklog). w.id) current) expected)

abbrev pub App : Type 0 → Type 0 → Type 0
App S A = Result ApplicationError A × TrackerApplication S

module _ {S : Type 0} (repo : TrackerRepository S) where
  failed_write : {A : Type 0} → TrackerApplication S → RepositoryError → App S A
  unfolding recover_after_tracking_write
  failed_write self error =
      let (failure, recovered) = recover_after_tracking_write repo self error in
      (err failure, recovered)

  confirm_start :
      TrackerApplication S
      → Tracker
      → Worklog
      → Result RepositoryError (Unit {0}) × S
      → App S (Tracker × SetActiveTaskOutcome)
  unfolding failed_write
  confirm_start self candidate worklog (ok _, s) =
      (ok (candidate, started worklog), record self { repository = s })
  confirm_start self candidate worklog (err error, s) =
      failed_write (record self { repository = s }) error

  persist_start :
      TrackerApplication S
      → Result TrackingError Worklog × Tracker
      → App S (Tracker × SetActiveTaskOutcome)
  unfolding confirm_start
  persist_start self (err error, candidate) = (err (domain error), self)
  persist_start self (ok worklog, candidate) =
      confirm_start self candidate worklog (repo.insert_worklog worklog self.repository)

  confirm_switch :
      TrackerApplication S
      → Tracker
      → SwitchedWorklogs
      → Result RepositoryError (Unit {0}) × S
      → App S (Tracker × SetActiveTaskOutcome)
  unfolding failed_write
  confirm_switch self candidate worklogs (ok _, s) =
      (ok (candidate, switched worklogs.stopped worklogs.started), record self { repository = s })
  confirm_switch self candidate worklogs (err error, s) =
      failed_write (record self { repository = s }) error

  persist_switch :
      TrackerApplication S
      → Instant
      → Result TrackingError SwitchedWorklogs × Tracker
      → App S (Tracker × SetActiveTaskOutcome)
  unfolding confirm_switch
  persist_switch self at (err error, candidate) = (err (domain error), self)
  persist_switch self at (ok worklogs, candidate) = confirm_switch self candidate worklogs (
      repo.switch_worklog worklogs.stopped.id worklogs.stopped.start at worklogs.started
        self.repository)

  unfoldable pub persist_tracking_change :
      TrackerApplication S → Task → WorklogId → Instant → App S (Tracker × SetActiveTaskOutcome)
  unfolding persist_start persist_switch active start switch
  persist_tracking_change self task worklog_id at = elim (active self.tracker) [
    | none ↦ persist_start self (start self.tracker task worklog_id at)
    | some _ ↦ persist_switch self at (switch self.tracker task worklog_id at)
  ]

  -- Adopting the candidate once it is stored.
  adopt_change :
      TaskId → Instant → App S (Tracker × SetActiveTaskOutcome) → App S SetActiveTaskOutcome
  unfolding note_work_start
  adopt_change task_id at (err error, self) = (err error, self)
  adopt_change task_id at (ok (candidate, outcome), self) =
      (ok outcome, note_work_start repo (record self { tracker = candidate }) task_id at)

  change_task :
      TrackerApplication S
      → TaskId
      → WorklogId
      → Instant
      → Option TaskListItem
      → App S SetActiveTaskOutcome
  unfolding adopt_change persist_tracking_change
  change_task self task_id worklog_id at none = (err (repository (task_not_found task_id)), self)
  change_task self task_id worklog_id at (some item) =
      adopt_change task_id at (persist_tracking_change self item.task worklog_id at)

  -- The tracker already runs this task, or it is to change.
  activate :
      TrackerApplication S
      → TaskId
      → WorklogId
      → Instant
      → Option ActiveWorklog
      → App S SetActiveTaskOutcome
  unfolding change_task find_item
  activate self task_id worklog_id at none =
      change_task self task_id worklog_id at (find_item task_id self.tasks)
  activate self task_id worklog_id at (some current) =
      if current.task_id == task_id
      then (ok (already_active current), self)
      else change_task self task_id worklog_id at (find_item task_id self.tasks)

  set_refreshed :
      TaskId
      → WorklogId
      → Option (Option WorklogId)
      → Instant
      → Option ActiveWorklog
      → App S (Unit {0})
      → App S SetActiveTaskOutcome
  unfolding reviewed_changed start_moved activate active
  set_refreshed task_id worklog_id expected at cached (err error, self) = (err error, self)
  set_refreshed task_id worklog_id expected at cached (ok _, self) =
      if reviewed_changed expected (active self.tracker)
      then (err tracking_state_changed, self)
      else if start_moved cached (active self.tracker)
      then (err tracking_state_changed, self)
      else activate self task_id worklog_id at (active self.tracker)

  unfoldable pub set_active_task_guarded :
      TrackerApplication S
      → TaskId
      → WorklogId
      → Option (Option WorklogId)
      → Instant
      → App S SetActiveTaskOutcome
  unfolding canonical_timestamp set_refreshed refresh_task_list active
  set_active_task_guarded self task_id worklog_id expected_active occurred_at =
      set_refreshed task_id worklog_id expected_active (canonical_timestamp occurred_at)
        (active self.tracker) (refresh_task_list repo self)

  confirm_stop :
      TrackerApplication S
      → Tracker
      → Worklog
      → Result RepositoryError Worklog × S
      → App S ClearActiveTaskOutcome
  unfolding failed_write
  confirm_stop self candidate worklog (ok _, s) =
      (ok (stopped worklog), record self { repository = s; tracker = candidate })
  confirm_stop self candidate worklog (err error, s) =
      failed_write (record self { repository = s }) error

  persist_stop :
      TrackerApplication S
      → Instant
      → Result TrackingError Worklog × Tracker
      → App S ClearActiveTaskOutcome
  unfolding confirm_stop
  persist_stop self at (err error, candidate) = (err (domain error), self)
  persist_stop self at (ok worklog, candidate) =
      confirm_stop self candidate worklog
        (repo.stop_worklog worklog.id worklog.start at self.repository)

  deactivate :
      TrackerApplication S
      → WorklogId
      → Instant
      → Option ActiveWorklog
      → App S ClearActiveTaskOutcome
  unfolding persist_stop stop
  deactivate self expected_active at none = (ok already_idle, self)
  deactivate self expected_active at (some current) =
      if not (current.id == expected_active)
      then (err tracking_state_changed, self)
      else persist_stop self at (stop self.tracker at)

  clear_refreshed :
      WorklogId → Instant → Option ActiveWorklog → App S (Unit {0}) → App S ClearActiveTaskOutcome
  unfolding start_moved deactivate active
  clear_refreshed expected_active at cached (err error, self) = (err error, self)
  clear_refreshed expected_active at cached (ok _, self) =
      if start_moved cached (active self.tracker)
      then (err tracking_state_changed, self)
      else deactivate self expected_active at (active self.tracker)

  unfoldable pub clear_active_task :
      TrackerApplication S → WorklogId → Instant → App S ClearActiveTaskOutcome
  unfolding canonical_timestamp clear_refreshed refresh_task_list active
  clear_active_task self expected_active occurred_at =
      clear_refreshed expected_active (canonical_timestamp occurred_at) (active self.tracker)
        (refresh_task_list repo self)
