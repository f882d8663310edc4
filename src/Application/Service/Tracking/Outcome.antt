-- ===== src/Application/Service/Tracking/Outcome.antt =====
-- What a successful tracking command says of the cached tracker, whatever the repository does.
use time_tracker.Prelude.{
  ◌<◌, ◌≡◌, refl, subst, inl, inr, Bool, true, false, Option, some, Result, ok, err, ◌==◌,
  if◌then◌else◌, Bool-cases, Option-cases, ==→eq,
}
use time_tracker.Domain.Values.{TaskId, WorklogId, Instant}
use time_tracker.Domain.TrackingError.{TrackingError}
use time_tracker.Domain.Task.{Task}
use time_tracker.Domain.Worklog.{Worklog}
use time_tracker.Domain.ActiveWorklog.{ActiveWorklog}
use time_tracker.Domain.Tracking.{Tracker, SwitchedWorklogs, active, start, switch}
use time_tracker.Application.Timestamps.{canonical_timestamp}
use time_tracker.Application.Repository.{RepositoryError, TrackerRepository}
use time_tracker.Application.Error.{tracking_state_changed}
use time_tracker.Application.Service.{TrackerApplication, find_item, refresh_task_list}
use time_tracker.Application.Service.Tracking.{
  start_moved, reviewed_changed, SetActiveTaskOutcome, App, confirm_start, persist_start,
  confirm_switch, persist_switch, persist_tracking_change, adopt_change, change_task, activate,
  set_refreshed, set_active_task_guarded,
}
use time_tracker.Application.Service.Tracking.Change.{
  Runs, begun, IsChange, Holds, start-ok, switch-ok, runs_active, find_item-id, Candidate, Final,
}

module _ {S : Type 0} (repo : TrackerRepository S) where
  persist_start-Holds :
      (task_id : TaskId) (id : WorklogId) (at : Instant) (self : TrackerApplication S)
      (p : Result TrackingError Worklog × Tracker)
      → ((w : Worklog) (t : Tracker)
          → p ≡ (ok w, t)
          → Runs t id task_id at × (w ≡ begun id task_id at))
      → Holds (Candidate task_id id at) (persist_start repo self p)
  unfolding persist_start
  persist_start-Holds task_id id at self (err e, t) h = tt
  persist_start-Holds task_id id at self (ok w, t) h =
      confirmed (repo.insert_worklog w self.repository)
    where
      confirmed :
          (r : Result RepositoryError (Unit {0}) × S)
          → Holds (Candidate task_id id at) (confirm_start repo self t w r)
      confirmed (ok _, s) = h w t refl
      confirmed (err e, s) = tt

  persist_switch-Holds :
      (task_id : TaskId) (id : WorklogId) (at : Instant) (self : TrackerApplication S)
      (p : Result TrackingError SwitchedWorklogs × Tracker)
      → ((r : SwitchedWorklogs) (t : Tracker)
          → p ≡ (ok r, t)
          → Runs t id task_id at
            × (r.started ≡ begun id task_id at)
            × (r.stopped.end ≡ some at)
            × (r.stopped.start < at))
      → Holds (Candidate task_id id at) (persist_switch repo self at p)
  unfolding persist_switch
  persist_switch-Holds task_id id at self (err e, t) h = tt
  persist_switch-Holds task_id id at self (ok r, t) h =
      confirmed (repo.switch_worklog r.stopped.id r.stopped.start at r.started self.repository)
    where
      confirmed :
          (q : Result RepositoryError (Unit {0}) × S)
          → Holds (Candidate task_id id at) (confirm_switch repo self t r q)
      confirmed (ok _, s) = h r t refl
      confirmed (err e, s) = tt

  persist-Holds :
      (task : Task) (id : WorklogId) (at : Instant) (self : TrackerApplication S)
      → Holds (Candidate task.id id at) (persist_tracking_change repo self task id at)
  unfolding persist_tracking_change
  persist-Holds task id at self = elim (Option-cases (active self.tracker)) [
    | inl e ↦
        rw (e, persist_tracking_change)
          (persist_start-Holds task.id id at self (start self.tracker task id at)
            λ w t h. start-ok self.tracker.state task id at w t h)
    | inr (a, e) ↦
        rw (e, persist_tracking_change)
          (persist_switch-Holds task.id id at self (switch self.tracker task id at)
            λ r t h. switch-ok self.tracker.state task id at r t h)
  ]

  adopt-Holds :
      (task_id : TaskId) (id : WorklogId) (at : Instant) (noted_id : TaskId)
      (p : App S (Tracker × SetActiveTaskOutcome))
      → Holds (Candidate task_id id at) p
      → Holds (Final task_id id at) (adopt_change repo noted_id at p)
  unfolding adopt_change
  adopt-Holds task_id id at noted_id (ok (c, o), self) h = h
  adopt-Holds task_id id at noted_id (err e, self) h = tt

  change-Holds :
      (self : TrackerApplication S) (task_id : TaskId) (id : WorklogId) (at : Instant)
      → Holds
          (Final task_id id at)
          (change_task repo self task_id id at (find_item task_id self.tasks))
  unfolding change_task
  change-Holds self task_id id at = elim (Option-cases (find_item task_id self.tasks)) [
    | inl e ↦ rw e tt
    | inr (item, e) ↦ rw e (
        adopt-Holds task_id id at task_id _ (
          subst
            (λ (t : TaskId).
              Holds (Candidate t id at) (persist_tracking_change repo self item.task id at))
            (find_item-id task_id self.tasks item e) (persist-Holds item.task id at self)))
  ]

  activate-Holds :
      (self : TrackerApplication S) (task_id : TaskId) (id : WorklogId) (at : Instant)
      → Holds (Final task_id id at) (activate repo self task_id id at (active self.tracker))
  unfolding activate
  activate-Holds self task_id id at = elim (Option-cases (active self.tracker)) [
    | inl e ↦ rw (e, activate) (change-Holds self task_id id at)
    | inr (a, e) ↦ elim (Bool-cases (a.task_id == task_id)) [
      | inl q ↦ rw (e, activate, q) (runs_active self.tracker.state a e, ==→eq _ _ q)
      | inr q ↦ rw (e, activate, q) (change-Holds self task_id id at)
    ]
  ]

  refreshed-Holds :
      (task_id : TaskId) (id : WorklogId) (expected : Option (Option WorklogId)) (at : Instant)
      (cached : Option ActiveWorklog) (p : App S (Unit {0}))
      → Holds (Final task_id id at) (set_refreshed repo task_id id expected at cached p)
  unfolding set_refreshed
  refreshed-Holds task_id id expected at cached (err e, self) = tt
  refreshed-Holds task_id id expected at cached (ok _, self) =
      guarded (reviewed_changed expected (active self.tracker))
        (start_moved cached (active self.tracker))
    where
      guarded :
          (a b : Bool)
          → Holds (Final task_id id at) (
              if a
              then (err tracking_state_changed, self)
              else if b
              then (err tracking_state_changed, self)
              else activate repo self task_id id at (active self.tracker))
      guarded true b = tt
      guarded false true = tt
      guarded false false = activate-Holds self task_id id at

  -- When making a task active succeeds, the cached tracker runs that task, whatever the repository
  -- answered: a started or switched worklog has the given identifier and starts at the time of the
  -- operation in microseconds, where the stopped one ends, having started before; otherwise the
  -- outcome is the worklog of that task that was active already.
  pub set_active_task-IsChange :
      (self : TrackerApplication S) (task_id : TaskId) (id : WorklogId)
      (expected : Option (Option WorklogId)) (occurred_at : Instant)
      (outcome : SetActiveTaskOutcome) (after : TrackerApplication S)
      → set_active_task_guarded repo self task_id id expected occurred_at ≡ (ok outcome, after)
      → IsChange task_id id (canonical_timestamp occurred_at) outcome after.tracker
  unfolding set_active_task_guarded
  set_active_task-IsChange self task_id id expected occurred_at outcome after h =
      subst (Holds (Final task_id id (canonical_timestamp occurred_at))) h (
        refreshed-Holds task_id id expected (canonical_timestamp occurred_at) (active self.tracker)
          (refresh_task_list repo self))
