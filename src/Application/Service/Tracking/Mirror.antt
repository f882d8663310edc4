-- ===== src/Application/Service/Tracking/Mirror.antt =====
-- The cached tracker and the worklog that the repository stores as active.
use time_tracker.Prelude.{
  ◌≡◌, refl, sym, ap, ◌∙◌, subst, Bool, true, false, Option, none, some, List, Result, ok, err,
  ◌==◌, if◌then◌else◌, Option-cases, Bool-cases, inl, inr,
}
use time_tracker.Domain.Values.{TaskId, WorklogId, Instant}
use time_tracker.Domain.TrackingError.{TrackingError}
use time_tracker.Domain.Task.{Task}
use time_tracker.Domain.Worklog.{Worklog}
use time_tracker.Domain.ActiveWorklog.{ActiveWorklog}
use time_tracker.Domain.Tracking.{Tracker, SwitchedWorklogs, active, start, switch}
use time_tracker.Application.Timestamps.{canonical_timestamp}
use time_tracker.Application.Model.{TaskListItem}
use time_tracker.Application.Repository.{RepositoryError, TrackerRepository}
use time_tracker.Application.Error.{tracking_state_changed}
use time_tracker.Application.Service.{
  TrackerApplication, find_item, tracker_from_active_worklog, adopt_state, adopt_load,
  refresh_task_list,
}
use time_tracker.Application.Service.Tracking.{
  start_moved, reviewed_changed, SetActiveTaskOutcome, App, confirm_start, persist_start,
  confirm_switch, persist_switch, persist_tracking_change, adopt_change, change_task, activate,
  set_refreshed, set_active_task_guarded,
}
use time_tracker.Application.Service.Tracking.Change.{Holds, Runs, begun, start-ok, switch-ok}
use time_tracker.Application.Service.Tracking.Contract.{
  IsTracking, resumed, Runs-tracked, Stored, Mirrors,
}

module _ {S : Type 0} (repo : TrackerRepository S) (Stores : S → Option Worklog → Type 0)
    (laws : IsTracking repo Stores) where
  state-Mirrors :
      (self : TrackerApplication S) (tasks : List TaskListItem) (worklog : Option Worklog)
      (r : Result TrackingError Tracker)
      → tracker_from_active_worklog worklog ≡ r
      → Stores self.repository worklog
      → Holds (Mirrors Stores) (adopt_state repo self tasks r)
  unfolding adopt_state
  state-Mirrors self tasks worklog (err e) h k = tt
  state-Mirrors self tasks worklog (ok t) h k =
      subst (Stores self.repository) (sym (resumed worklog t h)) k

  load-Mirrors :
      (self : TrackerApplication S)
      (r : Result RepositoryError (List TaskListItem × Option Worklog) × S)
      → repo.load_task_tracking_resources self.repository ≡ r
      → Holds (Mirrors Stores) (adopt_load repo self r)
  unfolding adopt_load
  load-Mirrors self (err e, s) h = tt
  load-Mirrors self (ok (items, worklog), s) h =
      state-Mirrors (record self { repository = s }) items worklog
        (tracker_from_active_worklog worklog) refl (laws.loads self.repository s items worklog h)

  refresh-Mirrors :
      (self : TrackerApplication S) → Holds (Mirrors Stores) (refresh_task_list repo self)
  unfolding refresh_task_list
  refresh-Mirrors self = load-Mirrors self (repo.load_task_tracking_resources self.repository) refl

  start-Mirrors :
      (task_id : TaskId) (id : WorklogId) (at : Instant) (self : TrackerApplication S)
      (p : Result TrackingError Worklog × Tracker)
      → ((w : Worklog) (t : Tracker)
          → p ≡ (ok w, t)
          → Runs t id task_id (canonical_timestamp at)
            × (w ≡ begun id task_id (canonical_timestamp at)))
      → Holds (Stored Stores) (persist_start repo self p)
  unfolding persist_start
  start-Mirrors task_id id at self (err e, t) h = tt
  start-Mirrors task_id id at self (ok w, t) h =
      confirmed (repo.insert_worklog w self.repository) refl
    where
      confirmed :
          (r : Result RepositoryError (Unit {0}) × S)
          → repo.insert_worklog w self.repository ≡ r
          → Holds (Stored Stores) (confirm_start repo self t w r)
      confirmed (ok tt, s) e =
          let (runs, begins) = h w t refl in
          subst (Stores s) (sym (Runs-tracked t id task_id (canonical_timestamp at) runs)) (
            laws.inserts self.repository s id task_id at
              (ap (λ (x : Worklog). repo.insert_worklog x self.repository) (sym begins) ∙ e))
      confirmed (err error, s) e = tt

  switch-Mirrors :
      (task_id : TaskId) (id : WorklogId) (at stop_at : Instant) (self : TrackerApplication S)
      (p : Result TrackingError SwitchedWorklogs × Tracker)
      → ((r : SwitchedWorklogs) (t : Tracker)
          → p ≡ (ok r, t)
          → Runs t id task_id (canonical_timestamp at)
            × (r.started ≡ begun id task_id (canonical_timestamp at)))
      → Holds (Stored Stores) (persist_switch repo self stop_at p)
  unfolding persist_switch
  switch-Mirrors task_id id at stop_at self (err e, t) h = tt
  switch-Mirrors task_id id at stop_at self (ok r, t) h =
      confirmed (repo.switch_worklog r.stopped.id r.stopped.start stop_at r.started self.repository)
        refl
    where
      confirmed :
          (q : Result RepositoryError (Unit {0}) × S)
          → repo.switch_worklog r.stopped.id r.stopped.start stop_at r.started self.repository ≡ q
          → Holds (Stored Stores) (confirm_switch repo self t r q)
      confirmed (ok tt, s) e =
          let (runs, begins) = h r t refl in
          subst (Stores s) (sym (Runs-tracked t id task_id (canonical_timestamp at) runs)) (
            laws.switches self.repository s r.stopped.id r.stopped.start stop_at id task_id at (
              ap
                (λ (x : Worklog).
                  repo.switch_worklog r.stopped.id r.stopped.start stop_at x self.repository)
                (sym begins)
              ∙ e))
      confirmed (err error, s) e = tt

  persist-Mirrors :
      (task : Task) (id : WorklogId) (at : Instant) (self : TrackerApplication S)
      → Holds (Stored Stores) (persist_tracking_change repo self task id (canonical_timestamp at))
  unfolding persist_tracking_change
  persist-Mirrors task id at self = elim (Option-cases (active self.tracker)) [
    | inl e ↦
        rw (e, persist_tracking_change)
          (start-Mirrors task.id id at self (start self.tracker task id (canonical_timestamp at))
            λ w t h. start-ok self.tracker.state task id (canonical_timestamp at) w t h)
    | inr (a, e) ↦
        rw (e, persist_tracking_change)
          (switch-Mirrors task.id id at (canonical_timestamp at) self
            (switch self.tracker task id (canonical_timestamp at))
            λ r t h.
              let (runs, begins, _, _) =
                switch-ok self.tracker.state task id (canonical_timestamp at) r t h in
              (runs, begins))
  ]

  adopt-Mirrors :
      (task_id : TaskId) (at : Instant) (p : App S (Tracker × SetActiveTaskOutcome))
      → Holds (Stored Stores) p
      → Holds (Mirrors Stores) (adopt_change repo task_id at p)
  unfolding adopt_change
  adopt-Mirrors task_id at (ok (c, o), self) h = h
  adopt-Mirrors task_id at (err e, self) h = tt

  change-Mirrors :
      (self : TrackerApplication S) (task_id : TaskId) (id : WorklogId) (at : Instant)
      (item : Option TaskListItem)
      → Holds (Mirrors Stores) (change_task repo self task_id id (canonical_timestamp at) item)
  unfolding change_task
  change-Mirrors self task_id id at none = tt
  change-Mirrors self task_id id at (some item) =
      adopt-Mirrors task_id (canonical_timestamp at) _ (persist-Mirrors item.task id at self)

  activate-Mirrors :
      (self : TrackerApplication S) (task_id : TaskId) (id : WorklogId) (at : Instant)
      (current : Option ActiveWorklog)
      → Mirrors Stores tt self
      → Holds (Mirrors Stores) (activate repo self task_id id (canonical_timestamp at) current)
  unfolding activate
  activate-Mirrors self task_id id at none m = change-Mirrors self task_id id at _
  activate-Mirrors self task_id id at (some a) m = elim (Bool-cases (a.task_id == task_id)) [
    | inl e ↦ rw e m
    | inr e ↦ rw e (change-Mirrors self task_id id at (find_item task_id self.tasks))
  ]

  refreshed-Mirrors :
      (task_id : TaskId) (id : WorklogId) (expected : Option (Option WorklogId)) (at : Instant)
      (cached : Option ActiveWorklog) (p : App S (Unit {0}))
      → Holds (Mirrors Stores) p
      → Holds
          (Mirrors Stores)
          (set_refreshed repo task_id id expected (canonical_timestamp at) cached p)
  unfolding set_refreshed
  refreshed-Mirrors task_id id expected at cached (err e, self) m = tt
  refreshed-Mirrors task_id id expected at cached (ok _, self) m =
      guarded (reviewed_changed expected (active self.tracker))
        (start_moved cached (active self.tracker))
    where
      guarded :
          (a b : Bool)
          → Holds (Mirrors Stores) (
              if a
              then (err tracking_state_changed, self)
              else if b
              then (err tracking_state_changed, self)
              else activate repo self task_id id (canonical_timestamp at) (active self.tracker))
      guarded true b = tt
      guarded false true = tt
      guarded false false = activate-Mirrors self task_id id at (active self.tracker) m

  -- Over a repository that keeps its contract, when making a task active succeeds, the worklog
  -- that the repository stores as active is the one that the cached tracker runs.
  pub set_active_task-Mirrors :
      (self : TrackerApplication S) (task_id : TaskId) (id : WorklogId)
      (expected : Option (Option WorklogId)) (occurred_at : Instant)
      (outcome : SetActiveTaskOutcome) (after : TrackerApplication S)
      → set_active_task_guarded repo self task_id id expected occurred_at ≡ (ok outcome, after)
      → Mirrors Stores outcome after
  unfolding set_active_task_guarded
  set_active_task-Mirrors self task_id id expected occurred_at outcome after h =
      subst (Holds (Mirrors Stores)) h (
        refreshed-Mirrors task_id id expected occurred_at (active self.tracker)
          (refresh_task_list repo self) (refresh-Mirrors self))
