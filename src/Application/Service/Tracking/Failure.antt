-- ===== src/Application/Service/Tracking/Failure.antt =====
-- What the cached tracker is after a tracking command that failed.
use time_tracker.Prelude.{
  ◌≡◌, refl, ◌⊎◌, inl, inr, Bool, true, false, Option, none, some, List, Result, ok, err, ◌==◌,
  if◌then◌else◌, Option-cases, Bool-cases, subst, not,
}
use time_tracker.Domain.Values.{TaskId, WorklogId, Instant}
use time_tracker.Domain.TrackingError.{TrackingError}
use time_tracker.Domain.Task.{Task}
use time_tracker.Domain.Worklog.{Worklog}
use time_tracker.Domain.ActiveWorklog.{ActiveWorklog}
use time_tracker.Domain.Tracking.{Tracker, SwitchedWorklogs, active, start, stop, switch}
use time_tracker.Application.Timestamps.{canonical_timestamp}
use time_tracker.Application.Model.{TaskListItem}
use time_tracker.Application.Repository.{RepositoryError, TrackerRepository}
use time_tracker.Application.Error.{ApplicationError, tracking_state_changed}
use time_tracker.Application.Service.{
  TrackerApplication, find_item, tracker_from_active_worklog, adopt_state, adopt_load,
  refresh_task_list, recovered, recover_after_tracking_write,
}
use time_tracker.Application.Service.Tracking.{
  start_moved, reviewed_changed, SetActiveTaskOutcome, ClearActiveTaskOutcome, App, failed_write,
  confirm_start, persist_start, confirm_switch, persist_switch, persist_tracking_change,
  adopt_change, change_task, activate, set_refreshed, set_active_task_guarded, confirm_stop,
  persist_stop, deactivate, clear_refreshed, clear_active_task,
}

-- A claim about the tracker that a failed command leaves behind.
abbrev Leaves : {S A : Type 0} → (Tracker → Type 0) → App S A → Type 0
Leaves P (ok a, self) = Unit {0}
Leaves P (err error, self) = P self.tracker

module _ {S : Type 0} (repo : TrackerRepository S) where
  -- The tracker of what the repository returned to a load.
  pub record IsLoaded (t : Tracker) : Type 0 where
    pub before : S
    pub after : S
    pub items : List TaskListItem
    pub worklog : Option Worklog
    pub loads : repo.load_task_tracking_resources before ≡ (ok (items, worklog), after)
    pub resumes : tracker_from_active_worklog worklog ≡ ok t

  module _ (P : Tracker → Type 0) (loaded : (t : Tracker) → IsLoaded t → P t) where
    state-kept :
        (self : TrackerApplication S) (tasks : List TaskListItem) (r : Result TrackingError Tracker)
        → P self.tracker
        → ((t : Tracker) → r ≡ ok t → P t)
        → P (adopt_state repo self tasks r).1.tracker
    unfolding adopt_state
    state-kept self tasks (err e) p k = p
    state-kept self tasks (ok t) p k = k t refl

    load-kept :
        (self : TrackerApplication S)
        (r : Result RepositoryError (List TaskListItem × Option Worklog) × S)
        → P self.tracker
        → ((items : List TaskListItem) (worklog : Option Worklog) (s : S) (t : Tracker)
            → r ≡ (ok (items, worklog), s)
            → tracker_from_active_worklog worklog ≡ ok t
            → P t)
        → P (adopt_load repo self r).1.tracker
    unfolding adopt_load
    load-kept self (err e, s) p k = p
    load-kept self (ok (items, worklog), s) p k =
        state-kept (record self { repository = s }) items (tracker_from_active_worklog worklog) p
          (λ t e. k items worklog s t refl e)

    refresh-kept :
        (self : TrackerApplication S) → P self.tracker → P (refresh_task_list repo self).1.tracker
    unfolding refresh_task_list
    refresh-kept self p =
        load-kept self (repo.load_task_tracking_resources self.repository) p
          λ items worklog s t e f. loaded t (record {
            before = self.repository;
            after = s;
            items = items;
            worklog = worklog;
            loads = e;
            resumes = f;
          })

    failed-kept :
        (A : Type 0) (self : TrackerApplication S) (error : RepositoryError)
        → P self.tracker
        → Leaves {A = A} P (failed_write repo self error)
    unfolding failed_write recover_after_tracking_write
    failed-kept A self error p = both (refresh_task_list repo self) (refresh-kept self p)
      where
        both :
            (r : Result ApplicationError (Unit {0}) × TrackerApplication S)
            → P r.1.tracker
            → P (recovered repo error r).1.tracker
        both (ok _, after) q = q
        both (err e, after) q = q

    start-kept :
        (self : TrackerApplication S) (p : Result TrackingError Worklog × Tracker)
        → P self.tracker
        → Leaves P (persist_start repo self p)
    unfolding persist_start
    start-kept self (err e, t) p = p
    start-kept self (ok w, t) p = confirmed (repo.insert_worklog w self.repository)
      where
        confirmed :
            (r : Result RepositoryError (Unit {0}) × S) → Leaves P (confirm_start repo self t w r)
        confirmed (ok _, s) = tt
        confirmed (err e, s) =
            failed-kept (Tracker × SetActiveTaskOutcome) (record self { repository = s }) e p

    switch-kept :
        (self : TrackerApplication S) (at : Instant)
        (p : Result TrackingError SwitchedWorklogs × Tracker)
        → P self.tracker
        → Leaves P (persist_switch repo self at p)
    unfolding persist_switch
    switch-kept self at (err e, t) p = p
    switch-kept self at (ok r, t) p =
        confirmed (repo.switch_worklog r.stopped.id r.stopped.start at r.started self.repository)
      where
        confirmed :
            (q : Result RepositoryError (Unit {0}) × S) → Leaves P (confirm_switch repo self t r q)
        confirmed (ok _, s) = tt
        confirmed (err e, s) =
            failed-kept (Tracker × SetActiveTaskOutcome) (record self { repository = s }) e p

    change-kept :
        (self : TrackerApplication S) (task : Task) (id : WorklogId) (at : Instant)
        → P self.tracker
        → Leaves P (persist_tracking_change repo self task id at)
    unfolding persist_tracking_change
    change-kept self task id at p = elim (Option-cases (active self.tracker)) [
      | inl e ↦ rw (e, persist_tracking_change) (start-kept self (start self.tracker task id at) p)
      | inr (a, e) ↦
          rw (e, persist_tracking_change) (switch-kept self at (switch self.tracker task id at) p)
    ]

    adopt-kept :
        (task_id : TaskId) (at : Instant) (r : App S (Tracker × SetActiveTaskOutcome))
        → Leaves P r
        → Leaves P (adopt_change repo task_id at r)
    unfolding adopt_change
    adopt-kept task_id at (ok (c, o), self) h = tt
    adopt-kept task_id at (err e, self) h = h

    task-kept :
        (self : TrackerApplication S) (task_id : TaskId) (id : WorklogId) (at : Instant)
        (item : Option TaskListItem)
        → P self.tracker
        → Leaves P (change_task repo self task_id id at item)
    unfolding change_task
    task-kept self task_id id at none p = p
    task-kept self task_id id at (some item) p =
        adopt-kept task_id at _ (change-kept self item.task id at p)

    activate-kept :
        (self : TrackerApplication S) (task_id : TaskId) (id : WorklogId) (at : Instant)
        (current : Option ActiveWorklog)
        → P self.tracker
        → Leaves P (activate repo self task_id id at current)
    unfolding activate
    activate-kept self task_id id at none p = task-kept self task_id id at _ p
    activate-kept self task_id id at (some a) p = elim (Bool-cases (a.task_id == task_id)) [
      | inl e ↦ rw e tt
      | inr e ↦ rw e (task-kept self task_id id at (find_item task_id self.tasks) p)
    ]

    refuse-kept :
        {A : Type 0} (test : Bool) (self : TrackerApplication S) (r : App S A)
        → P self.tracker
        → Leaves P r
        → Leaves P (if test then (err tracking_state_changed, self) else r)
    refuse-kept true self r p h = p
    refuse-kept false self r p h = h

    set-kept :
        (task_id : TaskId) (id : WorklogId) (expected : Option (Option WorklogId)) (at : Instant)
        (cached : Option ActiveWorklog) (r : App S (Unit {0}))
        → P r.1.tracker
        → Leaves P (set_refreshed repo task_id id expected at cached r)
    unfolding set_refreshed
    set-kept task_id id expected at cached (err e, self) p = p
    set-kept task_id id expected at cached (ok _, self) p =
        refuse-kept (reviewed_changed expected (active self.tracker)) self _ p (
          refuse-kept (start_moved cached (active self.tracker)) self _ p
            (activate-kept self task_id id at (active self.tracker) p))

    stop-kept :
        (self : TrackerApplication S) (at : Instant) (p : Result TrackingError Worklog × Tracker)
        → P self.tracker
        → Leaves P (persist_stop repo self at p)
    unfolding persist_stop
    stop-kept self at (err e, t) p = p
    stop-kept self at (ok w, t) p = confirmed (repo.stop_worklog w.id w.start at self.repository)
      where
        confirmed :
            (r : Result RepositoryError Worklog × S) → Leaves P (confirm_stop repo self t w r)
        confirmed (ok _, s) = tt
        confirmed (err e, s) =
            failed-kept ClearActiveTaskOutcome (record self { repository = s }) e p

    deactivate-kept :
        (self : TrackerApplication S) (expected : WorklogId) (at : Instant)
        (current : Option ActiveWorklog)
        → P self.tracker
        → Leaves P (deactivate repo self expected at current)
    unfolding deactivate
    deactivate-kept self expected at none p = tt
    deactivate-kept self expected at (some a) p =
        refuse-kept (not (a.id == expected)) self _ p (stop-kept self at (stop self.tracker at) p)

    clear-kept :
        (expected : WorklogId) (at : Instant) (cached : Option ActiveWorklog) (r : App S (Unit {0}))
        → P r.1.tracker
        → Leaves P (clear_refreshed repo expected at cached r)
    unfolding clear_refreshed
    clear-kept expected at cached (err e, self) p = p
    clear-kept expected at cached (ok _, self) p =
        refuse-kept (start_moved cached (active self.tracker)) self _ p
          (deactivate-kept self expected at (active self.tracker) p)

  -- When making a task active fails, the cached tracker is the one from before, or the one of what
  -- the repository returned to a load: a change that was not stored is never adopted.
  pub set_active_task-err :
      (self : TrackerApplication S) (task_id : TaskId) (id : WorklogId)
      (expected : Option (Option WorklogId)) (occurred_at : Instant) (error : ApplicationError)
      (after : TrackerApplication S)
      → set_active_task_guarded repo self task_id id expected occurred_at ≡ (err error, after)
      → (after.tracker ≡ self.tracker) ⊎ IsLoaded after.tracker
  unfolding set_active_task_guarded
  set_active_task-err self task_id id expected occurred_at error after h =
      subst (Leaves (λ t. (t ≡ self.tracker) ⊎ IsLoaded t)) h (
        set-kept (λ t. (t ≡ self.tracker) ⊎ IsLoaded t) (λ t l. inr l) task_id id expected
          (canonical_timestamp occurred_at) (active self.tracker) (refresh_task_list repo self)
          (refresh-kept (λ t. (t ≡ self.tracker) ⊎ IsLoaded t) (λ t l. inr l) self (inl refl)))

  -- When making the tracker idle fails, the cached tracker is the one from before, or the one of
  -- what the repository returned to a load: a stop that was not stored is never adopted.
  pub clear_active_task-err :
      (self : TrackerApplication S) (expected : WorklogId) (occurred_at : Instant)
      (error : ApplicationError) (after : TrackerApplication S)
      → clear_active_task repo self expected occurred_at ≡ (err error, after)
      → (after.tracker ≡ self.tracker) ⊎ IsLoaded after.tracker
  unfolding clear_active_task
  clear_active_task-err self expected occurred_at error after h =
      subst (Leaves (λ t. (t ≡ self.tracker) ⊎ IsLoaded t)) h (
        clear-kept (λ t. (t ≡ self.tracker) ⊎ IsLoaded t) (λ t l. inr l) expected
          (canonical_timestamp occurred_at) (active self.tracker) (refresh_task_list repo self)
          (refresh-kept (λ t. (t ≡ self.tracker) ⊎ IsLoaded t) (λ t l. inr l) self (inl refl)))
