-- ===== src/Application/Service/Tracking/Catalogued.antt =====
-- The tracking commands keep the cached task list in order.
use time_tracker.Prelude.{Bool, true, false, Option, none, some, Result, ok, err, if◌then◌else◌}
use time_tracker.Domain.Values.{TaskId, WorklogId, Instant}
use time_tracker.Domain.TrackingError.{TrackingError}
use time_tracker.Domain.Task.{Task}
use time_tracker.Domain.Worklog.{Worklog}
use time_tracker.Domain.ActiveWorklog.{ActiveWorklog}
use time_tracker.Domain.Tracking.{Tracker, SwitchedWorklogs, active, start, stop, switch}
use time_tracker.Application.Timestamps.{canonical_timestamp}
use time_tracker.Application.Model.{TaskListItem}
use time_tracker.Application.Error.{tracking_state_changed}
use time_tracker.Application.Repository.{RepositoryError, TrackerRepository}
use time_tracker.Application.Service.{
  TrackerApplication, find_item, recovered, recover_after_tracking_write, note_work_start,
  refresh_task_list,
}
use time_tracker.Application.Service.Tracking.{
  reviewed_changed, start_moved, ClearActiveTaskOutcome, App, SetActiveTaskOutcome, failed_write,
  confirm_start, persist_start, confirm_switch, persist_switch, persist_tracking_change,
  adopt_change, change_task, activate, set_refreshed, set_active_task_guarded, confirm_stop,
  persist_stop, deactivate, clear_refreshed, clear_active_task,
}
use time_tracker.Application.Service.Command.Keeps.{Keeps}
use time_tracker.Application.Service.Catalog.Order.{noted-IsCatalog}
use time_tracker.Application.Service.Requests.Contract.{IsCatalogue}
use time_tracker.Application.Service.Requests.Reload.{Catalogued, refresh-Keeps}

module _ {S : Type 0} (repo : TrackerRepository S) (Valid : S → Type 0)
    (laws : IsCatalogue repo Valid) where
  -- The application behind a command that has run.
  abbrev Lands : {A : Type 0} → App S A → Type 0
  Lands r = Catalogued Valid r.1

  failed_write-Lands :
      (A : Type 0) (self : TrackerApplication S) (error : RepositoryError)
      → Catalogued Valid self
      → Lands (failed_write repo {A = A} self error)
  unfolding failed_write recover_after_tracking_write
  failed_write-Lands A self error h =
      both (refresh_task_list repo self) ((refresh-Keeps Valid repo laws).at self h)
    where
      both : (r : App S (Unit {0})) → Lands r → Catalogued Valid (recovered repo error r).1
      both (ok _, after) q = q
      both (err e, after) q = q

  start-Lands :
      (self : TrackerApplication S) (p : Result TrackingError Worklog × Tracker)
      → Catalogued Valid self
      → Lands (persist_start repo self p)
  unfolding persist_start
  start-Lands self (err e, t) h = h
  start-Lands self (ok w, t) (v, c) =
      both (repo.insert_worklog w self.repository) (laws.insert_worklog w self.repository v)
    where
      both :
          (r : Result RepositoryError (Unit {0}) × S)
          → Valid r.1
          → Lands (confirm_start repo self t w r)
      both (ok _, s) v' = (v', c)
      both (err e, s) v' =
          failed_write-Lands (Tracker × SetActiveTaskOutcome) (record self { repository = s }) e
            (v', c)

  switch-Lands :
      (self : TrackerApplication S) (at : Instant)
      (p : Result TrackingError SwitchedWorklogs × Tracker)
      → Catalogued Valid self
      → Lands (persist_switch repo self at p)
  unfolding persist_switch
  switch-Lands self at (err e, t) h = h
  switch-Lands self at (ok w, t) (v, c) =
      both (repo.switch_worklog w.stopped.id w.stopped.start at w.started self.repository)
        (laws.switch_worklog w.stopped.id w.stopped.start at w.started self.repository v)
    where
      both :
          (r : Result RepositoryError (Unit {0}) × S)
          → Valid r.1
          → Lands (confirm_switch repo self t w r)
      both (ok _, s) v' = (v', c)
      both (err e, s) v' =
          failed_write-Lands (Tracker × SetActiveTaskOutcome) (record self { repository = s }) e
            (v', c)

  persist-Lands :
      (self : TrackerApplication S) (task : Task) (id : WorklogId) (at : Instant)
      → Catalogued Valid self
      → Lands (persist_tracking_change repo self task id at)
  unfolding persist_tracking_change
  persist-Lands self task id at h = both (active self.tracker)
    where
      both :
          (o : Option ActiveWorklog)
          → Lands (elim o [
            | none ↦ persist_start repo self (start self.tracker task id at)
            | some _ ↦ persist_switch repo self at (switch self.tracker task id at)
          ])
      both none = start-Lands self (start self.tracker task id at) h
      both (some w) = switch-Lands self at (switch self.tracker task id at) h

  adopt-Lands :
      (task_id : TaskId) (at : Instant) (r : App S (Tracker × SetActiveTaskOutcome))
      → Lands r
      → Lands (adopt_change repo task_id at r)
  unfolding adopt_change note_work_start
  adopt-Lands task_id at (ok (candidate, outcome), self) (v, c) =
      (v, noted-IsCatalog task_id at self.tasks c)
  adopt-Lands task_id at (err e, self) h = h

  change-Lands :
      (self : TrackerApplication S) (task_id : TaskId) (id : WorklogId) (at : Instant)
      (o : Option TaskListItem)
      → Catalogued Valid self
      → Lands (change_task repo self task_id id at o)
  unfolding change_task
  change-Lands self task_id id at none h = h
  change-Lands self task_id id at (some item) h =
      adopt-Lands task_id at (persist_tracking_change repo self item.task id at)
        (persist-Lands self item.task id at h)

  if-Lands :
      {A : Type 0} (b : Bool) (x y : App S A) → Lands x → Lands y → Lands (if b then x else y)
  if-Lands true x y h k = h
  if-Lands false x y h k = k

  activate-Lands :
      (self : TrackerApplication S) (task_id : TaskId) (id : WorklogId) (at : Instant)
      (o : Option ActiveWorklog)
      → Catalogued Valid self
      → Lands (activate repo self task_id id at o)
  unfolding activate
  activate-Lands self task_id id at none h =
      change-Lands self task_id id at (find_item task_id self.tasks) h
  activate-Lands self task_id id at (some current) h =
      if-Lands _ _ _ h (change-Lands self task_id id at (find_item task_id self.tasks) h)

  pub set_active-Keeps :
      (task_id : TaskId) (id : WorklogId) (expected : Option (Option WorklogId)) (at : Instant)
      → Keeps (Catalogued Valid) (λ self. set_active_task_guarded repo self task_id id expected at)
  unfolding set_active_task_guarded
  set_active-Keeps task_id id expected at = record {
    at = λ self h.
        refreshed (active self.tracker) (refresh_task_list repo self)
          ((refresh-Keeps Valid repo laws).at self h);
  }
    where
      refreshed :
          (cached : Option ActiveWorklog) (r : App S (Unit {0}))
          → Lands r
          → Lands (set_refreshed repo task_id id expected (canonical_timestamp at) cached r)
      refreshed cached (err e, self) h = h
      refreshed cached (ok _, self) h =
          if-Lands (reviewed_changed expected (active self.tracker)) _
            (if start_moved cached (active self.tracker)
              then (err tracking_state_changed, self)
              else activate repo self task_id id (canonical_timestamp at) (active self.tracker))
            h
            (if-Lands _ _ _ h
              (activate-Lands self task_id id (canonical_timestamp at) (active self.tracker) h))

  stop-Lands :
      (self : TrackerApplication S) (at : Instant) (p : Result TrackingError Worklog × Tracker)
      → Catalogued Valid self
      → Lands (persist_stop repo self at p)
  unfolding persist_stop
  stop-Lands self at (err e, t) h = h
  stop-Lands self at (ok w, t) (v, c) =
      both (repo.stop_worklog w.id w.start at self.repository)
        (laws.stop_worklog w.id w.start at self.repository v)
    where
      both :
          (r : Result RepositoryError Worklog × S)
          → Valid r.1
          → Lands (confirm_stop repo self t w r)
      both (ok _, s) v' = (v', c)
      both (err e, s) v' =
          failed_write-Lands ClearActiveTaskOutcome (record self { repository = s }) e (v', c)

  deactivate-Lands :
      (self : TrackerApplication S) (expected : WorklogId) (at : Instant) (o : Option ActiveWorklog)
      → Catalogued Valid self
      → Lands (deactivate repo self expected at o)
  unfolding deactivate
  deactivate-Lands self expected at none h = h
  deactivate-Lands self expected at (some current) h =
      if-Lands _ _ _ h (stop-Lands self at (stop self.tracker at) h)

  pub clear_active-Keeps :
      (expected : WorklogId) (at : Instant)
      → Keeps (Catalogued Valid) (λ self. clear_active_task repo self expected at)
  unfolding clear_active_task
  clear_active-Keeps expected at = record {
    at = λ self h.
        refreshed (active self.tracker) (refresh_task_list repo self)
          ((refresh-Keeps Valid repo laws).at self h);
  }
    where
      refreshed :
          (cached : Option ActiveWorklog) (r : App S (Unit {0}))
          → Lands r
          → Lands (clear_refreshed repo expected (canonical_timestamp at) cached r)
      refreshed cached (err e, self) h = h
      refreshed cached (ok _, self) h =
          if-Lands _ _ _ h
            (deactivate-Lands self expected (canonical_timestamp at) (active self.tracker) h)
