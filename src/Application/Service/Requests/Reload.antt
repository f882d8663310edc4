-- ===== src/Application/Service/Requests/Reload.antt =====
-- Adopting and reloading keep the cached task list in order.
use time_tracker.Prelude.{◌≡◌, refl, ap, Option, none, some, List, Result, ok, err}
use time_tracker.Domain.Values.{TaskId, Instant}
use time_tracker.Domain.TrackingError.{TrackingError}
use time_tracker.Domain.Worklog.{Worklog}
use time_tracker.Domain.ActiveWorklog.{ActiveWorklog}
use time_tracker.Domain.Tracking.{Tracker, active}
use time_tracker.Application.Model.{
  TaskListItem, ActiveTrackingRead, WorklogPageAdoption, WorklogMove, WorklogCorrection,
  WorklogDeletion,
}
use time_tracker.Application.Error.{ApplicationError, domain, with_recovery_failure}
use time_tracker.Application.Repository.{RepositoryError, TrackerRepository}
use time_tracker.Application.Service.{
  TrackerApplication, tracker_from_active_worklog, adopt_state, adopt_task_tracking_resources,
  adopt_load, refresh_task_list, reload_error,
}
use time_tracker.Application.Service.Command.{Command, fail}
use time_tracker.Application.Service.Command.Keeps.{
  Keeps, Keeps-pure, Keeps-fail, Keeps-modify, Keeps-from_result, Keeps-bind, Keeps-attempt,
}
use time_tracker.Application.Service.Catalog.{
  set_latest, adopt_task_item, update_tasks, set_tracker, adopt_active_worklog, adopt_worklog_page,
  adopt_tracking_read, adopt_worklog_correction, adopt_worklog_move, adopt_worklog_deletion,
  refresh_failure, recover_after_write, refresh_after_task_operation, task_failure_with_recovery,
}
use time_tracker.Application.Service.Catalog.Order.{
  IsCatalog, sort-IsCatalog, set_latest-IsCatalog, adopt_task_item-IsCatalog,
}
use time_tracker.Application.Service.Requests.Contract.{Lists, Preserves, IsCatalogue}

-- A valid repository, and the cached task list in order.
abbrev pub Catalogued : {S : Type 0} → (S → Type 0) → TrackerApplication S → Type 0
Catalogued Valid self = Valid self.repository × IsCatalog self.tasks

module _ {S : Type 0} (Valid : S → Type 0) where
  pub update-Keeps :
      (f : List TaskListItem → List TaskListItem)
      → ((items : List TaskListItem) → IsCatalog items → IsCatalog (f items))
      → Keeps (Catalogued Valid) (update_tasks f)
  update-Keeps f k = Keeps-modify (Catalogued Valid) _ (λ self (v, c). (v, k self.tasks c))

  pub tracker-Keeps : (tracker : Tracker) → Keeps (Catalogued Valid) (set_tracker tracker)
  tracker-Keeps tracker = Keeps-modify (Catalogued Valid) _ (λ self h. h)

  pub query-Keeps :
      {A : Type 0} (call : S → Result RepositoryError A × S)
      → Preserves Valid call
      → (self : TrackerApplication S) → Catalogued Valid self
      → Catalogued Valid (record self { repository = (call self.repository).1 })
  query-Keeps call k self (v, c) = (k self.repository v, c)

  latest-Keeps :
      (id : TaskId) (latest : Option Instant)
      → Keeps (Catalogued Valid) (update_tasks (set_latest id latest))
  latest-Keeps id latest = update-Keeps (set_latest id latest) (set_latest-IsCatalog id latest)

  active-Keeps :
      (active_worklog : Option Worklog) (latest : Option Instant)
      → Keeps (Catalogued Valid) (adopt_active_worklog active_worklog latest)
  unfolding adopt_active_worklog
  active-Keeps active_worklog latest =
      Keeps-bind (Catalogued Valid) _ _ (Keeps-from_result (Catalogued Valid) domain _) λ tracker.
        Keeps-bind (Catalogued Valid) _ _ (tracker-Keeps tracker)
          λ _. update-Keeps _ (λ items c. started (active tracker) items c)
    where
      started :
          (o : Option ActiveWorklog) (items : List TaskListItem)
          → IsCatalog items
          → IsCatalog (elim o [ none ↦ items | some w ↦ set_latest w.task_id latest items ])
      started none items c = c
      started (some w) items c = set_latest-IsCatalog w.task_id latest items c

  pub page-Keeps :
      (task_id : TaskId) (adoption : WorklogPageAdoption)
      → Keeps (Catalogued Valid) (adopt_worklog_page task_id adoption)
  unfolding adopt_worklog_page
  page-Keeps task_id adoption =
      Keeps-bind (Catalogued Valid) _ _ (latest-Keeps task_id _) λ _. active-Keeps _ _

  pub read-Keeps : (read : ActiveTrackingRead) → Keeps (Catalogued Valid) (adopt_tracking_read read)
  unfolding adopt_tracking_read
  read-Keeps read =
      Keeps-bind (Catalogued Valid) _ _ (Keeps-from_result (Catalogued Valid) domain _) λ tracker.
        Keeps-bind (Catalogued Valid) _ _
          (update-Keeps _ (λ items c. adopted read.active_task_item items c))
          λ _. tracker-Keeps tracker
    where
      adopted :
          (o : Option TaskListItem) (items : List TaskListItem)
          → IsCatalog items
          → IsCatalog (elim o [ none ↦ items | some item ↦ adopt_task_item item items ])
      adopted none items c = c
      adopted (some item) items c = adopt_task_item-IsCatalog item items c

  pub correction-Keeps :
      (correction : WorklogCorrection)
      → Keeps (Catalogued Valid) (adopt_worklog_correction correction)
  unfolding adopt_worklog_correction
  correction-Keeps correction =
      Keeps-bind (Catalogued Valid) _ _ (latest-Keeps _ _) λ _.
        Keeps-bind (Catalogued Valid) _ _ (active-Keeps _ _) λ _. Keeps-pure (Catalogued Valid) _

  pub move-Keeps :
      (source : TaskId) (movement : WorklogMove)
      → Keeps (Catalogued Valid) (adopt_worklog_move source movement)
  unfolding adopt_worklog_move
  move-Keeps source movement = Keeps-bind (Catalogued Valid) _ _ (latest-Keeps source _) λ _.
      Keeps-bind (Catalogued Valid) _ _ (latest-Keeps _ _) λ _.
        Keeps-bind (Catalogued Valid) _ _ (active-Keeps _ _) λ _. Keeps-pure (Catalogued Valid) _

  pub deletion-Keeps :
      (deletion : WorklogDeletion) → Keeps (Catalogued Valid) (adopt_worklog_deletion deletion)
  unfolding adopt_worklog_deletion
  deletion-Keeps deletion =
      Keeps-bind (Catalogued Valid) _ _ (latest-Keeps _ _) λ _. Keeps-pure (Catalogued Valid) _

  module _ (repo : TrackerRepository S) where
    pub resources-Keeps :
        (items : List TaskListItem) (worklog : Option Worklog)
        → Lists items
        → Keeps (Catalogued Valid) (λ self. adopt_task_tracking_resources repo self items worklog)
    unfolding adopt_task_tracking_resources
    resources-Keeps items worklog d = record {
      at = λ self h. resumed self (tracker_from_active_worklog worklog) h;
    }
      where
        resumed :
            (self : TrackerApplication S) (r : Result TrackingError Tracker)
            → Catalogued Valid self
            → Catalogued Valid (adopt_state repo self items r).1
        resumed self (ok t) (v, c) = (v, sort-IsCatalog items d)
        resumed self (err e) h = h

    module _ (laws : IsCatalogue repo Valid) where
      pub refresh-Keeps : Keeps (Catalogued Valid) (refresh_task_list repo)
      unfolding refresh_task_list
      refresh-Keeps = record {
        at = λ self h. loaded self (repo.load_task_tracking_resources self.repository) refl h;
      }
        where
          loaded :
              (self : TrackerApplication S)
              (r : Result RepositoryError (List TaskListItem × Option Worklog) × S)
              → repo.load_task_tracking_resources self.repository ≡ r
              → Catalogued Valid self
              → Catalogued Valid (adopt_load repo self r).1
          loaded self (ok (items, worklog), s) e (v, c) =
              (resources-Keeps items worklog
                  (laws.resources_lists self.repository v (items, worklog) (ap (λ p. p.0) e))).at
                (record self { repository = s })
                (rw (ap (λ p. p.1) e) at (laws.load_task_tracking_resources self.repository v), c)
          loaded self (err error, s) e (v, c) =
              (rw (ap (λ p. p.1) e) at (laws.load_task_tracking_resources self.repository v), c)

      pub recover-Keeps :
          {A : Type 0} (write_failed : RepositoryError → ApplicationError)
          (recovery_failed : RepositoryError → RepositoryError → ApplicationError)
          (write : RepositoryError)
          → Keeps
              (Catalogued Valid)
              (recover_after_write repo {A = A} write_failed recovery_failed write)
      unfolding recover_after_write
      recover-Keeps {A = A} write_failed recovery_failed write =
          Keeps-bind (Catalogued Valid) _ _ (Keeps-attempt (Catalogued Valid) _ refresh-Keeps) both
        where
          both :
              (r : Result ApplicationError (Unit {0}))
              → Keeps (Catalogued Valid) (elim r as (λ _. Command S A) [
                | ok _ ↦ fail (write_failed write)
                | err error ↦ fail (recovery_failed write (reload_error error))
              ])
          both (ok _) = Keeps-fail (Catalogued Valid) _
          both (err error) = Keeps-fail (Catalogued Valid) _

      pub after_task-Keeps : Keeps (Catalogued Valid) (refresh_after_task_operation repo)
      unfolding refresh_after_task_operation
      after_task-Keeps =
          Keeps-bind (Catalogued Valid) _ _ (Keeps-attempt (Catalogued Valid) _ refresh-Keeps)
            λ r. Keeps-from_result (Catalogued Valid) refresh_failure r

      pub task_failure-Keeps :
          {A : Type 0} (primary : ApplicationError)
          → Keeps (Catalogued Valid) (task_failure_with_recovery repo {A = A} primary)
      unfolding task_failure_with_recovery
      task_failure-Keeps {A = A} primary =
          Keeps-bind (Catalogued Valid) _ _ (Keeps-attempt (Catalogued Valid) _ after_task-Keeps)
            both
        where
          both :
              (r : Result ApplicationError (Unit {0}))
              → Keeps (Catalogued Valid) (elim r as (λ _. Command S A) [
                | ok _ ↦ fail primary
                | err failed ↦ fail (with_recovery_failure primary failed)
              ])
          both (ok _) = Keeps-fail (Catalogued Valid) _
          both (err failed) = Keeps-fail (Catalogued Valid) _
