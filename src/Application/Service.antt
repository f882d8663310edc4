-- ===== src/Application/Service.antt =====
-- `TrackerApplication` of crates/tracker-application/src/service/mod.rs: the cached task list and
-- tracker over a repository, and their refresh. A method on `&mut self` returns its result and the
-- application behind it.
pub mod Tracking
pub mod Command
pub mod Catalog
pub mod Tasks
pub mod Worklogs
pub mod Requests
use Prim.Native.Nat.{max}
use time_tracker.Prelude.{
  ℕ, Bool, true, false, Option, none, some, List, [], ◌∷◌, Result, ok, err, ltb, ◌==◌,
  if◌then◌else◌,
}
use time_tracker.Prelude.Sort.{sort}
use time_tracker.Domain.Values.{TaskId, Instant}
use time_tracker.Domain.TrackingError.{TrackingError}
use time_tracker.Domain.Worklog.{Worklog}
use time_tracker.Domain.Tracking.{Tracker, idle_tracker, resume}
use time_tracker.Application.Model.{TaskListItem}
use time_tracker.Application.Error.{
  ApplicationError, domain, repository, tracking_write, tracking_recovery, tracking_state_changed,
}
use time_tracker.Application.Repository.{
  RepositoryError, worklog_changed, corrupt_data, TrackerRepository,
}

pub record TrackerApplication (S : Type 0) : Type 0 where
  pub repository : S
  pub tasks : List TaskListItem
  pub tracker : Tracker

abbrev pub by_item_id : TaskListItem → TaskListItem → Bool
by_item_id a b = ltb a.task.id b.task.id

unfoldable pub tracker_from_active_worklog : Option Worklog → Result TrackingError Tracker
unfolding resume
tracker_from_active_worklog none = ok idle_tracker
tracker_from_active_worklog (some worklog) = resume worklog

unfoldable pub find_item : TaskId → List TaskListItem → Option TaskListItem
find_item id [] = none
find_item id (item ∷ items) = if item.task.id == id then some item else find_item id items

-- `Some(item.latest_work_start.map_or(at, |old| old.max(at)))` of the first item with the id.
unfoldable pub noted : TaskId → Instant → List TaskListItem → List TaskListItem
noted id at [] = []
noted id at (item ∷ items) =
    let rest = noted id at items in
    if item.task.id == id
    then record item {
      latest_work_start = some (elim item.latest_work_start [ none ↦ at | some old ↦ max old at ]);
    }
      ∷ items
    else item ∷ rest

-- The text "active worklog".
abbrev pub active_worklog_field : List ℕ
active_worklog_field =
    97 ∷ 99 ∷ 116 ∷ 105 ∷ 118 ∷ 101 ∷ 32 ∷ 119 ∷ 111 ∷ 114 ∷ 107 ∷ 108 ∷ 111 ∷ 103 ∷ []

unfoldable pub reload_error : ApplicationError → RepositoryError
reload_error (repository error) = error
reload_error _ = corrupt_data active_worklog_field

-- The error of a failed write after a reload that succeeded.
unfoldable pub write_failure : RepositoryError → ApplicationError
write_failure (worklog_changed id) = tracking_state_changed
write_failure error = tracking_write error

module _ {S : Type 0} (repo : TrackerRepository S) where
  adopt_state :
      TrackerApplication S
      → List TaskListItem
      → Result TrackingError Tracker
      → Result ApplicationError (Unit {0}) × TrackerApplication S
  unfolding sort
  adopt_state self tasks (err error) = (err (domain error), self)
  adopt_state self tasks (ok tracker) =
      (ok tt, record self { tasks = sort by_item_id tasks; tracker = tracker })

  unfoldable pub adopt_task_tracking_resources :
      TrackerApplication S
      → List TaskListItem
      → Option Worklog
      → Result ApplicationError (Unit {0}) × TrackerApplication S
  unfolding adopt_state tracker_from_active_worklog
  adopt_task_tracking_resources self tasks active_worklog =
      adopt_state self tasks (tracker_from_active_worklog active_worklog)

  adopt_load :
      TrackerApplication S
      → Result RepositoryError (List TaskListItem × Option Worklog) × S
      → Result ApplicationError (Unit {0}) × TrackerApplication S
  unfolding adopt_task_tracking_resources
  adopt_load self (err error, s) = (err (repository error), record self { repository = s })
  adopt_load self (ok (tasks, active_worklog), s) =
      adopt_task_tracking_resources (record self { repository = s }) tasks active_worklog

  unfoldable pub refresh_task_list :
      TrackerApplication S → Result ApplicationError (Unit {0}) × TrackerApplication S
  unfolding adopt_load
  refresh_task_list self = adopt_load self (repo.load_task_tracking_resources self.repository)

  recovered :
      RepositoryError
      → Result ApplicationError (Unit {0}) × TrackerApplication S
      → ApplicationError × TrackerApplication S
  unfolding write_failure reload_error
  recovered write_error (ok _, self) = (write_failure write_error, self)
  recovered write_error (err error, self) = (tracking_recovery (reload_error error), self)

  unfoldable pub recover_after_tracking_write :
      TrackerApplication S → RepositoryError → ApplicationError × TrackerApplication S
  unfolding recovered refresh_task_list
  recover_after_tracking_write self write_error = recovered write_error (refresh_task_list self)

  unfoldable pub note_work_start : TrackerApplication S → TaskId → Instant → TrackerApplication S
  unfolding noted
  note_work_start self task_id at = record self { tasks = noted task_id at self.tasks }
