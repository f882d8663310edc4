-- ===== src/Server/Resources.antt =====
-- crates/tracker-server/src/resources.rs: the task list with its active worklog, read under one
-- lock..
pub mod RoundTrip
use time_tracker.Prelude.{List, map, Result, ok, err}
use time_tracker.Application.Error.{ApplicationError}
use time_tracker.Application.Error.Failure.{Display}
use time_tracker.Application.Ordering.{recently_created}
use time_tracker.Application.Repository.{TrackerRepository}
use time_tracker.Application.Service.{TrackerApplication, refresh_task_list}
use time_tracker.Application.Service.Tasks.{tasks}
use time_tracker.Remote.Protocol.{Wire, TaskListStateDto, item_dto}
use time_tracker.Server.Errors.{ApiError, api_error}
use time_tracker.Server.Core.{Core, active_worklog}

module _ {S : Type 0} (wire : Wire) where
  unfoldable pub task_list_state_dto : Core S → TaskListStateDto
  unfolding tasks item_dto active_worklog
  task_list_state_dto core = record {
    tasks = map (item_dto wire) (tasks core.app recently_created);
    active_worklog = active_worklog wire core;
  }

  module _ (repo : TrackerRepository S) (display : Display) where
    -- `?` behind the refresh.
    answered :
        Core S
        → Result ApplicationError (Unit {0}) × TrackerApplication S
        → Result ApiError TaskListStateDto × Core S
    unfolding task_list_state_dto api_error
    answered core (ok _, app) =
        let after = record core { app = app } in (ok (task_list_state_dto after), after)
    answered core (err error, app) = (err (api_error display error), record core { app = app })

    unfoldable pub task_list_state : Core S → Result ApiError TaskListStateDto × Core S
    unfolding answered refresh_task_list
    task_list_state core = answered core (refresh_task_list repo core.app)
