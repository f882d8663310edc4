-- ===== src/Storage/ServiceTests.antt =====
-- Runs of the application service over the SQLite repository.
use time_tracker.Prelude.{◌≡◌, refl, ◌⊎◌, none, some, List, [], ◌∷◌, ok, err}
use time_tracker.Prelude.Table.{find_row}
use time_tracker.Domain.Tests.{task, build, build-IsName}
use time_tracker.Domain.TaskName.{trim, is_whitespace, is_control}
use time_tracker.Domain.Tracking.{idle_tracker, running_tracker}
use time_tracker.Application.Timestamps.{canonical_timestamp}
use time_tracker.Application.Model.{TaskListItem}
use time_tracker.Application.Error.{tracking_state_changed}
use time_tracker.Application.Service.{TrackerApplication}
use time_tracker.Application.Service.Tracking.{started, set_active_task_guarded, clear_active_task}
use time_tracker.Application.Service.Tracking.Change.{IsChange, begun}
use time_tracker.Application.Service.Tracking.Outcome.{set_active_task-IsChange}
use time_tracker.Application.Service.Tracking.Failure.{
  IsLoaded, set_active_task-err, clear_active_task-err,
}
use time_tracker.Application.Repository.{TrackerRepository}
use time_tracker.Application.Service.Requests.{
  ServiceRequest, AreServiceRequests, create_task, set_active_task, archive_task, rename_task,
}
use time_tracker.Application.Service.Requests
use time_tracker.Application.Service.Catalog.Order.{IsCatalog}
use time_tracker.Storage.Mapping.{min_timestamp_us, max_timestamp_us, id_count}
use time_tracker.Storage.Schema.{Database}
use time_tracker.Storage.Invariant.{IsConsistent, empty_database}
use time_tracker.Storage.Repository.Catalogue.{run-IsCatalog}
use time_tracker.Storage.Repository.{sqlite_repository}
use time_tracker.Storage.Repository.Laws.{Stores, sqlite_repository-IsTracking}
use time_tracker.Application.Service.Tracking.Contract.{IsTracking, Mirrors}
use time_tracker.Application.Service.Tracking.Mirror.{set_active_task-Mirrors}
use time_tracker.Storage.Tests.{first_reported, stored}

abbrev repo : TrackerRepository Database
repo = sqlite_repository (λ e. []) (λ f. [])

abbrev application : TrackerApplication Database
application = record { repository = stored; tasks = []; tracker = idle_tracker }

abbrev item : TaskListItem
item = record {
  task = record task {
    created_at = 1_000_000_000_000_000_000_000;
    updated_at = 1_000_000_000_000_000_000_000;
  };
  latest_work_start = some 1_000_000_000_000_000_095_000;
}

abbrev after : TrackerApplication Database
after = record {
  repository = record stored {
    worklogs =
        record { id = 9; task_id = 1; start_us = 1_000_000_000_000_000_095; end_us = none }
        ∷ stored.worklogs;
    global_worklog_revision = 3;
  };
  tasks = item ∷ [];
  tracker = running_tracker (record { id = 9; task_id = 1; start = 1_000_000_000_000_000_095_000 });
}

activated :
    set_active_task_guarded repo application 1 9 none 1_000_000_000_000_000_095_500
    ≡ (ok (started (begun 9 1 1_000_000_000_000_000_095_000)), after)
unfolding set_active_task_guarded sqlite_repository find_row trim is_whitespace is_control
    min_timestamp_us max_timestamp_us id_count
activated = refl

active_example :
    IsChange 1 9
      (canonical_timestamp 1_000_000_000_000_000_095_500)
      (started (begun 9 1 1_000_000_000_000_000_095_000))
      after.tracker
active_example =
    set_active_task-IsChange repo application 1 9 none 1_000_000_000_000_000_095_500
      (started (begun 9 1 1_000_000_000_000_000_095_000)) after activated

abbrev refreshed : TrackerApplication Database
refreshed = record application {
  tasks = record item { latest_work_start = some 1_000_000_000_000_000_020_000 } ∷ [];
}

-- The caller reviewed another active worklog.
stale :
    set_active_task_guarded repo application 1 9 (some (some 4)) 1_000_000_000_000_000_095_500
    ≡ (err tracking_state_changed, refreshed)
unfolding set_active_task_guarded sqlite_repository find_row trim is_whitespace is_control
    min_timestamp_us max_timestamp_us id_count
stale = refl

kept_example : (refreshed.tracker ≡ application.tracker) ⊎ IsLoaded repo refreshed.tracker
kept_example =
    set_active_task-err repo application 1 9 (some (some 4)) 1_000_000_000_000_000_095_500
      tracking_state_changed refreshed stale

stale_clear :
    clear_active_task repo after 4 1_000_000_000_000_000_099_000
    ≡ (err tracking_state_changed, after)
unfolding clear_active_task sqlite_repository find_row trim is_whitespace is_control
    min_timestamp_us max_timestamp_us id_count
stale_clear = refl

clear_example : (after.tracker ≡ after.tracker) ⊎ IsLoaded repo after.tracker
clear_example =
    clear_active_task-err repo after 4 1_000_000_000_000_000_099_000 tracking_state_changed after
      stale_clear

contract_example : IsTracking repo Stores
contract_example = sqlite_repository-IsTracking (λ e. []) (λ f. [])

mirror_example : Mirrors Stores (started (begun 9 1 1_000_000_000_000_000_095_000)) after
mirror_example =
    set_active_task-Mirrors repo Stores contract_example application 1 9 none
      1_000_000_000_000_000_095_500 (started (begun 9 1 1_000_000_000_000_000_095_000)) after
      activated

-- The archive is of an active task and fails.
abbrev service_requests : List ServiceRequest
service_requests =
    create_task 3 build 1_000_000_000_000_000_010_000
    ∷ create_task 2 build 1_000_000_000_000_000_020_000
    ∷ set_active_task 3 9 none 1_000_000_000_000_000_030_000
    ∷ archive_task 3 1_000_000_000_000_000_040_000
    ∷ rename_task 2 build 1_000_000_000_000_000_050_000
    ∷ []

are_service_requests : AreServiceRequests service_requests
are_service_requests = (build-IsName, (build-IsName, (tt, (tt, (build-IsName, tt)))))

served_example :
    let after =
      Requests.run repo
        (record { repository = empty_database; tasks = []; tracker = idle_tracker })
        service_requests in
    IsConsistent after.repository × IsCatalog after.tasks
served_example =
    run-IsCatalog (λ e. []) (λ f. []) idle_tracker service_requests are_service_requests
