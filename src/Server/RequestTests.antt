-- ===== src/Server/RequestTests.antt =====
-- A history of requests to a server over an empty database.
use time_tracker.Prelude.{none, some, List, [], ◌∷◌}
use time_tracker.Prelude.Text.{codes}
use time_tracker.Domain.Values.{Instant}
use time_tracker.Domain.Tracking.{idle_tracker}
use time_tracker.Application.Error.Tests.{silent}
use time_tracker.Application.Service.Catalog.Order.{IsCatalog}
use time_tracker.Storage.Invariant.{IsConsistent, empty_database}
use time_tracker.Storage.Repository.{sqlite_repository}
use time_tracker.Storage.Tests.{first_reported}
use time_tracker.Remote.Tests.{wire}
use time_tracker.Server.Core.{new}
use time_tracker.Server.Core.Bounded.{IsBounded}
use time_tracker.Server.Commands.{
  ServerRequest, create_task, change_task, archive, set_tracking, guard_of,
}
use time_tracker.Server.Requests.{serve}
use time_tracker.Server.Requests.Served.{serve-keeps}

abbrev created : ServerRequest
created = create_task (record {
  task_id = 3 ∷ [];
  name = codes "build";
  occurred_at = 1_000_000_000_000_000_010_000;
  request_id = 1 ∷ [];
})

-- The second request repeats the first, the fourth archives a task that is active, and the last one
-- has no identifier.
abbrev requests : List (Instant × ServerRequest)
requests =
    (1_000_000_000_000_000_020_000, created)
    ∷ (1_000_000_000_000_000_021_000, created)
    ∷ (
      1_000_000_000_000_000_030_000,
      set_tracking (record {
        task_id = some (3 ∷ []);
        worklog_id = some (9 ∷ []);
        expected_active = none;
        occurred_at = 1_000_000_000_000_000_030_000;
        request_id = 2 ∷ [];
      }),
    )
    ∷ (
      1_000_000_000_000_000_040_000,
      change_task (3 ∷ []) (archive none 1_000_000_000_000_000_040_000 (4 ∷ [])),
    )
    ∷ (
      1_000_000_000_000_000_050_000,
      change_task [] (archive none 1_000_000_000_000_000_050_000 (5 ∷ [])),
    )
    ∷ []

handled_example :
    let after =
      serve
        (sqlite_repository (λ e. []) (λ f. []))
        silent
        wire
        (λ e. [])
        []
        guard_of
        requests
        (new (record { repository = empty_database; tasks = []; tracker = idle_tracker })) in
    IsConsistent after.app.repository × IsCatalog after.app.tasks × IsBounded after
handled_example =
    serve-keeps (λ e. []) (λ f. []) silent wire (λ e. []) [] guard_of requests idle_tracker
