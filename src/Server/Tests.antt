-- ===== src/Server/Tests.antt =====
-- A server over the SQLite repository, on concrete values.
use time_tracker.Prelude.{
  ℕ, ◌≡◌, ◌≢◌, refl, ap, inl, inr, Option, true, false, none, some, List, [], ◌∷◌, ok, err, arith,
  Has, sym, subst,
}
use time_tracker.Prelude.Text.{Text, codes}
use time_tracker.Domain.Tests.{task, build-IsName}
use time_tracker.Domain.Tracking.{TrackingState, idle, running, idle_tracker, running_tracker}
use time_tracker.Domain.ActiveWorklog.{ActiveWorklog}
use time_tracker.Application.Timestamps.{canonical_timestamp}
use time_tracker.Application.Error.{ApplicationError, ApplicationFailureSource, repository}
use time_tracker.Application.Error.Failure.{failure, operation_failure}
use time_tracker.Application.Error.Tests.{silent}
use time_tracker.Application.Model.{TaskListItem}
use time_tracker.Application.Ordering.{recently_created}
use time_tracker.Application.Repository.{task_is_active, backend}
use time_tracker.Application.Service.{TrackerApplication}
use time_tracker.Application.Service.Tasks.{tasks}
use time_tracker.Storage.Schema.{Database}
use time_tracker.Storage.Tests.{stored}
use time_tracker.Remote.Mutation.{archived_inactive, MutationDto}
use time_tracker.Remote.Errors.{
  ErrorDto, ErrorCode, RemoteError, http, safe_message, map_application_error,
}
use time_tracker.Remote.Decoding.{decode_task_list_state}
use time_tracker.Remote.Decoding.Trusted.{IsTask, IsTrusted}
use time_tracker.Remote.Tests.{wire, parse}
use time_tracker.Server.Errors.{api_error, conflict}
use time_tracker.Server.Errors.Classified.{
  reported_category, error_dto, api_error-reported, api_error-unavailable,
}
use time_tracker.Server.Core.{Core, Operation, new, execute, run}
use time_tracker.Server.Core.Bounded.{IsBounded, run-IsBounded}
use time_tracker.Server.Core.Replay.{execute-replays}
use time_tracker.Server.Resources.{task_list_state_dto}
use time_tracker.Server.Resources.RoundTrip.{decode-task_list_state_dto}

abbrev application : TrackerApplication Database
application = record { repository = stored; tasks = []; tracker = idle_tracker }

abbrev forget : Operation Database
forget app = (ok (archived_inactive 3), record app { tasks = [] })

abbrev refuse : Operation Database
refuse app = (err (conflict (codes "no")), app)

abbrev commands : List (Text × Text × Operation Database)
commands =
    (9 ∷ [], codes "archive", forget)
    ∷ ([], codes "archive", forget)
    ∷ (8 ∷ [], codes "archive", refuse)
    ∷ (9 ∷ [], codes "other", forget)
    ∷ []

bounded_example : IsBounded (run parse commands (new application))
bounded_example = run-IsBounded parse commands application

abbrev start : Core Database
start = record { app = application; completed = []; completion_order = [] }

abbrev response : MutationDto
response = record { request_id = 7 ∷ []; replayed = false; result = archived_inactive 3 }

abbrev after : Core Database
after = record start {
  completed =
      record { request_id = 7 ∷ []; fingerprint = codes "archive"; response = response } ∷ [];
  completion_order = (7 ∷ []) ∷ [];
}

first_time : execute parse (7 ∷ []) (codes "archive") forget start ≡ (ok response, after)
unfolding execute new
first_time = refl

start-IsBounded : IsBounded start
start-IsBounded = record { ordered = refl; separate = tt; bounded = omega arith }

replayed_example :
    execute parse (7 ∷ []) (codes "archive") forget (run parse commands after)
    ≡ (ok (record response { replayed = true }), run parse commands after)
replayed_example =
    execute-replays parse (7 ∷ []) (codes "archive") forget start response after commands
      start-IsBounded first_time refl (omega arith)

-- The parser of an error body that has read one active task.
abbrev read_error : Text → Option ErrorDto
read_error body =
    some (record { code = ErrorCode.active_task; message = codes "Task has active work" })

abbrev describe : RemoteError → Text
describe error = []

abbrev refusal : ApplicationError
refusal = repository (task_is_active 1)

abbrev broken : ApplicationError
broken = repository (backend (codes "disk full"))

own : (failure silent refusal).source ≡ ApplicationFailureSource.operation
unfolding failure
own = refl

alone : (failure silent refusal).recovery ≡ none
unfolding failure
alone = refl

sent : read_error [] ≡ some (error_dto (api_error silent refusal))
unfolding api_error
sent = refl

stored_failure : (failure silent broken).source ≡ ApplicationFailureSource.storage
unfolding failure
stored_failure = refl

foreign : (failure silent broken).source ≢ ApplicationFailureSource.operation
foreign e = absurd (cc (stored_failure, e))

reported_example :
    failure silent
      (map_application_error describe read_error (http (api_error silent refusal).status []) none)
    ≡ operation_failure
        (reported_category (failure silent refusal).category none)
        (safe_message (failure silent refusal).message)
reported_example = api_error-reported silent describe read_error refusal none [] own alone sent

unavailable_example :
    failure silent
      (map_application_error describe read_error (http (api_error silent broken).status []) none)
    ≡ failure silent (ApplicationError.remote_unavailable [])
unavailable_example = api_error-unavailable silent describe read_error broken none [] (inl foreign)

abbrev item : TaskListItem
item = record { task = task; latest_work_start = some 95_000 }

abbrev worklog : ActiveWorklog
worklog = record { id = 9; task_id = task.id; start = 95_000 }

abbrev working : Core Database
working = record start {
  app = record application { tasks = item ∷ []; tracker = running_tracker worklog };
}

working-IsTrusted : IsTrusted (tasks working.app recently_created) working.app.tracker.state
unfolding tasks
working-IsTrusted = record { distinct = (tt, tt); tasks = named; active = owned }
  where
    named : (x : TaskListItem) → Has x (item ∷ []) → IsTask x.task
    named x (inl e) =
        subst (λ (i : TaskListItem). IsTask i.task) (sym e)
          (record { named = build-IsName; ordered = omega arith })
    named x (inr m) = absurd m

    owned :
        (other : ActiveWorklog)
        → running worklog ≡ running other
        → (x : TaskListItem) × Has x (item ∷ [])
          × (x.task.id ≡ other.task_id)
          × (x.task.archived ≡ false)
    owned other e = (item, inl refl, ap task_of e, refl)
      where
        task_of : TrackingState → ℕ
        task_of idle = 0
        task_of (running w) = w.task_id

canonical : canonical_timestamp 95_000 ≡ 95_000
unfolding canonical_timestamp
canonical = refl

round_trip_example :
    decode_task_list_state wire (task_list_state_dto wire working)
    ≡ ok (tasks working.app recently_created, working.app.tracker.state)
round_trip_example = decode-task_list_state_dto wire working working-IsTrusted canonical
