-- ===== src/Remote/ExchangeTests.antt =====
-- Exchanges of a remote client with a concrete network, whose world is the requests that the server
-- has received.
use time_tracker.Prelude.{
  ℕ, ◌+◌, ◌≡◌, refl, sym, ap, true, false, Option, none, some, List, [], ◌∷◌, ok, err,
  if◌then◌else◌, list_eq,
}
use time_tracker.Prelude.Text.{Text, codes}
use time_tracker.Domain.TaskName.{TaskName}
use time_tracker.Application.Error.Tests.{silent}
use time_tracker.Remote.Tests.{wire, answer}
use time_tracker.Remote.Mutation.{MutationDto}
use time_tracker.Remote.Errors.{RemoteError, ErrorDto}
use time_tracker.Remote.Transport.{Exchange, SendFailure, write}
use time_tracker.Remote.Transport.Unreached.{write-unreached}
use time_tracker.Application.Timestamps.{canonical_timestamp}
use time_tracker.Application.Error.{ApplicationError}
use time_tracker.Application.Error.Failure.{failure}
use time_tracker.Domain.TaskName.{trim, is_whitespace, is_control}
use time_tracker.Remote.Client.{
  CreateTaskRequest, Network, RemoteApplication, ◌>>=◌, gets, exchange, pure, modify, fail, attempt,
  from_result, continue,
}
use time_tracker.Remote.Creation.Kept.{IsKept, create_task-IsKept}
use time_tracker.Remote.Creation.{create_task, is_remote}
use time_tracker.Remote.Creation.Pending.{create_task-resends}

abbrev World : Type 0
World = List CreateTaskRequest

abbrev network : Network World
network = record {
  health = λ w. (ok (record { status = codes "ok"; protocol_version = 6 }), w);
  task_list_state = λ w. (ok answer, w);
  task_catalog = λ w. (ok answer.tasks, w);
  post_task = λ body w. (
    err (record { error = RemoteError.unavailable []; may_have_reached_server = true }),
    body ∷ w,
  );
  now = λ w. 0;
}

abbrev describe : RemoteError → Text
describe error = []

abbrev read_error : Text → Option ErrorDto
read_error body = none

abbrev build : TaskName
build = record { text = codes "build" }

abbrev request : CreateTaskRequest
request = record {
  task_id = 1 ∷ [];
  name = codes "build";
  occurred_at = 5;
  request_id = codes "first";
}

abbrev waiting : RemoteApplication World
waiting = record {
  world = request ∷ [];
  session = record {
    last_failure = none;
    last_unavailable_at = none;
    version_checked = false;
    last_write_attempted = true;
  };
  task_observation = none;
  task_cache = [];
  tracking_observation = none;
  pending_create = some request;
  coherent_task_views = false;
}

abbrev idle : RemoteApplication World
idle = record waiting {
  world = [];
  session = record waiting.session { last_write_attempted = false };
  pending_create = none;
}

abbrev lost : RemoteApplication World
lost = (create_task network wire silent describe read_error build 5 1 (codes "first") idle).1

-- The server may have received the creation, and no answer came back.
unanswered :
    create_task network wire silent describe read_error build 5 1 (codes "first") idle
    ≡ (err (ApplicationError.remote_unavailable []), lost)
unfolding create_task trim is_whitespace is_control ◌>>=◌ gets exchange pure modify fail attempt
    from_result continue
unanswered = refl

in_doubt : is_remote (failure silent (ApplicationError.remote_unavailable [])).source ≡ true
unfolding failure
in_doubt = refl

unanswered_example :
    IsKept
      (record {
        task_id = wire.print 1;
        name = build.text;
        occurred_at = canonical_timestamp 5;
        request_id = codes "first";
      })
      lost
unanswered_example =
    create_task-IsKept network wire silent describe read_error idle lost build 5 1 (codes "first")
      (ApplicationError.remote_unavailable []) refl unanswered in_doubt

-- Another network, which answers only the kept request.
abbrev selective : CreateTaskRequest → Exchange World MutationDto
selective body w =
    if list_eq body.request_id (codes "first")
    then network.post_task body w
    else (err (record { error = RemoteError.unavailable []; may_have_reached_server = false }), w)

alike : selective request ≡ network.post_task request
unfolding list_eq
alike = refl

resent_example :
    create_task
      (record network { post_task = selective })
      wire
      silent
      describe
      read_error
      build
      9
      2
      (codes "second")
      waiting
    ≡ create_task network wire silent describe read_error build 10 3 (codes "third") waiting
resent_example =
    create_task-resends network wire silent describe read_error waiting request build 9 10 2 3
      (codes "second") (codes "third") selective refl alike

-- A closed port: attempts are counted, and nothing is received.
abbrev refused : Exchange (ℕ × World) MutationDto
refused w = (
  err (record { error = RemoteError.unavailable []; may_have_reached_server = false }),
  (w.0 + 1, w.1),
)

honest :
    (w : ℕ × World) (failure : SendFailure) (after : ℕ × World)
    → refused w ≡ (err failure, after)
    → failure.may_have_reached_server ≡ false
    → after.1 ≡ w.1
honest w failure after e h = ap (λ x. x.1.1) (sym e)

never : (write refused (0, [])).0.may_have_reached_server ≡ false
unfolding write
never = refl

unreached_example : (write refused (0, [])).1.1 ≡ []
unreached_example = write-unreached (λ w. w.1) refused (0, []) honest never
