-- ===== src/Remote/Tests.antt =====
-- The answers of a server to a client, on concrete values.
use time_tracker.Prelude.{ℕ, ◌≡◌, refl, Option, false, none, some, List, [], ◌∷◌, ok}
use time_tracker.Prelude.Text.{Text, codes}
use time_tracker.Domain.TaskName.{trim, is_whitespace, is_control}
use time_tracker.Domain.Tracking.{TrackingState, running}
use time_tracker.Application.Model.{TaskListItem}
use time_tracker.Remote.Protocol.{Wire, TaskListStateDto}
use time_tracker.Remote.Decoding.{decode_task_list_state}
use time_tracker.Remote.Decoding.Trusted.{IsTrusted, decode_task_list_state-IsTrusted}

abbrev pub parse : Text → Option ℕ
parse [] = none
parse (id ∷ rest) = some id

-- An identifier printed as one character.
abbrev pub wire : Wire
wire = record {
  print = λ id. id ∷ [];
  parse = parse;
  parse-print = λ id. refl;
  task_error = λ e. [];
  worklog_error = λ e. [];
  tracking_error = λ e. [];
}

abbrev pub answer : TaskListStateDto
answer = record {
  tasks =
      record {
        id = 1 ∷ [];
        name = codes "build";
        archived = false;
        created_at = 5;
        updated_at = 6;
        latest_work_start = some 20_000;
      }
      ∷ [];
  active_worklog = some (record { id = 7 ∷ []; task_id = 1 ∷ []; start = 20_000; end = none });
}

abbrev pub items : List TaskListItem
items =
    record {
      task = record {
        id = 1;
        name = record { text = codes "build" };
        archived = false;
        created_at = 5;
        updated_at = 6;
      };
      latest_work_start = some 20_000;
    }
    ∷ []

abbrev state : TrackingState
state = running (record { id = 7; task_id = 1; start = 20_000 })

decoded : decode_task_list_state wire answer ≡ ok (items, state)
unfolding decode_task_list_state trim is_whitespace is_control
decoded = refl

decoded_example : IsTrusted items state
decoded_example = decode_task_list_state-IsTrusted wire answer items state decoded
