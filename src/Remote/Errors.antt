-- ===== src/Remote/Errors.antt =====
-- `RemoteError` of crates/tracker-remote/src/lib.rs and its classification of crates/tracker-remote/
-- src/application/error.rs. A status is its number; the parser of an error body is a parameter.
use time_tracker.Prelude.{
  ℕ, Bool, true, false, not, ◌&&◌, ◌||◌, Option, none, some, [], ◌++◌, ◌==◌, leb, if◌then◌else◌,
  keep, take,
}
use time_tracker.Prelude.Text.{Text, codes}
use time_tracker.Domain.Values.{WorklogId}
use time_tracker.Domain.TaskName.{is_control}
use time_tracker.Application.Error.{
  ApplicationError, ApplicationFailureCategory, general, semantic, remote_unavailable,
  remote_protocol,
}

pub data RemoteError : Type 0 where
  invalid_endpoint unavailable protocol : Text → RemoteError
  http : ℕ → Text → RemoteError

pub data RemoteFailureKind : Type 0 where
  unavailable conflict protocol : RemoteFailureKind

pub data ErrorCode : Type 0 where
  invalid_request not_found conflict worklog_changed worklog_history_changed : ErrorCode
  worklog_overlap active_worklog active_task inactive_task_candidates_changed internal : ErrorCode

pub record ErrorDto : Type 0 where
  pub code : ErrorCode
  pub message : Text

-- `is_server_error`, or REQUEST_TIMEOUT
unfoldable pub is_unavailable : RemoteError → Bool
is_unavailable (RemoteError.unavailable message) = true
is_unavailable (http status body) = (leb 500 status && leb status 599) || (status == 408)
is_unavailable (invalid_endpoint message) = false
is_unavailable (RemoteError.protocol message) = false

unfoldable pub protocol_failure : Text → ApplicationError
protocol_failure message = remote_protocol (codes "invalid server response: " ++ message)

unfoldable pub is_conflict : RemoteError → Bool
is_conflict (http status body) = status == 409
is_conflict _ = false

unfoldable pub classify_error : RemoteError → RemoteFailureKind
unfolding is_unavailable is_conflict
classify_error error =
    if is_unavailable error
    then RemoteFailureKind.unavailable
    else if is_conflict error
    then RemoteFailureKind.conflict
    else RemoteFailureKind.protocol

unfoldable pub error_category : ErrorCode → Option WorklogId → ApplicationFailureCategory
error_category invalid_request worklog_id = general
error_category ErrorCode.conflict worklog_id = general
error_category not_found (some id) = ApplicationFailureCategory.worklog_not_found
error_category not_found none = ApplicationFailureCategory.task_not_found
error_category worklog_changed worklog_id = ApplicationFailureCategory.worklog_changed
error_category worklog_history_changed worklog_id =
    ApplicationFailureCategory.worklog_history_changed
error_category worklog_overlap worklog_id = ApplicationFailureCategory.worklog_overlap
error_category active_worklog worklog_id = ApplicationFailureCategory.active_worklog
error_category active_task worklog_id = ApplicationFailureCategory.active_task
error_category inactive_task_candidates_changed worklog_id =
    ApplicationFailureCategory.inactive_task_candidates_changed
error_category internal worklog_id = general

abbrev pub message_limit : ℕ
message_limit = 512

abbrev pub or_rejected : Text → Text
or_rejected [] = codes "Server rejected the request"
or_rejected cleaned = cleaned

unfoldable pub safe_message : Text → Text
unfolding is_control
safe_message message = or_rejected (take message_limit (keep (λ c. not (is_control c)) message))

unfoldable pub map_server_error : ErrorDto → Option WorklogId → ApplicationError
unfolding error_category safe_message
map_server_error dto worklog_id = elim dto.code [
  | internal ↦ remote_unavailable (codes "remote server error")
  | _ ↦ semantic (error_category dto.code worklog_id) (safe_message dto.message)
]

-- `describe` is the text of the error, `read_error` the parser of an error body.
module _ (describe : RemoteError → Text) (read_error : Text → Option ErrorDto) where
  unfoldable pub map_http_error :
      RemoteError → Bool → Option ErrorDto → Option WorklogId → ApplicationError
  unfolding map_server_error
  map_http_error error conflicted (some dto) worklog_id = map_server_error dto worklog_id
  map_http_error error conflicted none worklog_id =
      if conflicted
      then semantic general (codes "Tracker state changed. Refresh and retry.")
      else remote_protocol (describe error)

  unfoldable pub map_reachable_error : RemoteError → Option WorklogId → ApplicationError
  unfolding map_http_error
  map_reachable_error (http status body) worklog_id =
      map_http_error (http status body) (status == 409) (read_error body) worklog_id
  map_reachable_error error worklog_id = remote_protocol (describe error)

  unfoldable pub map_application_error : RemoteError → Option WorklogId → ApplicationError
  unfolding is_unavailable map_reachable_error
  map_application_error error worklog_id =
      if is_unavailable error
      then remote_unavailable (describe error)
      else map_reachable_error error worklog_id
