-- ===== src/Server/Errors.antt =====
-- crates/tracker-server/src/error.rs: the server's error answers. A status is its number.
pub mod Classified
use time_tracker.Prelude.{ℕ, Bool, true, false, Option, none, some, if◌then◌else◌, ◌||◌}
use time_tracker.Prelude.Text.{Text, codes}
use time_tracker.Application.Error.{
  ApplicationError, ApplicationFailureCategory, ApplicationFailureSource, tracking_state_changed,
}
use time_tracker.Application.Error.Failure.{ApplicationFailure, Display, failure}
use time_tracker.Remote.Errors.{ErrorCode}

pub record ApiError : Type 0 where
  pub status : ℕ
  pub code : ErrorCode
  pub message : Text

abbrev pub invalid : Text → ApiError
invalid message = record { status = 400; code = ErrorCode.invalid_request; message = message }

abbrev pub conflict : Text → ApiError
conflict message = record { status = 409; code = ErrorCode.conflict; message = message }

abbrev pub internal : ApiError
internal = record {
  status = 500;
  code = ErrorCode.internal;
  message = codes "Server could not complete the request";
}

unfoldable pub failure_status : ApplicationFailureCategory → ℕ × ErrorCode
failure_status ApplicationFailureCategory.worklog_not_found = (404, ErrorCode.not_found)
failure_status ApplicationFailureCategory.task_not_found = (404, ErrorCode.not_found)
failure_status ApplicationFailureCategory.worklog_changed = (409, ErrorCode.worklog_changed)
failure_status ApplicationFailureCategory.task_changed = (409, ErrorCode.conflict)
failure_status ApplicationFailureCategory.worklog_history_changed =
    (409, ErrorCode.worklog_history_changed)
failure_status ApplicationFailureCategory.worklog_overlap = (409, ErrorCode.worklog_overlap)
failure_status ApplicationFailureCategory.active_worklog = (409, ErrorCode.active_worklog)
failure_status ApplicationFailureCategory.active_task = (409, ErrorCode.active_task)
failure_status ApplicationFailureCategory.inactive_task_candidates_changed =
    (409, ErrorCode.inactive_task_candidates_changed)
failure_status ApplicationFailureCategory.general = (400, ErrorCode.invalid_request)

abbrev pub is_tracking_state_changed : ApplicationError → Bool
is_tracking_state_changed ApplicationError.tracking_state_changed = true
is_tracking_state_changed _ = false

-- `failure.source() != ApplicationFailureSource::Operation`
abbrev pub is_foreign : ApplicationFailureSource → Bool
is_foreign ApplicationFailureSource.operation = false
is_foreign _ = true

-- `failure.recovery_failed()`
abbrev pub recovery_failed : Option Text → Bool
recovery_failed none = false
recovery_failed (some message) = true

-- The status and the code of an operation's own failure, with its message.
unfoldable pub operation_answer : ApplicationFailure → ApiError
unfolding failure_status
operation_answer f =
    let (status, code) = failure_status f.category in
    record { status = status; code = code; message = f.message }

-- `From<ApplicationError>`
unfoldable pub api_error : Display → ApplicationError → ApiError
unfolding failure operation_answer
api_error display error =
    let f = failure display error in
    if is_tracking_state_changed error
    then conflict f.message
    else if recovery_failed f.recovery || is_foreign f.source
    then internal
    else operation_answer f
