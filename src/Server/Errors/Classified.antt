-- ===== src/Server/Errors/Classified.antt =====
-- A failure of the server's application as a remote client reports it.
use time_tracker.Prelude.{
  ◌≡◌, ◌≢◌, ◌⊎◌, refl, ap, inl, inr, true, Option, none, some, if◌then◌else◌, ◌||◌, Bool-cases,
}
use time_tracker.Prelude.Text.{Text}
use time_tracker.Domain.Values.{WorklogId}
use time_tracker.Application.Error.{
  ApplicationError, ApplicationFailureCategory, ApplicationFailureSource, semantic,
  remote_unavailable,
}
use time_tracker.Application.Error.Failure.{ApplicationFailure, Display, failure, operation_failure}
use time_tracker.Remote.Errors.{
  ErrorDto, RemoteError, http, safe_message, map_application_error, map_reachable_error,
  map_http_error, map_server_error, error_category, is_unavailable,
}
use time_tracker.Server.Errors.{
  ApiError, api_error, operation_answer, failure_status, conflict, internal, is_foreign,
  recovery_failed, is_tracking_state_changed,
}

-- The category that a client reports for one of the server. What is missing is told apart by the
-- client's own request, and a changed task has no code of its own.
abbrev pub reported_category :
    ApplicationFailureCategory → Option WorklogId → ApplicationFailureCategory
reported_category ApplicationFailureCategory.task_changed worklog_id =
    ApplicationFailureCategory.general
reported_category ApplicationFailureCategory.task_not_found none =
    ApplicationFailureCategory.task_not_found
reported_category ApplicationFailureCategory.task_not_found (some id) =
    ApplicationFailureCategory.worklog_not_found
reported_category ApplicationFailureCategory.worklog_not_found none =
    ApplicationFailureCategory.task_not_found
reported_category ApplicationFailureCategory.worklog_not_found (some id) =
    ApplicationFailureCategory.worklog_not_found
reported_category category worklog_id = category

-- The body of an error answer.
abbrev pub error_dto : ApiError → ErrorDto
error_dto error = record { code = error.code; message = error.message }

module _ (display : Display) (describe : RemoteError → Text)
    (read_error : Text → Option ErrorDto) where
  Reported : ApplicationFailure → ApiError → Option WorklogId → Type 0
  Reported f answer worklog_id =
      (body : Text)
      → read_error body ≡ some (error_dto answer)
      → map_application_error describe read_error (http answer.status body) worklog_id
        ≡ semantic (reported_category f.category worklog_id) (safe_message f.message)

  general_Reported :
      (f : ApplicationFailure) (worklog_id : Option WorklogId)
      → f.category ≡ ApplicationFailureCategory.general
      → Reported f (conflict f.message) worklog_id
  unfolding Reported map_application_error map_reachable_error map_http_error map_server_error
      error_category is_unavailable
  general_Reported f worklog_id e body read = rw (read, e) refl

  operation_Reported :
      (category : ApplicationFailureCategory) (f : ApplicationFailure)
      (worklog_id : Option WorklogId)
      → f.category ≡ category
      → Reported f (operation_answer f) worklog_id
  unfolding Reported map_application_error map_reachable_error map_http_error map_server_error
      error_category is_unavailable operation_answer failure_status
  operation_Reported ApplicationFailureCategory.task_not_found f none e body =
      rw e (λ read. rw read refl)
  operation_Reported ApplicationFailureCategory.task_not_found f (some id) e body =
      rw e (λ read. rw read refl)
  operation_Reported ApplicationFailureCategory.worklog_not_found f none e body =
      rw e (λ read. rw read refl)
  operation_Reported ApplicationFailureCategory.worklog_not_found f (some id) e body =
      rw e (λ read. rw read refl)
  operation_Reported ApplicationFailureCategory.task_changed f worklog_id e body =
      rw e (λ read. rw read refl)
  operation_Reported _ f worklog_id e body = rw e (λ read. rw read refl)

  changed :
      (error : ApplicationError)
      → is_tracking_state_changed error ≡ true
      → (message : Text) × (failure display error
          ≡ operation_failure ApplicationFailureCategory.general message)
  unfolding failure
  changed ApplicationError.tracking_state_changed h = (_, refl)
  changed _ h = absurd (cc h)

  own_answer :
      (error : ApplicationError) (worklog_id : Option WorklogId)
      → (failure display error).source ≡ ApplicationFailureSource.operation
      → (failure display error).recovery ≡ none
      → Reported (failure display error) (api_error display error) worklog_id
  unfolding api_error
  own_answer error worklog_id s r = elim (Bool-cases (is_tracking_state_changed error)) [
    | inl e ↦
        let (message, same) = changed error e in
        rw e (
          general_Reported (failure display error) worklog_id
            (ap (λ (f : ApplicationFailure). f.category) same))
    | inr e ↦
        rw (e, r, s)
          (operation_Reported (failure display error).category (failure display error) worklog_id
            refl)
  ]

  foreign_answer :
      (error : ApplicationError)
      → ((failure display error).source ≢ ApplicationFailureSource.operation)
        ⊎ ((failure display error).recovery ≢ none)
      → api_error display error ≡ internal
  unfolding api_error
  foreign_answer error h = elim (Bool-cases (is_tracking_state_changed error)) [
    | inl e ↦
        let (message, same) = changed error e in
        elim h [
          | inl n ↦ absurd (n (ap (λ (f : ApplicationFailure). f.source) same))
          | inr n ↦ absurd (n (ap (λ (f : ApplicationFailure). f.recovery) same))
        ]
    | inr e ↦ rw e (foreign (failure display error) h)
  ]
    where
      foreign :
          (f : ApplicationFailure)
          → (f.source ≢ ApplicationFailureSource.operation) ⊎ (f.recovery ≢ none)
          → (if recovery_failed f.recovery || is_foreign f.source
              then internal
              else operation_answer f)
            ≡ internal
      foreign f h = go f.recovery f.source (operation_answer f) h
        where
          go :
              (recovery : Option Text) (source : ApplicationFailureSource) (answer : ApiError)
              → (source ≢ ApplicationFailureSource.operation) ⊎ (recovery ≢ none)
              → (if recovery_failed recovery || is_foreign source then internal else answer)
                ≡ internal
          go (some message) source answer h = refl
          go none ApplicationFailureSource.operation answer (inl n) = absurd (n refl)
          go none ApplicationFailureSource.operation answer (inr n) = absurd (n refl)
          go none ApplicationFailureSource.storage answer h = refl
          go none ApplicationFailureSource.remote_unavailable answer h = refl
          go none ApplicationFailureSource.remote_protocol answer h = refl

  -- A failure of the operation itself reaches a remote client with its message, cleaned, and with
  -- neither a recovery nor another source. The client reports its category, but for a changed task
  -- a general failure, and for a missing task or worklog the one that its own request names: a
  -- worklog exactly if the request has a worklog's identifier.
  pub api_error-reported :
      (error : ApplicationError) (worklog_id : Option WorklogId) (body : Text)
      → (failure display error).source ≡ ApplicationFailureSource.operation
      → (failure display error).recovery ≡ none
      → read_error body ≡ some (error_dto (api_error display error))
      → failure display (
          map_application_error describe read_error
            (http (api_error display error).status body)
            worklog_id)
        ≡ operation_failure
            (reported_category (failure display error).category worklog_id)
            (safe_message (failure display error).message)
  unfolding failure Reported
  api_error-reported error worklog_id body s r read =
      ap (failure display) (own_answer error worklog_id s r body read)

  -- A failure of the server's storage or of a recovery reaches a remote client as that of an
  -- unavailable server, whatever the failure and the body of the answer say.
  pub api_error-unavailable :
      (error : ApplicationError) (worklog_id : Option WorklogId) (body : Text)
      → ((failure display error).source ≢ ApplicationFailureSource.operation)
        ⊎ ((failure display error).recovery ≢ none)
      → failure display (
          map_application_error describe read_error
            (http (api_error display error).status body)
            worklog_id)
        ≡ failure display (remote_unavailable (describe (http 500 body)))
  unfolding map_application_error is_unavailable
  api_error-unavailable error worklog_id body h = rw (foreign_answer error h) refl
