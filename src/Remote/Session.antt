-- ===== src/Remote/Session.antt =====
-- `RemoteSession` of crates/tracker-remote/src/application/session.rs: the compatibility check, the
-- record of failures and the validation of receipts.
pub mod Keeps
use time_tracker.Prelude.{
  ℕ, true, false, not, ◌||◌, Option, none, some, Result, ok, err, ◌==◌, if◌then◌else◌, list_eq,
}
use time_tracker.Prelude.Text.{Text, codes}
use time_tracker.Domain.Values.{WorklogId}
use time_tracker.Application.Error.{ApplicationError}
use time_tracker.Remote.Mutation.{MutationResultDto, MutationDto}
use time_tracker.Remote.Errors.{
  RemoteError, ErrorDto, classify_error, is_unavailable, protocol_failure, map_application_error,
}
use time_tracker.Remote.Transport.{Exchange, write}
use time_tracker.Remote.Client.{
  Network, RemoteSession, Client, pure, fail, modify, gets, ◌>>=◌, ◌>>◌, from_result, attempt,
  exchange,
}

abbrev pub version : ℕ
version = 6

module _ {W : Type 0} where
  abbrev pub update_session : {E : Type 0} → (RemoteSession → RemoteSession) → Client W E (Unit {0})
  update_session f = modify (λ self. record self { session = f self.session })

  unfoldable pub begin_command : {E : Type 0} → Client W E (Unit {0})
  begin_command = update_session (λ s. record s { last_write_attempted = false })

  unfoldable pub confirmed : {E : Type 0} → Client W E (Unit {0})
  confirmed = update_session (λ s. record s { last_failure = none; last_unavailable_at = none })

  -- The call without its error.
  unfoldable pub checked : {A B E : Type 0} → (E → B) → Client W E A → Client W B A
  checked convert m = attempt m >>= λ r. elim r [ ok a ↦ pure a | err error ↦ fail (convert error) ]

module _ {W : Type 0} (network : Network W) where
  unfoldable pub record_error : {E : Type 0} → RemoteError → Client W E (Unit {0})
  unfolding classify_error is_unavailable
  record_error error = modify (λ self. record self {
    session = record self.session {
      last_failure = some (classify_error error);
      last_unavailable_at =
          if is_unavailable error
          then some (network.now self.world)
          else self.session.last_unavailable_at;
    };
  })

  -- `map_err(|error| self.record_error(error))`
  unfoldable pub recorded : {A : Type 0} → Result RemoteError A → Client W RemoteError A
  unfolding record_error
  recorded (ok a) = pure a
  recorded (err error) = record_error error >> fail error

  unfoldable pub read : {A : Type 0} → (W → Result RemoteError A × W) → Client W RemoteError A
  unfolding recorded
  read call = exchange call >>= recorded

  unfoldable pub check_connection : Client W RemoteError (Unit {0})
  unfolding read record_error confirmed list_eq
  check_connection = read network.health >>= λ health.
      if not (health.protocol_version == version) || not (list_eq health.status (codes "ok"))
      then recorded (err (RemoteError.protocol (codes "server protocol version does not match")))
      else update_session (λ s. record s { version_checked = true }) >> confirmed

  unfoldable pub ensure_version : Client W RemoteError (Unit {0})
  unfolding check_connection
  ensure_version = do
    checked_before ← gets (λ self. self.session.version_checked)
    if checked_before then pure tt else check_connection

  module _ (describe : RemoteError → Text) (read_error : Text → Option ErrorDto) where
    unfoldable pub decode_receipt :
        {A : Type 0}
        → Text
        → Option WorklogId
        → (MutationResultDto → Result ApplicationError A)
        → Result RemoteError MutationDto
        → Client W ApplicationError A
    unfolding record_error map_application_error list_eq
    decode_receipt request_id worklog_id decode (ok dto) =
        if list_eq dto.request_id request_id
        then from_result (decode dto.result)
        else fail (protocol_failure (codes "invalid command receipt"))
    decode_receipt request_id worklog_id decode (err error) =
        record_error error >> fail (map_application_error describe read_error error worklog_id)

    unfoldable pub mutation :
        {A : Type 0}
        → Exchange W MutationDto
        → Text
        → Option WorklogId
        → (MutationResultDto → Result ApplicationError A)
        → Client W ApplicationError A
    unfolding ensure_version write decode_receipt checked
    mutation send request_id worklog_id decode = do
      checked (λ error. map_application_error describe read_error error worklog_id) ensure_version
      update_session (λ s. record s { last_write_attempted = true })
      delivery ← exchange (write send)
      update_session (λ s. record s { last_write_attempted = delivery.may_have_reached_server })
      decode_receipt request_id worklog_id decode delivery.result
