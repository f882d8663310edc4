-- ===== src/Remote/Transport.antt =====
-- `Transport::write` of crates/tracker-remote/src/transport.rs: a write and its one repetition. `W`
-- is the world of network and server; one HTTP exchange with its decoded answer is a parameter. A
-- request body always encodes.
pub mod Unreached
use time_tracker.Prelude.{Bool, true, false, ◌||◌, Result, ok, err, if◌then◌else◌}
use time_tracker.Remote.Errors.{RemoteError}

pub record Delivery (A : Type 0) : Type 0 where
  pub result : Result RemoteError A
  pub may_have_reached_server : Bool

pub record SendFailure : Type 0 where
  pub error : RemoteError
  pub may_have_reached_server : Bool

abbrev pub Exchange : Type 0 → Type 0 → Type 0
Exchange W A = W → Result SendFailure (Result RemoteError A) × W

-- `matches!(failure.error, RemoteError::Unavailable(_))`
abbrev pub is_connection_failure : RemoteError → Bool
is_connection_failure (RemoteError.unavailable message) = true
is_connection_failure _ = false

-- What is known of a request after one attempt, or two.
unfoldable pub delivered :
    {A : Type 0} → Bool → Result SendFailure (Result RemoteError A) → Delivery A
delivered before (ok result) = record { result = result; may_have_reached_server = true }
delivered before (err failure) = record {
  result = err failure.error;
  may_have_reached_server = before || failure.may_have_reached_server;
}

module _ {W A : Type 0} where
  unfoldable pub repeated :
      Exchange W A → Result SendFailure (Result RemoteError A) × W → Delivery A × W
  unfolding delivered
  repeated send (ok result, w) = (delivered false (ok result), w)
  repeated send (err failure, w) =
      let (attempt, after) = send w in
      if is_connection_failure failure.error
      then (delivered failure.may_have_reached_server attempt, after)
      else (delivered false (err failure), w)

  unfoldable pub write : Exchange W A → W → Delivery A × W
  unfolding repeated
  write send w = repeated send (send w)
