-- ===== src/Remote/Client.antt =====
-- `RemoteApplication` of crates/tracker-remote/src/application/coordinator.rs as a state, with what
-- its session (session.rs) and its task and tracking clients (tasks.rs, tracking.rs) keep. An async
-- method is a command that takes the client and returns its result and the client behind it.
use time_tracker.Prelude.{ℕ, Bool, Option, List, Result, ok, err}
use time_tracker.Prelude.Text.{Text}
use time_tracker.Domain.Values.{Instant}
use time_tracker.Domain.Tracking.{TrackingState}
use time_tracker.Application.Model.{TaskListItem}
use time_tracker.Remote.Protocol.{TaskDto, TaskListStateDto}
use time_tracker.Remote.Mutation.{MutationDto}
use time_tracker.Remote.Errors.{RemoteError, RemoteFailureKind}
use time_tracker.Remote.Transport.{Exchange}

pub record HealthDto : Type 0 where
  pub status : Text
  pub protocol_version : ℕ

pub record CreateTaskRequest : Type 0 where
  pub task_id : Text
  pub name : Text
  pub occurred_at : Instant
  pub request_id : Text

-- The transport's reads with their decoded answers, one exchange of a creation, and the clock.
pub record Network (W : Type 0) : Type 0 where
  pub health : W → Result RemoteError HealthDto × W
  pub task_list_state : W → Result RemoteError TaskListStateDto × W
  pub task_catalog : W → Result RemoteError (List TaskDto) × W
  pub post_task : CreateTaskRequest → Exchange W MutationDto
  pub now : W → ℕ

pub record RemoteSession : Type 0 where
  pub last_failure : Option RemoteFailureKind
  pub last_unavailable_at : Option ℕ
  pub version_checked : Bool
  pub last_write_attempted : Bool

pub record RemoteApplication (W : Type 0) : Type 0 where
  pub world : W
  pub session : RemoteSession
  pub task_observation : Option (List TaskListItem)
  pub task_cache : List TaskListItem
  pub tracking_observation : Option TrackingState
  pub pending_create : Option CreateTaskRequest
  pub coherent_task_views : Bool

abbrev pub Client : Type 0 → Type 0 → Type 0 → Type 0
Client W E A = RemoteApplication W → Result E A × RemoteApplication W

module _ {W E : Type 0} where
  unfoldable pub pure : {A : Type 0} → A → Client W E A
  pure a self = (ok a, self)

  unfoldable pub fail : {A : Type 0} → E → Client W E A
  fail error self = (err error, self)

  unfoldable pub modify : (RemoteApplication W → RemoteApplication W) → Client W E (Unit {0})
  modify f self = (ok tt, f self)

  unfoldable pub gets : {A : Type 0} → (RemoteApplication W → A) → Client W E A
  gets f self = (ok (f self), self)

  unfoldable pub continue :
      {A B : Type 0}
      → Result E A × RemoteApplication W
      → (A → Client W E B)
      → Result E B × RemoteApplication W
  continue (ok a, self) f = f a self
  continue (err error, self) f = (err error, self)

  infixl 5 ◌>>=◌ ◌>>◌
  unfoldable pub ◌>>=◌ : {A B : Type 0} → Client W E A → (A → Client W E B) → Client W E B
  unfolding continue
  ◌>>=◌ m f self = continue (m self) f

  abbrev pub ◌>>◌ : {A B : Type 0} → Client W E A → Client W E B → Client W E B
  m >> k = m >>= λ _. k

  unfoldable pub from_result : {A : Type 0} → Result E A → Client W E A
  from_result r self = (r, self)

  -- A method with its result as a value.
  unfoldable pub attempt : {A F : Type 0} → Client W F A → Client W E (Result F A)
  attempt m self = let (r, after) = m self in (ok r, after)

  -- An exchange of the transport, with its result as a value.
  unfoldable pub exchange : {A : Type 0} → (W → A × W) → Client W E A
  exchange call self = let (a, w) = call self.world in (ok a, record self { world = w })
