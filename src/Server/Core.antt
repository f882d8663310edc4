-- ===== src/Server/Core.antt =====
-- crates/tracker-server/src/core.rs: the state behind the server's lock. The map of receipts is the
-- list of its entries, in the order of their insertion; the uuid parser is a parameter.
pub mod Receipts
pub mod Bounded
pub mod Within
pub mod Replay
use time_tracker.Prelude.{
  ℕ, suc, Bool, true, false, Option, none, some, List, [], ◌∷◌, ◌++◌, Result, ok, err, is_none, leb,
  if◌then◌else◌, list_eq, length,
}
use time_tracker.Prelude.Text.{Text, codes}
use time_tracker.Domain.Tracking.{idle, running}
use time_tracker.Domain.ActiveWorklog.{to_worklog}
use time_tracker.Application.Service.{TrackerApplication}
use time_tracker.Remote.Protocol.{Wire, WorklogDto, worklog_dto}
use time_tracker.Remote.Mutation.{MutationResultDto, MutationDto}
use time_tracker.Server.Errors.{ApiError, invalid, conflict}

abbrev pub idempotency_cache_size : ℕ
idempotency_cache_size = 1024

-- An entry of `completed`.
pub record Receipt : Type 0 where
  pub request_id : Text
  pub fingerprint : Text
  pub response : MutationDto

-- `HashMap::get`
unfoldable pub get : Text → List Receipt → Option Receipt
unfolding list_eq
get id [] = none
get id (r ∷ rs) = if list_eq r.request_id id then some r else get id rs

-- `HashMap::insert`
unfoldable pub insert : Receipt → List Receipt → List Receipt
unfolding list_eq
insert n [] = n ∷ []
insert n (r ∷ rs) =
    let rest = insert n rs in if list_eq r.request_id n.request_id then n ∷ rs else r ∷ rest

-- `HashMap::remove`
unfoldable pub remove : Text → List Receipt → List Receipt
unfolding list_eq
remove id [] = []
remove id (r ∷ rs) = let rest = remove id rs in if list_eq r.request_id id then rest else r ∷ rest

pub record Core (S : Type 0) : Type 0 where
  pub app : TrackerApplication S
  pub completed : List Receipt
  pub completion_order : List Text

-- `response` is what a mutation does to the application.
abbrev pub Operation : Type 0 → Type 0
Operation S = TrackerApplication S → Result ApiError MutationResultDto × TrackerApplication S

-- The answer to a command that has a receipt.
unfoldable pub replay : Text → Receipt → Result ApiError MutationDto
unfolding list_eq
replay fingerprint receipt =
    if list_eq receipt.fingerprint fingerprint
    then ok (record receipt.response { replayed = true })
    else err (conflict (codes "Request ID was reused for a different command"))

-- The receipt of a command that was carried out.
abbrev pub receipt_of : Text → Text → MutationResultDto → Receipt
receipt_of id fingerprint result = record {
  request_id = id;
  fingerprint = fingerprint;
  response = record { request_id = id; replayed = false; result = result };
}

module _ {S : Type 0} where
  -- `Core::new`
  unfoldable pub new : TrackerApplication S → Core S
  new app = record { app = app; completed = []; completion_order = [] }

  unfoldable pub active_worklog : Wire → Core S → Option WorklogDto
  unfolding to_worklog worklog_dto
  active_worklog wire core = elim core.app.tracker.state [
    | idle ↦ none
    | running worklog ↦ some (worklog_dto wire (to_worklog worklog))
  ]

  -- `pop_front`, and the removal of what it gave.
  unfoldable pub evict_front : List Text → Core S → Core S
  unfolding remove
  evict_front [] core = core
  evict_front (evicted ∷ rest) core = record core {
    completion_order = rest;
    completed = remove evicted core.completed;
  }

  unfoldable pub evict : Core S → Core S
  unfolding evict_front
  evict core =
      if leb (length core.completion_order) idempotency_cache_size
      then core
      else evict_front core.completion_order core

  unfoldable pub remember : Receipt → Core S → Core S
  unfolding insert evict
  remember receipt core = evict (record core {
    completed = insert receipt core.completed;
    completion_order = core.completion_order ++ (receipt.request_id ∷ []);
  })

  unfoldable pub finish :
      Text
      → Text
      → Core S
      → Result ApiError MutationResultDto × TrackerApplication S
      → Result ApiError MutationDto × Core S
  unfolding remember
  finish id fingerprint core (err error, app) = (err error, record core { app = app })
  finish id fingerprint core (ok result, app) =
      let receipt = receipt_of id fingerprint result in
      (ok receipt.response, remember receipt (record core { app = app }))

  unfoldable pub respond :
      Text → Text → Operation S → Core S → Option Receipt → Result ApiError MutationDto × Core S
  unfolding finish replay
  respond id fingerprint operation core (some receipt) = (replay fingerprint receipt, core)
  respond id fingerprint operation core none = finish id fingerprint core (operation core.app)

  unfoldable pub execute :
      (Text → Option ℕ) → Text → Text → Operation S → Core S → Result ApiError MutationDto × Core S
  unfolding respond get
  execute parse id fingerprint operation core =
      if is_none (parse id)
      then (err (invalid (codes "Invalid request ID")), core)
      else respond id fingerprint operation core (get id core.completed)

  -- One call of `execute` after the other.
  unfoldable pub run : (Text → Option ℕ) → List (Text × Text × Operation S) → Core S → Core S
  unfolding execute
  run parse [] core = core
  run parse ((id, fingerprint, operation) ∷ rest) core =
      run parse rest (execute parse id fingerprint operation core).1
