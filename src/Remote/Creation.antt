-- ===== src/Remote/Creation.antt =====
-- Creating a task from a remote client: `TasksClient::create_task` and the catalog reads of
-- crates/tracker-remote/src/application/tasks.rs, and `RemoteApplication::create_task` of
-- coordinator.rs, which keeps a request until its outcome is known.
pub mod Pending
pub mod Kept
use time_tracker.Prelude.{
  ℕ, Bool, true, false, not, ◌||◌, ◌&&◌, Option, none, some, List, [], Result, ok, err, ◌==◌,
  if◌then◌else◌, list_eq, ok_or, map_err, reject,
}
use time_tracker.Prelude
use time_tracker.Prelude.Text.{Text, codes}
use time_tracker.Domain.Values.{TaskId, Instant}
use time_tracker.Domain.TaskName.{TaskName}
use time_tracker.Domain.Task.{Task}
use time_tracker.Domain.Tracking.{TrackingState}
use time_tracker.Application.Timestamps.{canonical_timestamp}
use time_tracker.Application.Model.{TaskListItem}
use time_tracker.Application.Error.{
  ApplicationError, ApplicationFailureSource, general, semantic, with_recovery_failure,
}
use time_tracker.Application.Error.Failure.{Display, failure}
use time_tracker.Application.Service.{find_item}
use time_tracker.Remote.Protocol.{Wire, TaskDto, TaskListStateDto}
use time_tracker.Remote.Mutation.{MutationResultDto, MutationDto}
use time_tracker.Remote.Mutation
use time_tracker.Remote.Errors.{RemoteError, ErrorDto, protocol_failure, map_application_error}
use time_tracker.Remote.Decoding.{decode_task, decode_tasks, decode_task_list_state}
use time_tracker.Remote.Client.{
  CreateTaskRequest, Network, RemoteApplication, Client, pure, fail, modify, gets, ◌>>=◌, ◌>>◌,
  from_result, attempt, exchange,
}
use time_tracker.Remote.Session.{
  begin_command, confirmed, checked, recorded, read, ensure_version, mutation,
}

abbrev pub is_remote : ApplicationFailureSource → Bool
is_remote ApplicationFailureSource.remote_unavailable = true
is_remote ApplicationFailureSource.remote_protocol = true
is_remote _ = false

-- The outcome of the creation is not known.
unfoldable pub creation_needs_recovery : Display → ApplicationError → Bool → Bool
unfolding failure
creation_needs_recovery display error receipt_confirmed =
    receipt_confirmed || is_remote (failure display error).source

abbrev pub is_ok : {E A : Type 0} → Result E A → Bool
is_ok (ok a) = true
is_ok (err error) = false

module _ {W : Type 0} where
  unfoldable pub adopt_catalog : {E : Type 0} → List TaskListItem → Client W E (Unit {0})
  adopt_catalog items =
      modify (λ self. record self { task_cache = []; task_observation = some items })

  unfoldable pub adopt_tracking : {E : Type 0} → TrackingState → Client W E (Unit {0})
  adopt_tracking state = modify (λ self. record self { tracking_observation = some state })

  abbrev pub set_pending : {E : Type 0} → Option CreateTaskRequest → Client W E (Unit {0})
  set_pending pending = modify (λ self. record self { pending_create = pending })

  abbrev pub task_items : RemoteApplication W → List TaskListItem
  task_items self = elim self.task_observation [ none ↦ [] | some items ↦ items ]

  unfoldable pub task_item : TaskId → RemoteApplication W → Option TaskListItem
  unfolding find_item
  task_item id self = elim (find_item id self.task_cache) [
    | some item ↦ some item
    | none ↦ find_item id (task_items self)
  ]

module _ {W : Type 0} (network : Network W) (wire : Wire) (display : Display)
    (describe : RemoteError → Text) (read_error : Text → Option ErrorDto) where
  unfoldable pub refresh_tasks : Client W RemoteError (Unit {0})
  unfolding ensure_version read decode_tasks recorded adopt_catalog confirmed
  refresh_tasks = do
    ensure_version network
    dtos ← read network network.task_catalog
    items ← recorded network (decode_tasks wire dtos)
    adopt_catalog items
    confirmed

  unfoldable pub refresh_task_list : Client W RemoteError (Unit {0})
  unfolding ensure_version read decode_task_list_state recorded adopt_catalog adopt_tracking
      confirmed
  refresh_task_list = do
    ensure_version network
    dto ← read network network.task_list_state
    (items, state) ← recorded network (decode_task_list_state wire dto)
    adopt_catalog items
    adopt_tracking state
    confirmed

  unfoldable pub refresh_task_command_view : Client W RemoteError (Unit {0})
  unfolding refresh_tasks refresh_task_list
  refresh_task_command_view = gets (λ self. self.coherent_task_views) >>= λ coherent.
      if coherent then refresh_task_list else refresh_tasks

  unfoldable pub task_result : TaskId → MutationResultDto → Result ApplicationError Task
  unfolding decode_task
  task_result expected_id (Mutation.task dto) =
      Prelude.◌>>=◌ (map_err (λ error. protocol_failure (describe error)) (decode_task wire dto))
        λ task.
          if not (task.id == expected_id)
          then err (protocol_failure (codes "task result has a different id"))
          else ok task
  task_result expected_id _ = err (protocol_failure (codes "wrong task result"))

  -- The task that the command describes.
  unfoldable pub created_result :
      TaskId → CreateTaskRequest → MutationResultDto → Result ApplicationError Task
  unfolding task_result list_eq
  created_result id body result = Prelude.◌>>=◌ (task_result id result) λ task.
      if not (list_eq task.name.text body.name)
        || task.archived
        || not (task.created_at == body.occurred_at)
        || not (task.updated_at == body.occurred_at)
      then err (protocol_failure (codes "created task contradicts command"))
      else ok task

  unfoldable pub post_task : TaskId → CreateTaskRequest → Client W ApplicationError Task
  unfolding mutation created_result
  post_task id body =
      mutation network describe read_error (network.post_task body) body.request_id none
        (created_result id body)

  -- What a command reports after the resources were read again.
  unfoldable pub settled :
      {A : Type 0}
      → Result ApplicationError A
      → Result RemoteError (Unit {0})
      → Client W ApplicationError A
  unfolding confirmed map_application_error
  settled (ok value) (ok _) = confirmed >> pure value
  settled (ok value) (err error) = pure value
  settled (err error) (ok _) = fail error
  settled (err error) (err failed) =
      fail (with_recovery_failure error (map_application_error describe read_error failed none))

  unfoldable pub finish_task_mutation :
      {A : Type 0} → Result ApplicationError A → Client W ApplicationError A
  unfolding refresh_task_command_view settled
  finish_task_mutation result = gets (λ self. self.session.last_write_attempted) >>= λ attempted.
      if not attempted
      then from_result result
      else attempt refresh_task_command_view >>= settled result

  -- Whether the request is kept.
  unfoldable pub pending_after :
      Option CreateTaskRequest
      → CreateTaskRequest
      → Bool
      → Bool
      → Result ApplicationError Task
      → Option CreateTaskRequest
  unfolding creation_needs_recovery
  pending_after before body attempted receipt_confirmed (ok task) =
      if not attempted then before else none
  pending_after before body attempted receipt_confirmed (err error) =
      if not attempted
      then before
      else if creation_needs_recovery display error receipt_confirmed
      then some body
      else none

  unfoldable pub parse_task_id : Text → Result ApplicationError TaskId
  parse_task_id text = ok_or (wire.parse text) (protocol_failure (codes "invalid pending task id"))

  unfoldable pub send_creation :
      Option CreateTaskRequest → CreateTaskRequest → Client W ApplicationError Task
  unfolding parse_task_id ensure_version post_task finish_task_mutation pending_after checked
      map_application_error
  send_creation before body = do
    id ← from_result (parse_task_id body.task_id)
    checked (λ error. map_application_error describe read_error error none) (ensure_version network)
    set_pending (some body)
    sent ← attempt (post_task id body)
    finished ← attempt (finish_task_mutation sent)
    attempted ← gets (λ self. self.session.last_write_attempted)
    set_pending (pending_after before body attempted (is_ok sent) finished)
    from_result finished

  -- The task of the pending request, once the catalog was read again.
  unfoldable pub recover_creation : CreateTaskRequest → TaskName → Client W ApplicationError Task
  unfolding refresh_task_command_view parse_task_id task_item send_creation checked list_eq
      map_application_error
  recover_creation pending name =
      checked (λ error. map_application_error describe read_error error none)
        refresh_task_command_view
      >>= λ _.
          if not (list_eq pending.name name.text)
          then fail (
              semantic general
                (codes "Recover the pending task creation before creating another task"))
          else from_result (parse_task_id pending.task_id) >>= λ id.
              gets (task_item id) >>= λ found. elim found [
                | some item ↦ set_pending none >> pure item.task
                | none ↦ send_creation (some pending) pending
              ]

  -- A new request takes a generated identifier and a generated request identifier.
  unfoldable pub create_task : TaskName → Instant → TaskId → Text → Client W ApplicationError Task
  unfolding begin_command recover_creation send_creation canonical_timestamp
  create_task name occurred_at generated request_id = do
    begin_command
    pending ← gets (λ self. self.pending_create)
    elim pending [
      | some body ↦ recover_creation body name
      | none ↦ send_creation none (record {
        task_id = wire.print generated;
        name = name.text;
        occurred_at = canonical_timestamp occurred_at;
        request_id = request_id;
      })
    ]
