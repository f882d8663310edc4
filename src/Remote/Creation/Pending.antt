-- ===== src/Remote/Creation/Pending.antt =====
-- A creation whose outcome is not known.
use time_tracker.Prelude.{◌≡◌, sym, ap, ◌∙◌, false, Option, none, some}
use time_tracker.Prelude.Text.{Text}
use time_tracker.Domain.Values.{TaskId, Instant}
use time_tracker.Domain.TaskName.{TaskName}
use time_tracker.Domain.Task.{Task}
use time_tracker.Application.Timestamps.{canonical_timestamp}
use time_tracker.Application.Error.{ApplicationError}
use time_tracker.Application.Error.Failure.{Display}
use time_tracker.Remote.Protocol.{Wire}
use time_tracker.Remote.Mutation.{MutationDto}
use time_tracker.Remote.Errors.{RemoteError, ErrorDto}
use time_tracker.Remote.Transport.{Exchange}
use time_tracker.Remote.Client.{
  CreateTaskRequest, Network, RemoteApplication, Client, ◌>>=◌, continue, gets, modify,
}
use time_tracker.Remote.Session.{
  begin_command, mutation, ensure_version, check_connection, read, recorded, record_error,
  decode_receipt,
}
use time_tracker.Remote.Creation.{
  create_task, recover_creation, send_creation, refresh_task_command_view, post_task, refresh_tasks,
  refresh_task_list, finish_task_mutation, settled,
}

-- The client at the start of a command.
abbrev pub begun : {W : Type 0} → RemoteApplication W → RemoteApplication W
begun self = record self { session = record self.session { last_write_attempted = false } }

module _ {W : Type 0} (network : Network W) (wire : Wire) (display : Display)
    (describe : RemoteError → Text) (read_error : Text → Option ErrorDto) where
  resumed :
      (self : RemoteApplication W) (body : CreateTaskRequest) (name : TaskName) (at : Instant)
      (generated : TaskId) (request_id : Text)
      → self.pending_create ≡ some body
      → create_task network wire display describe read_error name at generated request_id self
        ≡ recover_creation network wire display describe read_error body name (begun self)
  unfolding create_task begin_command ◌>>=◌ continue gets modify
  resumed self body name at generated request_id p = ap (λ o. command o (begun self)) p
    where
      command : Option CreateTaskRequest → Client W ApplicationError Task
      command pending = elim pending [
        | some body ↦ recover_creation network wire display describe read_error body name
        | none ↦ send_creation network wire display describe read_error none (record {
          task_id = wire.print generated;
          name = name.text;
          occurred_at = canonical_timestamp at;
          request_id = request_id;
        })
      ]

module _ {W : Type 0} (network : Network W) (wire : Wire) (display : Display)
    (describe : RemoteError → Text) (read_error : Text → Option ErrorDto) where
  alike :
      (self : RemoteApplication W) (body : CreateTaskRequest) (name : TaskName)
      (post : CreateTaskRequest → Exchange W MutationDto)
      → post body ≡ network.post_task body
      → recover_creation
          (record network { post_task = post })
          wire
          display
          describe
          read_error
          body
          name
          self
        ≡ recover_creation network wire display describe read_error body name self
  unfolding recover_creation send_creation post_task mutation refresh_task_command_view
      refresh_tasks refresh_task_list ensure_version check_connection read recorded record_error
      finish_task_mutation settled decode_receipt
  alike self body name post e =
      ap
        (λ (x : Exchange W MutationDto).
          recover_creation (record network { post_task = λ _. x }) wire display describe read_error
            body name self)
        e

  -- While a request is kept, creating a task depends on nothing that is sent but this request: any
  -- network that answers it alike gives the same result and leaves the same client behind, whatever
  -- identifiers were generated.
  pub create_task-resends :
      (self : RemoteApplication W) (body : CreateTaskRequest) (name : TaskName) (at at' : Instant)
      (generated generated' : TaskId) (request_id request_id' : Text)
      (post : CreateTaskRequest → Exchange W MutationDto)
      → self.pending_create ≡ some body
      → post body ≡ network.post_task body
      → create_task
          (record network { post_task = post })
          wire
          display
          describe
          read_error
          name
          at
          generated
          request_id
          self
        ≡ create_task network wire display describe read_error name at' generated' request_id' self
  create_task-resends self body name at at' generated generated' request_id request_id' post p e =
      resumed (record network { post_task = post }) wire display describe read_error self body name
        at generated request_id p
      ∙ alike (begun self) body name post e
      ∙ sym (
          resumed network wire display describe read_error self body name at' generated' request_id'
            p)
