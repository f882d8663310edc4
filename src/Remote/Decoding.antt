-- ===== src/Remote/Decoding.antt =====
-- crates/tracker-remote/src/application/decoding.rs: a server's answer becomes domain values, or a
-- protocol error.
pub mod Trusted
use mathlib.Core.Option
use time_tracker.Prelude.{
  ℕ, Bool, true, false, not, ◌&&◌, Option, none, some, List, [], ◌∷◌, Result, ok, err, ◌>>=◌, ◌>>◌,
  reject, map_err, ok_or, transpose_map, ◌==◌, if◌then◌else◌, any,
}
use time_tracker.Prelude.Text.{Text, codes}
use time_tracker.Domain.Values.{TaskId}
use time_tracker.Domain.TaskName
use time_tracker.Domain.Task.{Task}
use time_tracker.Domain.Task
use time_tracker.Domain.Worklog.{Worklog}
use time_tracker.Domain.Worklog
use time_tracker.Domain.Tracking.{TrackingState, idle, resume}
use time_tracker.Application.Timestamps.{canonical_timestamp}
use time_tracker.Application.Model.{TaskListItem}
use time_tracker.Remote.Protocol.{Wire, TaskDto, WorklogDto, TaskListStateDto}
use time_tracker.Remote.Errors.{RemoteError}

-- `HashSet::insert` said that the identifier was there.
unfoldable pub seen : TaskId → List TaskId → Bool
seen id ids = any (λ other. other == id) ids

unfoldable pub has_active_task : List TaskListItem → TaskId → Bool
has_active_task items id = any (λ item. (item.task.id == id) && not item.task.archived) items

unfoldable pub validate_active_task :
    List TaskListItem → Option Worklog → Result RemoteError (Unit {0})
unfolding has_active_task
validate_active_task items none = ok tt
validate_active_task items (some active) =
    if not (has_active_task items active.task_id)
    then err (RemoteError.protocol (codes "active worklog has no active task"))
    else ok tt

module _ (wire : Wire) where
  unfoldable pub decode_task : TaskDto → Result RemoteError Task
  unfolding TaskName.new Task.rehydrate
  decode_task dto = do
    id ← ok_or (wire.parse dto.id) (RemoteError.protocol (codes "invalid task id"))
    name ← map_err (λ _. RemoteError.protocol (codes "invalid task name")) (TaskName.new dto.name)
    map_err (λ error. RemoteError.protocol (wire.task_error error))
        (Task.rehydrate id name dto.archived dto.created_at dto.updated_at)

  unfoldable pub decode_task_item : TaskDto → Result RemoteError TaskListItem
  unfolding decode_task
  decode_task_item dto = do
    task ← decode_task dto
    ok (record { task = task; latest_work_start = dto.latest_work_start })

  -- The `map` with its set of identifiers, and `collect`.
  unfoldable pub decode_unseen : List TaskId → List TaskDto → Result RemoteError (List TaskListItem)
  unfolding decode_task_item seen
  decode_unseen ids [] = ok []
  decode_unseen ids (dto ∷ dtos) = decode_task_item dto >>= λ item.
      reject (seen item.task.id ids) (RemoteError.protocol (codes "duplicate task")) >>= λ _.
      decode_unseen (item.task.id ∷ ids) dtos >>= λ items. ok (item ∷ items)

  unfoldable pub decode_tasks : List TaskDto → Result RemoteError (List TaskListItem)
  unfolding decode_unseen
  decode_tasks dtos = decode_unseen [] dtos

  unfoldable pub decode_worklog : WorklogDto → Result RemoteError Worklog
  unfolding Worklog.new canonical_timestamp
  decode_worklog dto = do
    id ← ok_or (wire.parse dto.id) (RemoteError.protocol (codes "invalid worklog id"))
    task_id ←
        ok_or (wire.parse dto.task_id) (RemoteError.protocol (codes "invalid worklog task id"))
    map_err (λ error. RemoteError.protocol (wire.worklog_error error))
        (Worklog.new id task_id (canonical_timestamp dto.start)
          (Option.map canonical_timestamp dto.end))

  unfoldable pub tracking_of : Option Worklog → Result RemoteError TrackingState
  unfolding resume
  tracking_of none = ok idle
  tracking_of (some worklog) = do
    tracker ← map_err (λ error. RemoteError.protocol (wire.tracking_error error)) (resume worklog)
    ok tracker.state

  unfoldable pub decode_active :
      Option WorklogDto → Result RemoteError (Option Worklog × TrackingState)
  unfolding decode_worklog tracking_of
  decode_active dto = do
    worklog ← transpose_map decode_worklog dto
    tracking ← tracking_of worklog
    ok (worklog, tracking)

  unfoldable pub decode_task_list_state :
      TaskListStateDto → Result RemoteError (List TaskListItem × TrackingState)
  unfolding decode_tasks decode_active validate_active_task
  decode_task_list_state dto = do
    items ← decode_tasks dto.tasks
    (active, state) ← decode_active dto.active_worklog
    validate_active_task items active
    ok (items, state)
