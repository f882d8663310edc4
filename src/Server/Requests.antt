-- ===== src/Server/Requests.antt =====
-- The commands of the server: the handlers of crates/tracker-server/src/tasks.rs, tracking.rs and
-- worklogs.rs behind JSON, with the requests of crates/tracker-protocol/src/lib.rs. The clock, the
-- fingerprint of a request and the texts of rejected names are parameters.
pub mod Operations
pub mod Served
use mathlib.Core.Option
use time_tracker.Prelude.{
  ℕ, ◌+◌, Bool, true, false, ◌||◌, Option, none, some, List, [], ◌∷◌, map, Result, ok, err, ok_or,
  map_err, transpose_map, is_none, differ, ltb, if◌then◌else◌, length,
}
use time_tracker.Prelude
use time_tracker.Prelude.Text.{Text, codes}
use time_tracker.Domain.Values.{TaskId, WorklogId, Instant}
use time_tracker.Domain.TaskName.{TaskName, TaskNameError}
use time_tracker.Domain.TaskName
use time_tracker.Domain.Task.{Task}
use time_tracker.Domain.Inactivity.{InactivityPeriod}
use time_tracker.Domain.Inactivity
use time_tracker.Domain.Worklog.{Worklog, WorklogTimes}
use time_tracker.Domain.ActiveWorklog.{to_worklog}
use time_tracker.Application.Error.{ApplicationError}
use time_tracker.Application.Error.Failure.{Display}
use time_tracker.Application.Repository.{TrackerRepository}
use time_tracker.Application.Service.{TrackerApplication, find_item}
use time_tracker.Application.Service.Command.{Command}
use time_tracker.Application.Service.Tracking.{
  SetActiveTaskOutcome, ClearActiveTaskOutcome, started, switched, already_active, stopped,
  already_idle,
}
use time_tracker.Application.Service.Tracking
use time_tracker.Application.Service.Tasks
use time_tracker.Application.Service.Worklogs
use time_tracker.Remote.Protocol.{Wire, item_dto, worklog_dto}
use time_tracker.Remote.Mutation.{
  MutationResultDto, MutationDto, tracking_switched, tracking_already_active, tracking_already_idle,
  archived_inactive,
}
use time_tracker.Remote.Mutation
use time_tracker.Remote.Client.{CreateTaskRequest}
use time_tracker.Server.Errors.{ApiError, invalid, internal, api_error}
use time_tracker.Server.Core.{Core, execute}
use time_tracker.Server.Handler.{Handler, pure, from_result, ◌>>=◌, ◌>>◌, call}
use time_tracker.Server.Commands.{
  TaskChangeRequest, rename, archive, restore, ArchiveInactiveTasksRequest, SetTrackingRequest,
  WorklogChangeRequest, move, correct, DeleteWorklogRequest, ServerRequest, create_task,
  change_task, archive_inactive_tasks, set_tracking, change_worklog, delete_worklog, guard_of,
}

-- Fifteen minutes in nanoseconds.
abbrev pub inactive_as_of_tolerance : ℕ
inactive_as_of_tolerance = 900_000_000_000

unfoldable pub validate_inactive_as_of : Instant → Instant → Result ApiError (Unit {0})
validate_inactive_as_of as_of now =
    if ltb (as_of + inactive_as_of_tolerance) now || ltb (now + inactive_as_of_tolerance) as_of
    then err (invalid (codes "Inactive task preview time is outside the allowed range"))
    else ok tt

module _ {S : Type 0} (repo : TrackerRepository S) (display : Display) (wire : Wire)
    (name_error : TaskNameError → Text) (period_error : Text) where
  unfoldable pub task_id : Text → Result ApiError TaskId
  task_id raw = ok_or (wire.parse raw) (invalid (codes "invalid task id"))

  unfoldable pub worklog_id : Text → Result ApiError WorklogId
  worklog_id raw = ok_or (wire.parse raw) (invalid (codes "invalid worklog id"))

  unfoldable pub task_name : Text → Result ApiError TaskName
  unfolding TaskName.new
  task_name raw = map_err (λ error. invalid (name_error error)) (TaskName.new raw)

  unfoldable pub inactivity_period : Instant → Instant → ℕ → Handler S InactivityPeriod
  unfolding validate_inactive_as_of Inactivity.new
  inactivity_period now as_of days = do
    from_result (validate_inactive_as_of as_of now)
    from_result (map_err (λ error. invalid period_error) (Inactivity.new days))

  unfoldable pub changed_task : TaskId → Handler S MutationResultDto
  unfolding find_item item_dto
  changed_task id app = (
    ok_or (Option.map (λ item. Mutation.task (item_dto wire item)) (find_item id app.tasks))
        internal,
    app,
  )

  unfoldable pub change_by : TaskId → TaskChangeRequest → Handler S Task
  unfolding task_name Tasks.rename_task Tasks.rename_task_with_expected_name Tasks.archive_task
      Tasks.archive_task_with_expected_name Tasks.unarchive_task
  change_by id (rename (some expected) name at request_id) = do
    reviewed ← from_result (task_name expected)
    chosen ← from_result (task_name name)
    call display (Tasks.rename_task_with_expected_name repo id reviewed chosen at)
  change_by id (rename none name at request_id) = do
    chosen ← from_result (task_name name)
    call display (Tasks.rename_task repo id chosen at)
  change_by id (archive (some expected) at request_id) = do
    reviewed ← from_result (task_name expected)
    call display (Tasks.archive_task_with_expected_name repo id reviewed at)
  change_by id (archive none at request_id) = call display (Tasks.archive_task repo id at)
  change_by id (restore at request_id) = call display (Tasks.unarchive_task repo id at)

  abbrev pub active_dto : SetActiveTaskOutcome → MutationResultDto
  active_dto (started worklog) = Mutation.worklog (worklog_dto wire worklog)
  active_dto (switched before next) =
      tracking_switched (worklog_dto wire before) (worklog_dto wire next)
  active_dto (already_active worklog) =
      tracking_already_active (worklog_dto wire (to_worklog worklog))

  abbrev pub cleared_dto : ClearActiveTaskOutcome → MutationResultDto
  cleared_dto (stopped worklog) = Mutation.worklog (worklog_dto wire worklog)
  cleared_dto already_idle = tracking_already_idle

  -- The closures that the handlers give to `execute`, with the identifiers parsed.
  unfoldable pub create : TaskId → TaskName → Instant → Handler S MutationResultDto
  unfolding changed_task Tasks.create_task_with_id
  create id name at = do call display (Tasks.create_task_with_id repo id name at); changed_task id

  unfoldable pub change : TaskId → TaskChangeRequest → Handler S MutationResultDto
  unfolding change_by changed_task
  change id request = do task ← change_by id request; changed_task task.id

  unfoldable pub archive_inactive :
      Instant → ArchiveInactiveTasksRequest → Handler S MutationResultDto
  unfolding inactivity_period Tasks.preview_inactive_tasks_with_period
      Tasks.archive_inactive_tasks_with_period
  archive_inactive now request = do
    period ← inactivity_period now request.as_of request.inactive_days
    candidates ← call display (Tasks.preview_inactive_tasks_with_period repo request.as_of period)
    archived ← call display (
        Tasks.archive_inactive_tasks_with_period repo (map (λ (task : Task). task.id) candidates)
          request.as_of period)
    pure (archived_inactive (length archived))

  unfoldable pub track :
      Instant → Option TaskId → Option WorklogId → Option WorklogId → Handler S MutationResultDto
  unfolding Tracking.set_active_task_guarded Tracking.clear_active_task worklog_dto to_worklog
  track at (some desired) (some new_id) expected = do
    outcome ←
        call display
          (λ app. Tracking.set_active_task_guarded repo app desired new_id (some expected) at)
    pure (active_dto outcome)
  track at none none (some active) = do
    outcome ← call display (λ app. Tracking.clear_active_task repo app active at)
    pure (cleared_dto outcome)
  track at _ _ _ = from_result (err (invalid (codes "Invalid tracking request")))

  unfoldable pub change_worklog_by : WorklogId → WorklogChangeRequest → Handler S MutationResultDto
  unfolding task_id Worklogs.move_worklog Worklogs.correct_worklog worklog_dto
  change_worklog_by id (move source expected destination request_id) = do
    from_id ← from_result (task_id source)
    to_id ← from_result (task_id destination)
    worklog ← call display (Worklogs.move_worklog repo id from_id expected to_id)
    pure (Mutation.worklog (worklog_dto wire worklog))
  change_worklog_by id (correct expected replacement at request_id) = do
    worklog ← call display (Worklogs.correct_worklog repo id expected replacement at)
    pure (Mutation.worklog (worklog_dto wire worklog))

  unfoldable pub delete_by : WorklogId → DeleteWorklogRequest → Handler S MutationResultDto
  unfolding task_id Worklogs.delete_completed_worklog worklog_dto
  delete_by id request = do
    expected ← from_result (task_id request.expected_task_id)
    worklog ← call display (
        Worklogs.delete_completed_worklog repo id expected
          (record { start = request.expected_start; end = some request.expected_end }))
    pure (Mutation.worklog (worklog_dto wire worklog))

  -- What a handler checks before it takes the lock, and the closure it then runs.
  unfoldable pub operation : Instant → ServerRequest → Result ApiError (Handler S MutationResultDto)
  unfolding task_id task_name worklog_id create change archive_inactive track change_worklog_by
      delete_by
  operation now (create_task body) =
      Prelude.◌>>=◌ (task_id body.task_id)
        λ id. Prelude.◌>>=◌ (task_name body.name) λ name. ok (create id name body.occurred_at)
  operation now (change_task raw request) = Prelude.◌>>=◌ (task_id raw) λ id. ok (change id request)
  operation now (archive_inactive_tasks request) = ok (archive_inactive now request)
  operation now (set_tracking request) =
      Prelude.◌>>=◌ (transpose_map task_id request.task_id) λ desired.
        Prelude.◌>>=◌ (transpose_map worklog_id request.worklog_id) λ new_id.
          Prelude.◌>>=◌ (transpose_map worklog_id request.expected_active) λ expected.
            if differ (is_none desired) (is_none new_id)
            then err (invalid (codes "A worklog ID is required when setting an active task"))
            else ok (track request.occurred_at desired new_id expected)
  operation now (change_worklog raw request) =
      Prelude.◌>>=◌ (worklog_id raw) λ id. ok (change_worklog_by id request)
  operation now (delete_worklog raw request) =
      Prelude.◌>>=◌ (worklog_id raw) λ id. ok (delete_by id request)

  -- A handler: the checks, the fingerprint of the request and `Core::execute`.
  unfoldable pub handle :
      (ServerRequest → Text)
      → Instant
      → ServerRequest
      → Core S
      → Result ApiError MutationDto × Core S
  unfolding operation execute
  handle fingerprint now request core = elim (operation now request) [
    | err error ↦ (err error, core)
    | ok closure ↦ execute wire.parse (guard_of request) (fingerprint request) closure core
  ]

  -- Requests in the order in which they take the lock, each with its time.
  unfoldable pub serve : (ServerRequest → Text) → List (Instant × ServerRequest) → Core S → Core S
  unfolding handle
  serve fingerprint [] core = core
  serve fingerprint ((now, request) ∷ rest) core =
      serve fingerprint rest (handle fingerprint now request core).1
