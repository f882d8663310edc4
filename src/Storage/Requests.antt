-- ===== src/Storage/Requests.antt =====
-- The writes of a repository as requests, in any order, by any clients: SQLite serialises them, so
-- a history is a list. A request that fails leaves what it left behind.
pub mod WorklogWrites
pub mod WorklogEdits
pub mod TaskWrites
pub mod TaskArchive
pub mod Consistent
pub mod WorklogRange
pub mod Kept
pub mod TaskRange
pub mod Ranged
use time_tracker.Prelude.{ℕ, ◌≤◌, ◌≡◌, Option, List, [], ◌∷◌}
use time_tracker.Domain.Values.{TaskId, WorklogId, Instant}
use time_tracker.Domain.TaskName.{TaskName}
use time_tracker.Domain.TaskName.Accepted.{IsName}
use time_tracker.Domain.Task.{Task}
use time_tracker.Domain.Worklog.{Worklog, WorklogTimes}
use time_tracker.Storage.Errors.{Sqlite}
use time_tracker.Storage.Schema.{Database}
use time_tracker.Storage.Tracking
use time_tracker.Storage.Tasks
use time_tracker.Storage.Worklogs

pub data Request : Type 0 where
  creates : Task → Request
  renames : TaskId → Option TaskName → TaskName → Instant → Request
  archives : TaskId → Option TaskName → Instant → Request
  unarchives : TaskId → Instant → Request
  archives_inactive : List TaskId → Instant → ℕ → Request
  inserts : Worklog → Request
  stops : WorklogId → Instant → Instant → Request
  switches : WorklogId → Instant → Instant → Worklog → Request
  moves : WorklogId → TaskId → WorklogTimes → TaskId → Request
  corrects : WorklogId → WorklogTimes → WorklogTimes → Request
  deletes : WorklogId → TaskId → WorklogTimes → Request

-- What the types of the domain guarantee of a request's arguments: names are valid.
abbrev pub IsRequest : Request → Type 0
IsRequest (creates task) = IsName task.name
IsRequest (renames id expected name at) = IsName name
IsRequest _ = Unit {0}

module _ ⦃sqlite : Sqlite⦄ where
  unfoldable pub perform : Database → Request → Database
  unfolding Tasks.create_task Tasks.rename_task_guarded Tasks.archive_task_guarded
      Tasks.unarchive_task Tasks.archive_inactive_tasks_with_period Tracking.insert_worklog
      Tracking.stop_worklog Tracking.switch_worklog Worklogs.compare_and_move_worklog
      Worklogs.compare_and_set_worklog_times Worklogs.compare_and_delete_completed_worklog
  perform db (creates task) = (Tasks.create_task db task).1
  perform db (renames id expected name at) = (Tasks.rename_task_guarded db id expected name at).1
  perform db (archives id expected at) = (Tasks.archive_task_guarded db id expected at).1
  perform db (unarchives id at) = (Tasks.unarchive_task db id at).1
  perform db (archives_inactive ids as_of days) =
      (Tasks.archive_inactive_tasks_with_period db ids as_of days).1
  perform db (inserts worklog) = (Tracking.insert_worklog db worklog).1
  perform db (stops id start end) = (Tracking.stop_worklog db id start end).1
  perform db (switches id start at next) = (Tracking.switch_worklog db id start at next).1
  perform db (moves id source expected destination) =
      (Worklogs.compare_and_move_worklog db id source expected destination).1
  perform db (corrects id expected replacement) =
      (Worklogs.compare_and_set_worklog_times db id expected replacement).1
  perform db (deletes id task_id expected) =
      (Worklogs.compare_and_delete_completed_worklog db id task_id expected).1

  unfoldable pub run : Database → List Request → Database
  run db [] = db
  run db (r ∷ rs) = run (perform db r) rs
