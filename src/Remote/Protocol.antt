-- ===== src/Remote/Protocol.antt =====
-- The data of crates/tracker-protocol/src/lib.rs behind its serialisation. Printing and parsing an
-- identifier is the uuid crate's: it is a parameter, with the law that a printed identifier parses.
use time_tracker.Prelude.{ℕ, ◌≡◌, Bool, Option, none, some, List}
use time_tracker.Prelude.Text.{Text}
use time_tracker.Domain.Values.{Instant}
use time_tracker.Domain.Task.{Task, TaskError}
use time_tracker.Domain.Worklog.{Worklog, WorklogError}
use time_tracker.Domain.TrackingError.{TrackingError}
use time_tracker.Application.Model.{TaskListItem}

-- `Display` and `FromStr` of identifiers, and the texts that thiserror derives.
pub record Wire : Type 0 where
  pub print : ℕ → Text
  pub parse : Text → Option ℕ
  pub parse-print : (id : ℕ) → parse (print id) ≡ some id
  pub task_error : TaskError → Text
  pub worklog_error : WorklogError → Text
  pub tracking_error : TrackingError → Text

pub record TaskDto : Type 0 where
  pub id : Text
  pub name : Text
  pub archived : Bool
  pub created_at : Instant
  pub updated_at : Instant
  pub latest_work_start : Option Instant

pub record WorklogDto : Type 0 where
  pub id : Text
  pub task_id : Text
  pub start : Instant
  pub end : Option Instant

pub record TaskListStateDto : Type 0 where
  pub tasks : List TaskDto
  pub active_worklog : Option WorklogDto

module _ (wire : Wire) where
  unfoldable pub task_dto : Task → TaskDto
  task_dto task = record {
    id = wire.print task.id;
    name = task.name.text;
    archived = task.archived;
    created_at = task.created_at;
    updated_at = task.updated_at;
    latest_work_start = none;
  }

  unfoldable pub item_dto : TaskListItem → TaskDto
  unfolding task_dto
  item_dto item = record (task_dto item.task) { latest_work_start = item.latest_work_start }

  unfoldable pub worklog_dto : Worklog → WorklogDto
  worklog_dto worklog = record {
    id = wire.print worklog.id;
    task_id = wire.print worklog.task_id;
    start = worklog.start;
    end = worklog.end;
  }
