-- ===== src/Application/Model.antt =====
-- The read models of crates/tracker-application/src/model.rs and repository.rs.
use time_tracker.Prelude.{ℕ, Option, List}
use time_tracker.Domain.Values.{WorklogId, Instant}
use time_tracker.Domain.Task.{Task}
use time_tracker.Domain.Worklog.{Worklog}

pub record TaskListItem : Type 0 where
  pub task : Task
  pub latest_work_start : Option Instant

-- A duration is its number of microseconds; every reported one is positive.
pub record ReportRow : Type 0 where
  pub task : Task
  pub duration : ℕ

pub record ReportTotals : Type 0 where
  pub rows : List ReportRow
  pub total : ℕ

abbrev pub worklog_page_size : ℕ
worklog_page_size = 50

-- `WorklogCursor` and `GlobalWorklogCursor` have the same fields.
pub record WorklogCursor : Type 0 where
  pub id : WorklogId
  pub revision : ℕ

pub record WorklogPageAdoption : Type 0 where
  pub requested_task_latest_work_start : Option Instant
  pub active_worklog : Option Worklog
  pub active_task_latest_work_start : Option Instant

pub record WorklogPage : Type 0 where
  pub worklogs : List Worklog
  pub adoption : Option WorklogPageAdoption
  pub next_cursor : Option WorklogCursor

pub record ActiveTrackingRead : Type 0 where
  pub active_worklog : Option Worklog
  pub active_task_item : Option TaskListItem

pub record GlobalWorklogPage : Type 0 where
  pub worklogs : List Worklog
  pub task_items : List TaskListItem
  pub tracking : Option ActiveTrackingRead
  pub next_cursor : Option WorklogCursor

pub record InactiveTaskArchive : Type 0 where
  pub tasks : List Task
  pub tracking : ActiveTrackingRead

pub record WorklogCorrection : Type 0 where
  pub worklog : Worklog
  pub task_latest_work_start : Option Instant
  pub active_worklog : Option Worklog
  pub active_task_latest_work_start : Option Instant

pub record WorklogDeletion : Type 0 where
  pub worklog : Worklog
  pub task_latest_work_start : Option Instant

pub record WorklogMove : Type 0 where
  pub worklog : Worklog
  pub source_task_latest_work_start : Option Instant
  pub destination_task_latest_work_start : Option Instant
  pub active_worklog : Option Worklog
  pub active_task_latest_work_start : Option Instant

pub record InactiveTaskPreviewRead : Type 0 where
  pub tasks : List Task
  pub tracking : ActiveTrackingRead

pub record ReportRead : Type 0 where
  pub rows : List ReportRow
  pub tracking : ActiveTrackingRead

pub record TaskListReportRead : Type 0 where
  pub items : List TaskListItem
  pub rows : List ReportRow
  pub active_worklog : Option Worklog
