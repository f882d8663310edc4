-- ===== src/Storage/History.antt =====
-- The bounded pages of a task's history, of crates/tracker-storage/src/sqlite/worklogs.rs: keyset
-- pagination in the order start descending, identifier ascending.
pub mod Anchor
pub mod Rows
pub mod Pages
use mathlib.Core.List.{get_last?}
use time_tracker.Prelude.{
  ℕ, suc, Bool, true, false, not, ◌&&◌, ◌||◌, Option, none, some, List, Result, ok, ◌>>=◌, ◌>>◌,
  reject, collect, ltb, ◌==◌, is_some_and, is_none_or, keep, take, length, ok_or,
}
use time_tracker.Prelude.Sort.{sort}
use time_tracker.Prelude.Table.{find_row}
use time_tracker.Domain.Values.{TaskId, WorklogId}
use time_tracker.Domain.Worklog.{Worklog}
use time_tracker.Application.Model.{WorklogCursor, WorklogPage, worklog_page_size}
use time_tracker.Storage.Errors.{StorageError, worklog_history_changed}
use time_tracker.Storage.Schema.{WorklogRow, Database, task_key}
use time_tracker.Storage.Mapping.{worklog_from_row}
use time_tracker.Storage.Reads.{select_worklog, latest_work_start_on, active_adoption_on}

-- ORDER BY start_us DESC, id ASC
abbrev pub in_history_order : WorklogRow → WorklogRow → Bool
in_history_order a b = ltb b.start_us a.start_us || ((a.start_us == b.start_us) && ltb a.id b.id)

-- The anchor of a cursor: its start and identifier, if it is still there and of that task.
unfoldable pub cursor_anchor_on : Database → WorklogId → Option TaskId → Option (ℕ × WorklogId)
unfolding select_worklog
cursor_anchor_on db id task_id =
    elim (select_worklog id (λ row. is_none_or task_id (λ t. row.task_id == t)) db.worklogs) [
      | none ↦ none
      | some row ↦ some (row.start_us, id)
    ]

-- start_us < ?2 OR (start_us = ?2 AND id > ?3)
unfoldable pub follows : Option (ℕ × WorklogId) → WorklogRow → Bool
follows none row = true
follows (some (start_us, id)) row =
    ltb row.start_us start_us || ((row.start_us == start_us) && ltb id row.id)

unfoldable pub task_worklog_rows_on : Database → TaskId → Option (ℕ × WorklogId) → List WorklogRow
unfolding follows sort
task_worklog_rows_on db task_id after = take (suc worklog_page_size) (
    sort in_history_order (keep (λ row. (row.task_id == task_id) && follows after row) db.worklogs))

unfoldable pub history_revision : Database → TaskId → ℕ
history_revision db task_id = elim (find_row task_key task_id db.tasks) [
  | none ↦ 0
  | some t ↦ t.history_order_revision
]

-- The anchor that a cursor stands for; a missing one means that the history changed.
unfoldable pub resolve_anchor :
    Database → TaskId → Option WorklogCursor → Result StorageError (Option (ℕ × WorklogId))
unfolding cursor_anchor_on
resolve_anchor db task_id none = ok none
resolve_anchor db task_id (some cursor) = do
  anchor ← ok_or (cursor_anchor_on db cursor.id (some task_id)) (worklog_history_changed task_id)
  ok (some anchor)

-- The cursor behind a page that another one follows.
unfoldable pub next_cursor_of : Bool → ℕ → List Worklog → Option WorklogCursor
next_cursor_of false revision worklogs = none
next_cursor_of true revision worklogs = elim (get_last? worklogs) [
  | none ↦ none
  | some last ↦ some (record { id = last.id; revision = revision })
]

unfoldable pub worklog_page :
    Database → TaskId → Option WorklogCursor → Result StorageError WorklogPage
unfolding history_revision resolve_anchor task_worklog_rows_on worklog_from_row next_cursor_of
    latest_work_start_on active_adoption_on
worklog_page db task_id after =
    let revision = history_revision db task_id in
    do
      reject (is_some_and after (λ cursor. not (cursor.revision == revision)))
          (worklog_history_changed task_id)
      anchor ← resolve_anchor db task_id after
      let raw = task_worklog_rows_on db task_id anchor
      worklogs ← collect worklog_from_row (take worklog_page_size raw)
      requested_task_latest_work_start ← latest_work_start_on db task_id
      (active_worklog, active_task_latest_work_start) ← active_adoption_on db
      ok (record {
        worklogs = worklogs;
        adoption = some (record {
          requested_task_latest_work_start = requested_task_latest_work_start;
          active_worklog = active_worklog;
          active_task_latest_work_start = active_task_latest_work_start;
        });
        next_cursor = next_cursor_of (ltb worklog_page_size (length raw)) revision worklogs;
      })
