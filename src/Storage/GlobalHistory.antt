-- ===== src/Storage/GlobalHistory.antt =====
-- The bounded pages of the history of all tasks, of crates/tracker-storage/src/sqlite/worklogs.rs.
use time_tracker.Prelude.{
  ℕ, suc, not, Option, none, some, List, [], ◌∷◌, Result, ok, ◌>>=◌, ◌>>◌, reject, collect, ltb,
  ◌==◌, if◌then◌else◌, is_some_and, keep, take, length, ok_or,
}
use time_tracker.Prelude.Sort.{sort}
use time_tracker.Domain.Values.{TaskId, WorklogId}
use time_tracker.Domain.Worklog.{Worklog}
use time_tracker.Application.Model.{
  TaskListItem, WorklogCursor, GlobalWorklogPage, worklog_page_size,
}
use time_tracker.Storage.Errors.{StorageError, global_worklog_history_changed}
use time_tracker.Storage.Schema.{WorklogRow, Database}
use time_tracker.Storage.Mapping.{worklog_from_row}
use time_tracker.Storage.Reads.{task_item_by_id_on, active_tracking_read_on}
use time_tracker.Storage.History.{in_history_order, cursor_anchor_on, follows, next_cursor_of}

unfoldable pub global_worklog_rows_on : Database → Option (ℕ × WorklogId) → List WorklogRow
unfolding follows sort
global_worklog_rows_on db after =
    take (suc worklog_page_size) (sort in_history_order (keep (follows after) db.worklogs))

unfoldable pub resolve_global_anchor :
    Database → Option WorklogCursor → Result StorageError (Option (ℕ × WorklogId))
unfolding cursor_anchor_on
resolve_global_anchor db none = ok none
resolve_global_anchor db (some cursor) = do
  anchor ← ok_or (cursor_anchor_on db cursor.id none) global_worklog_history_changed
  ok (some anchor)

-- Inserting an identifier into a `BTreeSet`.
unfoldable pub insert_id : TaskId → List TaskId → List TaskId
insert_id id [] = id ∷ []
insert_id id (other ∷ ids) =
    let rest = insert_id id ids in
    if ltb id other then id ∷ other ∷ ids else if id == other then other ∷ ids else other ∷ rest

unfoldable pub task_id_set : List Worklog → List TaskId
unfolding insert_id
task_id_set [] = []
task_id_set (worklog ∷ worklogs) = insert_id worklog.task_id (task_id_set worklogs)

-- `filter_map` of the items that are there; the first error ends the collection.
unfoldable pub task_items_on : Database → List TaskId → Result StorageError (List TaskListItem)
unfolding task_item_by_id_on
task_items_on db [] = ok []
task_items_on db (id ∷ ids) = do
  found ← task_item_by_id_on db id
  items ← task_items_on db ids
  ok (elim found [ none ↦ items | some item ↦ item ∷ items ])

unfoldable pub global_worklog_page :
    Database → Option WorklogCursor → Result StorageError GlobalWorklogPage
unfolding resolve_global_anchor global_worklog_rows_on worklog_from_row next_cursor_of task_id_set
    task_items_on active_tracking_read_on
global_worklog_page db after =
    let revision = db.global_worklog_revision in
    do
      reject (is_some_and after (λ cursor. not (cursor.revision == revision)))
          global_worklog_history_changed
      anchor ← resolve_global_anchor db after
      let raw = global_worklog_rows_on db anchor
      worklogs ← collect worklog_from_row (take worklog_page_size raw)
      task_items ← task_items_on db (task_id_set worklogs)
      tracking ← active_tracking_read_on db
      ok (record {
        worklogs = worklogs;
        task_items = task_items;
        tracking = some tracking;
        next_cursor = next_cursor_of (ltb worklog_page_size (length raw)) revision worklogs;
      })
