-- ===== src/Storage/Reads.antt =====
-- The queries that the operations of crates/tracker-storage/src/sqlite share, and transactions.
pub mod Inversion
use Prim.Native.Nat.{max}
use mathlib.Core.Option
use time_tracker.Prelude.{
  ℕ, ◌≡◌, Bool, true, false, Option, none, some, List, [], ◌∷◌, Result, ok, err, ◌>>=◌,
  transpose_map, collect, ltb, ◌==◌, if◌then◌else◌, is_none,
}
use time_tracker.Prelude.Table.{find_row}
use time_tracker.Prelude.Sort.{sort}
use time_tracker.Domain.Values.{TaskId, WorklogId, Instant}
use time_tracker.Domain.Task.{Task}
use time_tracker.Domain.Worklog.{Worklog}
use time_tracker.Storage.Mapping.{us_to_timestamp}
use time_tracker.Application.Model.{TaskListItem, ActiveTrackingRead}
use time_tracker.Storage.Errors.{StorageError}
use time_tracker.Storage.Schema.{TaskRow, WorklogRow, Database, task_key, worklog_key}
use time_tracker.Storage.Mapping.{task_from_row, worklog_from_row}

-- A transaction that is dropped without a commit is rolled back.
unfoldable pub transact :
    {A : Type 0} → Database → Result StorageError (A × Database) → Result StorageError A × Database
transact db (ok (a, committed)) = (ok a, committed)
transact db (err error) = (err error, db)

-- The row with the key, if it also passes the rest of the WHERE clause.
unfoldable pub select_worklog :
    WorklogId → (WorklogRow → Bool) → List WorklogRow → Option WorklogRow
select_worklog id test rows = elim (find_row worklog_key id rows) [
  | none ↦ none
  | some row ↦ if test row then some row else none
]

unfoldable pub task_by_id_on : Database → TaskId → Result StorageError (Option Task)
unfolding task_from_row
task_by_id_on db id = transpose_map task_from_row (find_row task_key id db.tasks)

unfoldable pub worklog_by_id_on : Database → WorklogId → Result StorageError (Option Worklog)
unfolding worklog_from_row
worklog_by_id_on db id = transpose_map worklog_from_row (find_row worklog_key id db.worklogs)

-- MAX, which is NULL where there is no row.
unfoldable pub max_option : ℕ → Option ℕ → Option ℕ
max_option a none = some a
max_option a (some b) = some (max a b)

-- SELECT MAX(start_us) FROM worklogs WHERE task_id = ?1
unfoldable pub max_start_us : TaskId → List WorklogRow → Option ℕ
unfolding max_option
max_start_us task_id [] = none
max_start_us task_id (w ∷ ws) =
    let rest = max_start_us task_id ws in
    if w.task_id == task_id then max_option w.start_us rest else rest

unfoldable pub latest_work_start_on : Database → TaskId → Result StorageError (Option Instant)
unfolding max_start_us us_to_timestamp
latest_work_start_on db task_id = transpose_map us_to_timestamp (max_start_us task_id db.worklogs)

-- WHERE end_us IS NULL
unfoldable pub find_active : List WorklogRow → Option WorklogRow
find_active [] = none
find_active (w ∷ ws) = if is_none w.end_us then some w else find_active ws

unfoldable pub active_worklog_on : Database → Result StorageError (Option Worklog)
unfolding find_active worklog_from_row
active_worklog_on db = transpose_map worklog_from_row (find_active db.worklogs)

unfoldable pub task_item_from_row : Database → TaskRow → Result StorageError TaskListItem
unfolding task_from_row latest_work_start_on
task_item_from_row db row = do
  task ← task_from_row row
  latest_work_start ← latest_work_start_on db row.id
  ok (record { task = task; latest_work_start = latest_work_start })

unfoldable pub task_item_by_id_on : Database → TaskId → Result StorageError (Option TaskListItem)
unfolding task_item_from_row
task_item_by_id_on db id = transpose_map (task_item_from_row db) (find_row task_key id db.tasks)

abbrev pub by_task_id : TaskRow → TaskRow → Bool
by_task_id a b = ltb a.id b.id

-- ORDER BY t.id
unfoldable pub list_task_items_on : Database → Result StorageError (List TaskListItem)
unfolding task_item_from_row sort
list_task_items_on db = collect (task_item_from_row db) (sort by_task_id db.tasks)

-- `.transpose()?.flatten()` of what belongs to the active worklog.
abbrev pub flatten :
    {A : Type 0} → Result StorageError (Option (Option A)) → Result StorageError (Option A)
flatten (ok (some found)) = ok found
flatten (ok none) = ok none
flatten (err error) = err error

unfoldable pub active_tracking_read_on : Database → Result StorageError ActiveTrackingRead
unfolding active_worklog_on task_item_by_id_on
active_tracking_read_on db = do
  active_worklog ← active_worklog_on db
  active_task_item ←
      flatten (transpose_map (λ active. task_item_by_id_on db active.task_id) active_worklog)
  ok (record { active_worklog = active_worklog; active_task_item = active_task_item })

-- The active worklog and its task's latest work start.
unfoldable pub active_adoption_on : Database → Result StorageError (Option Worklog × Option Instant)
unfolding active_worklog_on latest_work_start_on
active_adoption_on db = do
  active_worklog ← active_worklog_on db
  active_task_latest_work_start ←
      flatten (transpose_map (λ active. latest_work_start_on db active.task_id) active_worklog)
  ok (active_worklog, active_task_latest_work_start)
