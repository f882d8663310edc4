-- ===== src/Storage/Schema.antt =====
-- The current schema of crates/tracker-storage/src/migrate.rs: its tables, and the tests of
-- its constraints and triggers.
pub mod Predecessor
use time_tracker.Prelude.{
  ℕ, ◌+◌, ◌≤◌, ◌<◌, ◌≡◌, Bool, true, false, not, ◌&&◌, ◌||◌, Option, none, some, List, [], ◌∷◌, map,
  Result, ok, err, ◌>>=◌, ◌>>◌, ltb, leb, ◌==◌, if◌then◌else◌, is_none_or, is_some_and, is_none,
  keep, any,
}
use time_tracker.Prelude.Table.{find_row, set_row, remove_row}
use time_tracker.Domain.Values.{TaskId, WorklogId}
use time_tracker.Storage.Errors.{
  Sqlite, SqlError, Message, check, primary_key, unique, foreign_key, trigger, task_is_archived,
  task_is_active, worklog_overlap, active_worklog_delete, worklog_duration, worklogs_id_unique,
  tasks_id_unique, single_active_unique,
}

pub record TaskRow : Type 0 where
  pub id : TaskId
  pub name : List ℕ
  pub archived : Bool
  pub created_at_us : ℕ
  pub updated_at_us : ℕ
  pub history_order_revision : ℕ

pub record WorklogRow : Type 0 where
  pub id : WorklogId
  pub task_id : TaskId
  pub start_us : ℕ
  pub end_us : Option ℕ

pub record Database : Type 0 where
  pub tasks : List TaskRow
  pub worklogs : List WorklogRow
  pub global_worklog_revision : ℕ

abbrev pub task_key : TaskRow → TaskId
task_key t = t.id

abbrev pub worklog_key : WorklogRow → WorklogId
worklog_key w = w.id

abbrev pub Check : Type 0
Check = Bool × SqlError

abbrev pub raises : Message → SqlError
raises message = record { code = trigger; message = some message }

-- WHEN NEW.task_id IN (SELECT id FROM tasks WHERE archived = 1)
unfoldable pub is_archived_task : List TaskRow → TaskId → Bool
is_archived_task tasks id = is_some_and (find_row task_key id tasks) (λ t. t.archived)

-- end_us IS NULL OR end_us > start_us
unfoldable pub is_nonzero : WorklogRow → Bool
is_nonzero w = is_none_or w.end_us (λ end. ltb w.start_us end)

-- The rows that may come before NEW: same task, another worklog, and started before NEW ends.
unfoldable pub is_candidate : WorklogRow → WorklogRow → Bool
unfolding is_nonzero
is_candidate new stored =
    (stored.task_id == new.task_id)
    && not (stored.id == new.id)
    && is_nonzero stored
    && is_none_or new.end_us (λ end. ltb stored.start_us end)

-- ORDER BY start_us DESC LIMIT 1
unfoldable pub latest : List WorklogRow → Option WorklogRow
latest [] = none
latest (r ∷ rs) = elim (latest rs) [
  | none ↦ some r
  | some p ↦ if ltb r.start_us p.start_us then some p else some r
]

unfoldable pub ends_after_start : WorklogRow → WorklogRow → Bool
ends_after_start new stored = is_none_or stored.end_us (λ end. ltb new.start_us end)

-- The version 4 overlap triggers: only the predecessor is looked at.
unfoldable pub overlaps_predecessor : WorklogRow → List WorklogRow → Bool
unfolding is_candidate latest ends_after_start
overlaps_predecessor new stored =
    is_nonzero new && is_some_and (latest (keep (is_candidate new) stored)) (ends_after_start new)

-- The version 3 overlap triggers: every stored row is looked at.
unfoldable pub overlaps_scan : WorklogRow → List WorklogRow → Bool
unfolding is_candidate ends_after_start
overlaps_scan new stored =
    is_nonzero new && any (λ s. is_candidate new s && ends_after_start new s) stored

-- NEW.end_us IS NOT NULL AND NEW.end_us <= NEW.start_us
unfoldable pub is_nonpositive : WorklogRow → Bool
is_nonpositive new = is_some_and new.end_us (λ end. leb end new.start_us)

-- CHECK (end_us IS NULL OR end_us >= start_us), negated
unfoldable pub ends_before_start : WorklogRow → Bool
ends_before_start new = is_some_and new.end_us (λ end. ltb end new.start_us)

-- The unique index on the active rows.
unfoldable pub is_second_active : WorklogRow → List WorklogRow → Bool
is_second_active new stored =
    is_none new.end_us && any (λ s. not (s.id == new.id) && is_none s.end_us) stored

-- The columns that an UPDATE of a worklog sets.
pub data Columns : Type 0 where
  sets_end sets_times sets_task : Columns

abbrev pub sets_task_id : Columns → Bool
sets_task_id sets_task = true
sets_task_id _ = false

abbrev pub sets_any_time : Columns → Bool
sets_any_time sets_task = false
sets_any_time _ = true

abbrev pub sets_start : Columns → Bool
sets_start sets_times = true
sets_start _ = false

-- UPDATE tasks SET history_order_revision = history_order_revision + 1 for the rows of the test
unfoldable pub bump_history : (TaskId → Bool) → List TaskRow → List TaskRow
bump_history test [] = []
bump_history test (t ∷ ts) =
    (if test t.id then record t { history_order_revision = t.history_order_revision + 1 } else t)
    ∷ bump_history test ts

-- The trigger worklogs_bump_history_order_revision.
unfoldable pub bump_order_revision : Columns → WorklogRow → WorklogRow → List TaskRow → List TaskRow
unfolding bump_history
bump_order_revision columns old new tasks =
    if (sets_task_id columns || sets_start columns)
      && (not (new.task_id == old.task_id) || not (new.start_us == old.start_us))
    then bump_history
        (λ id. id == old.task_id || (not (new.task_id == old.task_id) && id == new.task_id)) tasks
    else tasks
