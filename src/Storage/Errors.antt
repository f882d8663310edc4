-- ===== src/Storage/Errors.antt =====
-- crates/tracker-storage/src/error.rs: SQLite failures and what the repository makes of them.
-- SQLite itself is a parameter: which of several violated constraints a statement reports.
use time_tracker.Prelude.{
  ◌&&◌, ◌||◌, Bool, true, false, Option, some, List, ◌∷◌, Has, ℕ, if◌then◌else◌,
}
use time_tracker.Domain.Values.{TaskId, WorklogId}
use time_tracker.Domain.Worklog.{Worklog}

-- The extended result codes that the code tells apart.
pub data SqlCode : Type 0 where
  check unique primary_key foreign_key trigger constraint_rule other : SqlCode

-- The messages of the triggers (crates/tracker-storage/src/migrate.rs), of the unique indexes, and
-- of the rules that the repository checks itself.
pub data Message : Type 0 where
  task_is_archived task_is_active worklog_overlap active_worklog_delete worklog_duration : Message
  worklogs_id_unique tasks_id_unique single_active_unique : Message
  must_move_to_other_task correction_keeps_completion : Message

pub record SqlError : Type 0 where
  pub code : SqlCode
  pub message : Option Message

-- The messages of the data that the code finds corrupt.
pub data Field : Type 0 where
  timestamp task_name task_timestamps worklog_interval same_task_worklog_overlap : Field

pub data StorageError : Type 0 where
  task_not_found task_changed task_already_exists : TaskId → StorageError
  task_archived task_is_active : TaskId → StorageError
  worklog_not_found worklog_already_stopped worklog_changed : WorklogId → StorageError
  worklog_is_active same_task_worklog_overlap worklog_already_exists : WorklogId → StorageError
  worklog_history_changed : TaskId → StorageError
  global_worklog_history_changed active_worklog_exists : StorageError
  inactive_task_candidates_changed invalid_inactive_task_time : StorageError
  report_duration_overflow negative_duration_worklogs : StorageError
  database_too_new : ℕ → ℕ → StorageError
  constraint sql : SqlError → StorageError
  corrupt_data : Field → StorageError
  invalid_id : StorageError

-- A statement that violates several constraints reports one of them.
pub record Sqlite : Type 0 where
  pub reported : SqlError → List SqlError → SqlError
  pub reported_lem : (e : SqlError) (es : List SqlError) → Has (reported e es) (e ∷ es)

abbrev code_eq : SqlCode → SqlCode → Bool
code_eq check check = true
code_eq unique unique = true
code_eq primary_key primary_key = true
code_eq foreign_key foreign_key = true
code_eq trigger trigger = true
code_eq constraint_rule constraint_rule = true
code_eq other other = true
code_eq _ _ = false

abbrev message_is : Message → Option Message → Bool
message_is task_is_archived (some task_is_archived) = true
message_is Message.task_is_active (some Message.task_is_active) = true
message_is worklog_overlap (some worklog_overlap) = true
message_is active_worklog_delete (some active_worklog_delete) = true
message_is worklog_duration (some worklog_duration) = true
message_is _ _ = false

-- `message.contains("worklogs.id")`
abbrev contains_worklogs_id : Option Message → Bool
contains_worklogs_id (some worklogs_id_unique) = true
contains_worklogs_id _ = false

unfoldable pub is_unique_violation : SqlError → Bool
is_unique_violation error = code_eq error.code unique || code_eq error.code primary_key

unfoldable pub is_check_violation : SqlError → Bool
is_check_violation error = code_eq error.code check

unfoldable pub is_foreign_key_violation : SqlError → Bool
is_foreign_key_violation error = code_eq error.code foreign_key

unfoldable pub is_trigger_violation : SqlError → Bool
is_trigger_violation error = code_eq error.code trigger

unfoldable pub classify_write_error : SqlError → StorageError
unfolding is_check_violation is_trigger_violation
classify_write_error error =
    if is_check_violation error
      || (is_trigger_violation error && message_is worklog_duration error.message)
    then constraint error
    else sql error

-- `constraint(message)` of error.rs
unfoldable pub rule_error : Message → StorageError
rule_error message = constraint (record { code = constraint_rule; message = some message })

unfoldable pub update_worklog_error : SqlError → WorklogId → StorageError
unfolding classify_write_error
update_worklog_error error id =
    if is_trigger_violation error && message_is worklog_overlap error.message
    then StorageError.same_task_worklog_overlap id
    else classify_write_error error

unfoldable pub move_worklog_error : SqlError → WorklogId → TaskId → StorageError
unfolding update_worklog_error is_foreign_key_violation
move_worklog_error error id destination_task_id =
    if is_trigger_violation error && message_is task_is_archived error.message
    then task_archived destination_task_id
    else if is_foreign_key_violation error
    then task_not_found destination_task_id
    else update_worklog_error error id

unfoldable pub delete_worklog_error : SqlError → WorklogId → StorageError
unfolding classify_write_error
delete_worklog_error error id =
    if is_trigger_violation error && message_is active_worklog_delete error.message
    then worklog_is_active id
    else classify_write_error error

unfoldable pub create_task_error : SqlError → TaskId → StorageError
unfolding classify_write_error is_unique_violation
create_task_error error id =
    if is_unique_violation error then task_already_exists id else classify_write_error error

unfoldable pub insert_worklog_error : SqlError → Worklog → StorageError
unfolding classify_write_error is_unique_violation is_foreign_key_violation
insert_worklog_error error worklog =
    if is_trigger_violation error
    then if message_is task_is_archived error.message
      then task_archived worklog.task_id
      else if message_is worklog_overlap error.message
      then StorageError.same_task_worklog_overlap worklog.id
      else classify_write_error error
    else if is_foreign_key_violation error
    then task_not_found worklog.task_id
    else if is_unique_violation error
    then if contains_worklogs_id error.message
      then worklog_already_exists worklog.id
      else active_worklog_exists
    else classify_write_error error

unfoldable pub archive_task_error : SqlError → TaskId → StorageError
unfolding classify_write_error
archive_task_error error id =
    if is_trigger_violation error && message_is Message.task_is_active error.message
    then StorageError.task_is_active id
    else classify_write_error error
