-- ===== src/Storage/Invariant.antt =====
-- The invariant of a database under the schema of crates/tracker-storage/src/migrate.rs.
pub mod Guards
pub mod Insert
pub mod Revision
pub mod Update
pub mod Delete
pub mod Tasks
pub mod Readable
pub mod Range
use time_tracker.Prelude.{◌≡◌, ◌≤◌, Bool, true, false, List, [], map, is_none, Has}
use time_tracker.Prelude.Table.{Distinct}
use time_tracker.Domain.TaskName.Accepted.{IsName}
use time_tracker.Storage.Schema.{TaskRow, WorklogRow, Database, task_key, worklog_key}
use time_tracker.Storage.Schema.Predecessor.{IsDisjoint}

-- The name of a task row is valid and its timestamps are in order.
pub record IsReadable (t : TaskRow) : Type 0 where
  pub named : IsName (record { text = t.name })
  pub ordered : t.created_at_us ≤ t.updated_at_us

-- Identifiers are unique, every task row has a valid name and ordered timestamps, the worklogs of a
-- task are disjoint intervals of positive length, each worklog has a task, at most one is active,
-- and its task is not archived.
pub record IsConsistent (db : Database) : Type 0 where
  pub tasks_distinct : Distinct (map task_key db.tasks)
  pub worklogs_distinct : Distinct (map worklog_key db.worklogs)
  pub readable : (t : TaskRow) → Has t db.tasks → IsReadable t
  pub disjoint : IsDisjoint db.worklogs
  pub owned :
      (w : WorklogRow) → Has w db.worklogs → (t : TaskRow) × Has t db.tasks × (t.id ≡ w.task_id)
  pub single :
      (v w : WorklogRow)
      → Has v db.worklogs
      → Has w db.worklogs
      → is_none v.end_us ≡ true
      → is_none w.end_us ≡ true
      → v.id ≡ w.id
  pub unarchived :
      (w : WorklogRow) (t : TaskRow)
      → Has w db.worklogs
      → Has t db.tasks
      → t.id ≡ w.task_id
      → is_none w.end_us ≡ true
      → t.archived ≡ false

abbrev pub empty_database : Database
empty_database = record { tasks = []; worklogs = []; global_worklog_revision = 0 }

pub empty_database-IsConsistent : IsConsistent empty_database
empty_database-IsConsistent = record {
  tasks_distinct = tt;
  worklogs_distinct = tt;
  readable = λ t m. absurd m;
  disjoint = record { positive = λ w m. absurd m; apart = λ v w m n e. absurd m };
  owned = λ w m. absurd m;
  single = λ v w m n a b. absurd m;
  unarchived = λ w t m n e a. absurd m;
}
