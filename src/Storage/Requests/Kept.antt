-- ===== src/Storage/Requests/Kept.antt =====
-- The counts that a change of a stored task writes.
use Prim.Native.Nat.{max}
use time_tracker.Prelude.{
  ℕ, ◌≡◌, subst, sym, inl, inr, some, List, [], ◌∷◌, ok, arith, Option-cases, bind-eq-ok,
  transpose_map, ok-injective, collect,
}
use time_tracker.Prelude.Table.{find_row}
use time_tracker.Domain.Values.{TaskId, Instant}
use time_tracker.Domain.TaskName.{TaskName}
use time_tracker.Domain.Task.{Task}
use time_tracker.Domain.Task
use time_tracker.Domain.Task.Timestamps.{
  Change, renames, archives, restores, change, occurred, change-IsEffect,
}
use time_tracker.Application.Timestamps.{
  timestamp_to_us, canonical_timestamp, timestamp_to_us-canonical,
}
use time_tracker.Storage.Schema.{TaskRow, Database, task_key}
use time_tracker.Storage.Mapping.{task_from_row}
use time_tracker.Storage.Mapping.Readable.{task_from_row-IsTimestamp}
use time_tracker.Storage.Reads.{task_by_id_on}
use time_tracker.Storage.Tasks.{stored_task, inactive_tasks_on, inactive_task_cutoff}
use time_tracker.Storage.Requests.WorklogRange.{IsStorable}

-- The only count of a stored task that a change writes.
abbrev pub IsKept : Task → Type 0
IsKept task = IsStorable task.updated_at

later-IsStorable : (a b : Instant) → IsStorable a → IsStorable b → IsStorable (max a b)
unfolding timestamp_to_us
later-IsStorable a b (l, m) (n, o) = (omega arith, omega arith)

pub canonical-IsStorable : (at : Instant) → IsStorable at → IsStorable (canonical_timestamp at)
canonical-IsStorable at s = rw (timestamp_to_us-canonical at) s

changed-IsKept :
    (task : Task) (c : Change) → IsKept task → IsStorable (occurred c) → IsKept (change task c).0
changed-IsKept task c k s = elim (change-IsEffect task c) [
  | inl p ↦ subst IsKept (sym p.2) (later-IsStorable task.updated_at (occurred c) k s)
  | inr p ↦ subst IsKept (sym p.2) k
]

pub rename-IsKept :
    (task : Task) (name : TaskName) (at : Instant)
    → IsKept task
    → IsStorable at
    → IsKept (Task.rename task name (canonical_timestamp at)).0
rename-IsKept task name at k s =
    unfold change in
    changed-IsKept task (renames name (canonical_timestamp at)) k (canonical-IsStorable at s)

pub archive-IsKept :
    (task : Task) (at : Instant) → IsKept task → IsStorable at → IsKept (Task.archive task at).0
archive-IsKept task at k s = unfold change in changed-IsKept task (archives at) k s

pub restore-IsKept :
    (task : Task) (at : Instant) → IsKept task → IsStorable at → IsKept (Task.restore task at).0
restore-IsKept task at k s = unfold change in changed-IsKept task (restores at) k s

pub stored_task-IsKept :
    (db : Database) (id : TaskId) {task : Task} → stored_task db id ≡ ok task → IsKept task
unfolding stored_task task_by_id_on
stored_task-IsKept db id {task = task} h = elim (Option-cases (find_row task_key id db.tasks)) [
  | inl e ↦ let k = rw (e, stored_task, task_by_id_on) at h in absurd (ground arith)
  | inr (row, e) ↦
      let k = rw (e, stored_task, task_by_id_on) at h in
      let (found, read, rest) = bind-eq-ok (transpose_map task_from_row (some row)) _ k in
      let (read_task, same, kept) = bind-eq-ok (task_from_row row) _ read in
      let this : read_task ≡ task = ground arith in
      subst IsKept this (task_from_row-IsTimestamp row same)
]

-- Every task of a list is kept.
abbrev pub AreKept : List Task → Type 0
AreKept [] = Unit {0}
AreKept (task ∷ tasks) = IsKept task × AreKept tasks

collect-AreKept :
    (rows : List TaskRow) {tasks : List Task}
    → collect task_from_row rows ≡ ok tasks
    → AreKept tasks
collect-AreKept [] h = subst AreKept (ok-injective h) tt
collect-AreKept (row ∷ rows) h =
    let (task, read, rest) = bind-eq-ok (task_from_row row) _ h in
    let (tasks, others, done) = bind-eq-ok (collect task_from_row rows) _ rest in
    subst AreKept (ok-injective done)
      (task_from_row-IsTimestamp row read, collect-AreKept rows others)

pub inactive-AreKept :
    (db : Database) (as_of : Instant) (days : ℕ) {tasks : List Task}
    → inactive_tasks_on db as_of days ≡ ok tasks
    → AreKept tasks
unfolding inactive_tasks_on
inactive-AreKept db as_of days h =
    let (cutoff, _, rest) = bind-eq-ok (inactive_task_cutoff as_of days) _ h in
    collect-AreKept _ rest
