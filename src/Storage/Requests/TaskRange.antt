-- ===== src/Storage/Requests/TaskRange.antt =====
-- The writes to tasks and the range of the stored counts and identifiers.
use time_tracker.Prelude.{
  ℕ, ◌≡◌, subst, inl, inr, Bool, true, false, not, Option, List, [], ◌∷◌, map, ok, ◌>>=◌, reject,
  Option-cases, bind-eq-ok, map_err-eq-ok, ok-injective, map_err, list_eq,
}
use time_tracker.Prelude.Table.{find_row, Has-find_row}
use time_tracker.Domain.Values.{TaskId, Instant}
use time_tracker.Domain.TaskName.{TaskName}
use time_tracker.Domain.Task.{Task}
use time_tracker.Domain.Task
use time_tracker.Application.Timestamps.{canonical_timestamp}
use time_tracker.Storage.Errors.{Sqlite, task_changed, inactive_task_candidates_changed}
use time_tracker.Storage.Schema.{TaskRow, Database, task_key}
use time_tracker.Storage.Statements
use time_tracker.Storage.Mapping.{task_row}
use time_tracker.Storage.Mapping.Range.{IsId, IsTaskInRange, IsInRange}
use time_tracker.Storage.Reads.{active_tracking_read_on}
use time_tracker.Storage.Reads.Inversion.{transact_keeps, written_keeps}
use time_tracker.Storage.Tasks.{
  stored_task, write_task, create_task, set_name, set_archived, rename_write, rename_task_guarded,
  archive_write, archive_task_guarded, restore_write, unarchive_task, name_changed, archive_all,
  archive_inactive_tasks_with_period, inactive_tasks_on,
}
use time_tracker.Storage.Invariant.Range.{insert_task-IsInRange, update_task-IsInRange}
use time_tracker.Storage.Requests.WorklogRange.{IsStorable}
use time_tracker.Storage.Requests.Kept.{
  canonical-IsStorable, IsKept, rename-IsKept, archive-IsKept, restore-IsKept, stored_task-IsKept,
  AreKept, inactive-AreKept,
}

module _ ⦃sqlite : Sqlite⦄ where
  pub creates-IsInRange :
      (db : Database) (task : Task)
      → IsInRange db
      → IsId task.id × IsStorable task.created_at × IsStorable task.updated_at
      → IsInRange (create_task db task).1
  unfolding create_task task_row
  creates-IsInRange db task v (i, c, u) =
      written_keeps IsInRange db (Statements.insert_task (task_row task) db) _
        (λ created. ok (tt, created)) v
        (λ db' h.
          insert_task-IsInRange (task_row task) db v (record { id = i; created = c; updated = u })
            h)
        (λ db' a db'' h. cc)

  -- A write to the row of a task: `set` keeps the identifier and the time of creation.
  write_task-IsInRange :
      (sets_archived : Bool) (id : TaskId) (set : TaskRow → TaskRow) (db : Database)
      {db' : Database}
      → IsInRange db
      → ((row : TaskRow) → IsTaskInRange row → IsTaskInRange (set row))
      → write_task sets_archived id set db ≡ ok db'
      → IsInRange db'
  unfolding write_task
  write_task-IsInRange sets_archived id set db v kept h =
      elim (Option-cases (find_row task_key id db.tasks)) [
        | inl e ↦ subst IsInRange (ok-injective (rw (e, write_task) at h)) v
        | inr (row, e) ↦
            let (m, _) = Has-find_row task_key id db.tasks row e in
            update_task-IsInRange sets_archived (set row) db v (kept row (v.tasks row m))
              (rw (e, write_task) at h)
      ]

  set_archived-IsInRange :
      (archived : Bool) (task : Task) (id : TaskId) (db : Database) {db' : Database}
      → IsInRange db
      → IsKept task
      → write_task true id (set_archived archived task) db ≡ ok db'
      → IsInRange db'
  set_archived-IsInRange archived task id db v k h =
      write_task-IsInRange true id (set_archived archived task) db v
        (λ row r. record { id = r.id; created = r.created; updated = k }) h

  rename_write-IsInRange :
      (db : Database) (task : Task) (changed : Bool) {a : Task} {db' : Database}
      → IsInRange db
      → IsKept task
      → rename_write db (task, changed) ≡ ok (a, db')
      → IsInRange db'
  unfolding rename_write
  rename_write-IsInRange db task false {db' = db'} v k h =
      let same : db ≡ db' = cc in subst IsInRange same v
  rename_write-IsInRange db task true {db' = db'} v k h =
      let (renamed, w, e) =
        bind-eq-ok (map_err _ (write_task false task.id (set_name task) db)) _ h in
      let same : renamed ≡ db' = cc in
      subst IsInRange same (
        write_task-IsInRange false task.id (set_name task) db v
          (λ row r. record { id = r.id; created = r.created; updated = k }) (map_err-eq-ok _ _ w))

  archive_write-IsInRange :
      (db : Database) (task : Task) (changed : Bool) {a : Task} {db' : Database}
      → IsInRange db
      → IsKept task
      → archive_write db (task, changed) ≡ ok (a, db')
      → IsInRange db'
  unfolding archive_write
  archive_write-IsInRange db task false {db' = db'} v k h =
      let same : db ≡ db' = cc in subst IsInRange same v
  archive_write-IsInRange db task true {db' = db'} v k h =
      let (archived, w, e) =
        bind-eq-ok (map_err _ (write_task true task.id (set_archived true task) db)) _ h in
      let same : archived ≡ db' = cc in
      subst IsInRange same (set_archived-IsInRange true task task.id db v k (map_err-eq-ok _ _ w))

  restore_write-IsInRange :
      (db : Database) (task : Task) (changed : Bool) {a : Task} {db' : Database}
      → IsInRange db
      → IsKept task
      → restore_write db (task, changed) ≡ ok (a, db')
      → IsInRange db'
  unfolding restore_write
  restore_write-IsInRange db task false {db' = db'} v k h =
      let same : db ≡ db' = cc in subst IsInRange same v
  restore_write-IsInRange db task true {db' = db'} v k h =
      let (restored, w, e) =
        bind-eq-ok (map_err _ (write_task true task.id (set_archived false task) db)) _ h in
      let same : restored ≡ db' = cc in
      subst IsInRange same (set_archived-IsInRange false task task.id db v k (map_err-eq-ok _ _ w))

  pub renames-IsInRange :
      (db : Database) (id : TaskId) (expected : Option TaskName) (name : TaskName) (at : Instant)
      → IsInRange db
      → IsStorable at
      → IsInRange (rename_task_guarded db id expected name at).1
  unfolding rename_task_guarded
  renames-IsInRange db id expected name at v s =
      transact_keeps IsInRange db
        (stored_task db id >>= λ task.
          reject (name_changed task expected) (task_changed id) >>= λ _.
          rename_write db (Task.rename task name (canonical_timestamp at)))
        v
        λ a db' h.
          let (task, read, rest) = bind-eq-ok (stored_task db id) _ h in
          let (_, _, done) = bind-eq-ok (reject (name_changed task expected) _) _ rest in
          rename_write-IsInRange db _ _ v
            (rename-IsKept task name at (stored_task-IsKept db id read) s) done

  pub archives-IsInRange :
      (db : Database) (id : TaskId) (expected : Option TaskName) (at : Instant)
      → IsInRange db
      → IsStorable at
      → IsInRange (archive_task_guarded db id expected at).1
  unfolding archive_task_guarded
  archives-IsInRange db id expected at v s =
      transact_keeps IsInRange db
        (stored_task db id >>= λ task.
          reject (name_changed task expected) (task_changed id) >>= λ _.
          archive_write db (Task.archive task (canonical_timestamp at)))
        v
        λ a db' h.
          let (task, read, rest) = bind-eq-ok (stored_task db id) _ h in
          let (_, _, done) = bind-eq-ok (reject (name_changed task expected) _) _ rest in
          archive_write-IsInRange db _ _ v
            (archive-IsKept task _ (stored_task-IsKept db id read) (canonical-IsStorable at s)) done

  pub unarchives-IsInRange :
      (db : Database) (id : TaskId) (at : Instant)
      → IsInRange db
      → IsStorable at
      → IsInRange (unarchive_task db id at).1
  unfolding unarchive_task
  unarchives-IsInRange db id at v s =
      transact_keeps IsInRange db
        (stored_task db id >>= λ task.
          restore_write db (Task.restore task (canonical_timestamp at)))
        v
        λ a db' h.
          let (task, read, done) = bind-eq-ok (stored_task db id) _ h in
          restore_write-IsInRange db _ _ v
            (restore-IsKept task _ (stored_task-IsKept db id read) (canonical-IsStorable at s)) done

  archive_all-IsInRange :
      (tasks : List Task) (as_of : Instant) (db : Database) {archived : List Task} {db' : Database}
      → IsInRange db
      → AreKept tasks
      → IsStorable as_of
      → archive_all tasks as_of db ≡ ok (archived, db')
      → IsInRange db'
  unfolding archive_all
  archive_all-IsInRange [] as_of db {db' = db'} v k s h =
      let same : db ≡ db' = cc in subst IsInRange same v
  archive_all-IsInRange (task ∷ tasks) as_of db {db' = db'} v (k, ks) s h =
      let archived = (Task.archive task as_of).0 in
      let (written, w, rest) =
        bind-eq-ok (map_err _ (write_task true task.id (set_archived true archived) db)) _ h in
      let ((others, last), e, done) = bind-eq-ok (archive_all tasks as_of written) _ rest in
      let same : last ≡ db' = cc in
      subst IsInRange same (
        archive_all-IsInRange tasks as_of written
          (set_archived-IsInRange true archived task.id db v (archive-IsKept task as_of k s)
            (map_err-eq-ok _ _ w))
          ks s e)

  pub archives_inactive-IsInRange :
      (db : Database) (ids : List TaskId) (as_of : Instant) (days : ℕ)
      → IsInRange db
      → IsStorable as_of
      → IsInRange (archive_inactive_tasks_with_period db ids as_of days).1
  unfolding archive_inactive_tasks_with_period
  archives_inactive-IsInRange db ids as_of days v s =
      transact_keeps IsInRange db
        (inactive_tasks_on db as_of days >>= λ tasks.
          reject (not (list_eq (map (λ (t : Task). t.id) tasks) ids))
            inactive_task_candidates_changed
          >>= λ _. archive_all tasks (canonical_timestamp as_of) db >>= λ (archived, db').
              active_tracking_read_on db' >>= λ tracking.
              ok (record { tasks = archived; tracking = tracking }, db'))
        v
        λ a db' h.
          let (tasks, found, rest) = bind-eq-ok (inactive_tasks_on db as_of days) _ h in
          let (_, _, next) =
            bind-eq-ok
              (reject (not (list_eq (map (λ (t : Task). t.id) tasks) ids))
                inactive_task_candidates_changed)
              _ rest in
          let ((archived, last), e, read) =
            bind-eq-ok (archive_all tasks (canonical_timestamp as_of) db) _ next in
          let (tracking, _, done) = bind-eq-ok (active_tracking_read_on last) _ read in
          let same : last ≡ db' = cc in
          subst IsInRange same (
            archive_all-IsInRange tasks _ db v (inactive-AreKept db as_of days found)
              (canonical-IsStorable as_of s) e)
