-- ===== src/Storage/Requests/TaskWrites.antt =====
-- The writes to tasks and the invariant, successful or failed.
use time_tracker.Prelude.{
  ◌≡◌, refl, ap, subst, ◌⊎◌, inl, inr, Bool, true, false, Option, some, ok, ◌>>=◌, reject, arith,
  Has, Option-cases, bind-eq-ok, transpose_map, map_err-eq-ok, ok-injective, Bool-cases, map_err,
}
use time_tracker.Prelude.Table.{find_row, Has-find_row}
use time_tracker.Domain.Values.{TaskId, Instant}
use time_tracker.Domain.TaskName.{TaskName, name_eq}
use time_tracker.Domain.TaskName.Accepted.{IsName}
use time_tracker.Domain.Task.{Task}
use time_tracker.Domain.Task
use time_tracker.Application.Timestamps.{canonical_timestamp}
use time_tracker.Storage.Errors.{Sqlite, task_changed}
use time_tracker.Storage.Schema.{TaskRow, Database, task_key}
use time_tracker.Storage.Statements
use time_tracker.Storage.Mapping.{task_from_row, task_row}
use time_tracker.Storage.Mapping.Readable.{task_from_row-IsName}
use time_tracker.Storage.Reads.{task_by_id_on}
use time_tracker.Storage.Reads.Inversion.{transact_keeps, written_keeps}
use time_tracker.Storage.Tasks.{
  stored_task, write_task, create_task, set_name, set_archived, rename_write, rename_task_guarded,
  archive_write, archive_task_guarded, restore_write, unarchive_task, name_changed,
}
use time_tracker.Storage.Invariant.{IsConsistent}
use time_tracker.Storage.Invariant.Tasks.{insert_task-IsConsistent, update_task-IsConsistent}

module _ ⦃sqlite : Sqlite⦄ where
  pub creates-IsConsistent :
      (db : Database) (task : Task)
      → IsConsistent db
      → IsName task.name
      → IsConsistent (create_task db task).1
  unfolding create_task task_row
  creates-IsConsistent db task v n =
      written_keeps IsConsistent db (Statements.insert_task (task_row task) db) _
        (λ created. ok (tt, created)) v (λ db' h. insert_task-IsConsistent (task_row task) db v n h)
        (λ db' a db'' h. cc)

  -- A guarded write to the row of a task: `set` keeps the identifier and leaves a valid name.
  write_task-IsConsistent :
      (sets_archived : Bool) (id : TaskId) (set : TaskRow → TaskRow) (db : Database)
      {db' : Database}
      → IsConsistent db
      → ((row : TaskRow) → (set row).id ≡ row.id)
      → ((row : TaskRow) → Has row db.tasks → IsName (record { text = (set row).name }))
      → ((row : TaskRow) → (sets_archived ≡ true) ⊎ ((set row).archived ≡ row.archived))
      → write_task sets_archived id set db ≡ ok db'
      → IsConsistent db'
  unfolding write_task
  write_task-IsConsistent sets_archived id set db v same named kept h =
      elim (Option-cases (find_row task_key id db.tasks)) [
        | inl e ↦ subst IsConsistent (ok-injective (rw (e, write_task) at h)) v
        | inr (row, e) ↦
            let (m, _) = Has-find_row task_key id db.tasks row e in
            update_task-IsConsistent sets_archived row (set row) db v m (same row) (named row m)
              (kept row) (rw (e, write_task) at h)
      ]

  pub set_archived-IsConsistent :
      (archived : Bool) (task : Task) (id : TaskId) (db : Database) {db' : Database}
      → IsConsistent db
      → write_task true id (set_archived archived task) db ≡ ok db'
      → IsConsistent db'
  set_archived-IsConsistent archived task id db v h =
      write_task-IsConsistent true id (set_archived archived task) db v (λ row. refl)
        (λ row m. (v.readable row m).named) (λ row. inl refl) h

  rename_write-IsConsistent :
      (db : Database) (task : Task) (changed : Bool) {a : Task} {db' : Database}
      → IsConsistent db
      → IsName task.name
      → rename_write db (task, changed) ≡ ok (a, db')
      → IsConsistent db'
  unfolding rename_write
  rename_write-IsConsistent db task false {db' = db'} v n h =
      let same : db ≡ db' = cc in subst IsConsistent same v
  rename_write-IsConsistent db task true {db' = db'} v n h =
      let (renamed, w, e) =
        bind-eq-ok (map_err _ (write_task false task.id (set_name task) db)) _ h in
      let same : renamed ≡ db' = cc in
      subst IsConsistent same (
        write_task-IsConsistent false task.id (set_name task) db v (λ row. refl) (λ row m. n)
          (λ row. inr refl) (map_err-eq-ok _ _ w))

  archive_write-IsConsistent :
      (db : Database) (task : Task) (changed : Bool) {a : Task} {db' : Database}
      → IsConsistent db
      → archive_write db (task, changed) ≡ ok (a, db')
      → IsConsistent db'
  unfolding archive_write
  archive_write-IsConsistent db task false {db' = db'} v h =
      let same : db ≡ db' = cc in subst IsConsistent same v
  archive_write-IsConsistent db task true {db' = db'} v h =
      let (archived, w, e) =
        bind-eq-ok (map_err _ (write_task true task.id (set_archived true task) db)) _ h in
      let same : archived ≡ db' = cc in
      subst IsConsistent same
        (set_archived-IsConsistent true task task.id db v (map_err-eq-ok _ _ w))

  restore_write-IsConsistent :
      (db : Database) (task : Task) (changed : Bool) {a : Task} {db' : Database}
      → IsConsistent db
      → restore_write db (task, changed) ≡ ok (a, db')
      → IsConsistent db'
  unfolding restore_write
  restore_write-IsConsistent db task false {db' = db'} v h =
      let same : db ≡ db' = cc in subst IsConsistent same v
  restore_write-IsConsistent db task true {db' = db'} v h =
      let (restored, w, e) =
        bind-eq-ok (map_err _ (write_task true task.id (set_archived false task) db)) _ h in
      let same : restored ≡ db' = cc in
      subst IsConsistent same
        (set_archived-IsConsistent false task task.id db v (map_err-eq-ok _ _ w))

  -- A renamed task has the new name, or the stored one.
  rename-IsName :
      (task : Task) (name : TaskName) (at : Instant)
      → IsName name
      → IsName task.name
      → IsName (Task.rename task name at).0.name
  unfolding Task.rename
  rename-IsName task name at n m = elim (Bool-cases (name_eq name task.name)) [
    | inl e ↦ rw e m
    | inr e ↦ rw e n
  ]

  stored_task-IsName :
      (db : Database) (id : TaskId) {task : Task} → stored_task db id ≡ ok task → IsName task.name
  unfolding stored_task task_by_id_on
  stored_task-IsName db id {task = task} h = elim (Option-cases (find_row task_key id db.tasks)) [
    | inl e ↦ let k = rw (e, stored_task, task_by_id_on) at h in absurd (ground arith)
    | inr (row, e) ↦
        let k = rw (e, stored_task, task_by_id_on) at h in
        let (found, read, rest) = bind-eq-ok (transpose_map task_from_row (some row)) _ k in
        let (read_task, same, kept) = bind-eq-ok (task_from_row row) _ read in
        let (_, n) = task_from_row-IsName row same in
        let this : read_task ≡ task = ground arith in
        subst IsName (ap (λ (t : Task). t.name) this) n
  ]

  pub renames-IsConsistent :
      (db : Database) (id : TaskId) (expected : Option TaskName) (name : TaskName) (at : Instant)
      → IsConsistent db
      → IsName name
      → IsConsistent (rename_task_guarded db id expected name at).1
  unfolding rename_task_guarded
  renames-IsConsistent db id expected name at v n =
      transact_keeps IsConsistent db
        (stored_task db id >>= λ task.
          reject (name_changed task expected) (task_changed id) >>= λ _.
          rename_write db (Task.rename task name (canonical_timestamp at)))
        v
        λ a db' h.
          let (task, read, rest) = bind-eq-ok (stored_task db id) _ h in
          let (_, _, done) = bind-eq-ok (reject (name_changed task expected) _) _ rest in
          rename_write-IsConsistent db _ _ v
            (rename-IsName task name _ n (stored_task-IsName db id read)) done

  pub archives-IsConsistent :
      (db : Database) (id : TaskId) (expected : Option TaskName) (at : Instant)
      → IsConsistent db
      → IsConsistent (archive_task_guarded db id expected at).1
  unfolding archive_task_guarded
  archives-IsConsistent db id expected at v =
      transact_keeps IsConsistent db
        (stored_task db id >>= λ task.
          reject (name_changed task expected) (task_changed id) >>= λ _.
          archive_write db (Task.archive task (canonical_timestamp at)))
        v
        λ a db' h.
          let (task, read, rest) = bind-eq-ok (stored_task db id) _ h in
          let (_, _, done) = bind-eq-ok (reject (name_changed task expected) _) _ rest in
          archive_write-IsConsistent db _ _ v done

  pub unarchives-IsConsistent :
      (db : Database) (id : TaskId) (at : Instant)
      → IsConsistent db
      → IsConsistent (unarchive_task db id at).1
  unfolding unarchive_task
  unarchives-IsConsistent db id at v =
      transact_keeps IsConsistent db
        (stored_task db id >>= λ task.
          restore_write db (Task.restore task (canonical_timestamp at)))
        v
        λ a db' h.
          let (task, read, done) = bind-eq-ok (stored_task db id) _ h in
          restore_write-IsConsistent db _ _ v done
