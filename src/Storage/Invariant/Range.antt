-- ===== src/Storage/Invariant/Range.antt =====
-- The statements and the range of the stored counts and identifiers.
use time_tracker.Prelude.{
  ◌≡◌, subst, sym, inl, inr, Bool, ok, bind-eq-ok, ok-injective, is_none, [], ◌∷◌,
}
use time_tracker.Prelude.Table.{Has-set_row, Has-remove_row}
use time_tracker.Storage.Errors.{Sqlite, active_worklog_delete}
use time_tracker.Storage.Schema.{
  TaskRow, WorklogRow, Database, Columns, task_key, worklog_key, raises,
}
use time_tracker.Storage.Statements.{
  enforce, insert_worklog_checks, insert_worklog, update_worklog_checks, update_worklog,
  delete_worklog, insert_task_checks, insert_task, update_task_checks, update_task,
}
use time_tracker.Storage.Mapping.Range.{
  IsTimestamp, IsId, IsTaskInRange, IsWorklogInRange, IsInRange,
}
use time_tracker.Storage.Invariant.Revision.{SameTask, bump_order_revision-SameTasks}

IsTaskInRange-SameTask : (t t' : TaskRow) → SameTask t t' → IsTaskInRange t → IsTaskInRange t'
IsTaskInRange-SameTask t t' (i, _, _, c, u) r = record {
  id = subst IsId i r.id;
  created = subst IsTimestamp c r.created;
  updated = subst IsTimestamp u r.updated;
}

module _ ⦃sqlite : Sqlite⦄ where
  pub insert_worklog-IsInRange :
      (db : Database) (new : WorklogRow) {db' : Database}
      → IsInRange db
      → IsWorklogInRange new
      → insert_worklog db new ≡ ok db'
      → IsInRange db'
  unfolding insert_worklog
  insert_worklog-IsInRange db new v n h =
      let (_, _, e) = bind-eq-ok (enforce (insert_worklog_checks db new)) _ h in
      subst IsInRange (ok-injective e) (record {
        tasks = v.tasks;
        worklogs =
            λ row m. elim m [ inl q ↦ subst IsWorklogInRange (sym q) n | inr m ↦ v.worklogs row m ];
      })

  pub update_worklog-IsInRange :
      (columns : Columns) (old new : WorklogRow) (db : Database) {db' : Database}
      → IsInRange db
      → IsWorklogInRange new
      → update_worklog columns old new db ≡ ok db'
      → IsInRange db'
  unfolding update_worklog
  update_worklog-IsInRange columns old new db v n h =
      let (_, _, e) = bind-eq-ok (enforce (update_worklog_checks columns old new db)) _ h in
      let (_, back, _) = bump_order_revision-SameTasks columns old new db.tasks in
      subst IsInRange (ok-injective e) (record {
        tasks = λ row m.
            let (t, stored, same) = back row m in
            IsTaskInRange-SameTask t row same (v.tasks t stored);
        worklogs = λ row m. elim (Has-set_row worklog_key new db.worklogs row m) [
          | inl q ↦ subst IsWorklogInRange (sym q) n
          | inr p ↦ v.worklogs row p.0
        ];
      })

  pub delete_worklog-IsInRange :
      (old : WorklogRow) (db : Database) {db' : Database}
      → IsInRange db
      → delete_worklog old db ≡ ok db'
      → IsInRange db'
  unfolding delete_worklog
  delete_worklog-IsInRange old db v h =
      let (_, _, e) =
        bind-eq-ok (enforce ((is_none old.end_us, raises active_worklog_delete) ∷ [])) _ h in
      subst IsInRange (ok-injective e) (record {
        tasks = v.tasks;
        worklogs = λ row m. v.worklogs row (Has-remove_row worklog_key old.id db.worklogs row m).0;
      })

  pub insert_task-IsInRange :
      (new : TaskRow) (db : Database) {db' : Database}
      → IsInRange db
      → IsTaskInRange new
      → insert_task new db ≡ ok db'
      → IsInRange db'
  unfolding insert_task
  insert_task-IsInRange new db v n h =
      let (_, _, e) = bind-eq-ok (enforce (insert_task_checks new db)) _ h in
      subst IsInRange (ok-injective e) (record {
        tasks = λ row m. elim m [ inl q ↦ subst IsTaskInRange (sym q) n | inr m ↦ v.tasks row m ];
        worklogs = v.worklogs;
      })

  pub update_task-IsInRange :
      (sets_archived : Bool) (new : TaskRow) (db : Database) {db' : Database}
      → IsInRange db
      → IsTaskInRange new
      → update_task sets_archived new db ≡ ok db'
      → IsInRange db'
  unfolding update_task
  update_task-IsInRange sets_archived new db v n h =
      let (_, _, e) = bind-eq-ok (enforce (update_task_checks sets_archived new db)) _ h in
      subst IsInRange (ok-injective e) (record {
        tasks = λ row m. elim (Has-set_row task_key new db.tasks row m) [
          | inl q ↦ subst IsTaskInRange (sym q) n
          | inr p ↦ v.tasks row p.0
        ];
        worklogs = v.worklogs;
      })
