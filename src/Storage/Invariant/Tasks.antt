-- ===== src/Storage/Invariant/Tasks.antt =====
-- The statements on tasks and the invariant.
use time_tracker.Prelude.{
  ◌≡◌, ◌≢◌, refl, sym, ap, ◌∙◌, subst, ◌⊎◌, inl, inr, Bool, true, false, not, ◌&&◌, none, List, ◌∷◌,
  ok, arith, Has, any, any-false, bind-eq-ok, ok-injective, is_none, ◌==◌, ltb→le,
}
use time_tracker.Prelude.Table.{
  Fresh-of_find_row, find_row, find_row-none, Has-set_row, set_row, map_key-set_row, set_row-Has,
}
use time_tracker.Domain.TaskName.Accepted.{IsName}
use time_tracker.Storage.Errors.{Sqlite}
use time_tracker.Storage.Schema.{TaskRow, WorklogRow, Database, task_key}
use time_tracker.Storage.Statements.{
  insert_task_checks, insert_task, update_task_checks, update_task, enforce,
}
use time_tracker.Storage.Statements.Enforce.{enforce-Passed}
use time_tracker.Storage.Invariant.{IsReadable, IsConsistent}

fresh_task :
    (rows : List TaskRow) (new : TaskRow)
    → not (is_none (find_row task_key new.id rows)) ≡ false
    → find_row task_key new.id rows ≡ none
fresh_task rows new h = ground arith

inserted_task-IsConsistent :
    (db : Database) (new : TaskRow)
    → IsConsistent db
    → IsReadable new
    → find_row task_key new.id db.tasks ≡ none
    → IsConsistent (record db { tasks = new ∷ db.tasks })
inserted_task-IsConsistent db new v r fresh = record {
  tasks_distinct = (Fresh-of_find_row task_key new.id db.tasks fresh, v.tasks_distinct);
  worklogs_distinct = v.worklogs_distinct;
  readable = readable;
  disjoint = v.disjoint;
  owned = λ w m. let (t, h, q) = v.owned w m in (t, inr h, q);
  single = v.single;
  unarchived = unarchived;
}
  where
    readable : (t : TaskRow) → Has t (new ∷ db.tasks) → IsReadable t
    readable t (inl e) = subst IsReadable (sym e) r
    readable t (inr m) = v.readable t m

    -- The new task has no worklogs: each worklog has its task already.
    unarchived :
        (w : WorklogRow) (t : TaskRow)
        → Has w db.worklogs
        → Has t (new ∷ db.tasks)
        → t.id ≡ w.task_id
        → is_none w.end_us ≡ true
        → t.archived ≡ false
    unarchived w t m (inl e) q a =
        let (u, h, k) = v.owned w m in
        absurd (find_row-none task_key new.id db.tasks fresh u h (k ∙ sym q ∙ ap task_key e))
    unarchived w t m (inr h) q a = v.unarchived w t m h q a

no_active :
    (new : TaskRow) (ws : List WorklogRow) (w : WorklogRow)
    → any (λ (w : WorklogRow). (w.task_id == new.id) && is_none w.end_us) ws ≡ false
    → Has w ws
    → new.id ≡ w.task_id
    → is_none w.end_us ≡ true
    → ⊥
no_active new ws w h m q a =
    let e = any-false (λ (w : WorklogRow). (w.task_id == new.id) && is_none w.end_us) ws h w m in
    ground arith

updated_task-IsConsistent :
    (db : Database) (old new : TaskRow)
    → IsConsistent db
    → Has old db.tasks
    → new.id ≡ old.id
    → IsReadable new
    → ((w : WorklogRow)
        → Has w db.worklogs
        → new.id ≡ w.task_id
        → is_none w.end_us ≡ true
        → new.archived ≡ false)
    → IsConsistent (record db { tasks = set_row task_key new db.tasks })
updated_task-IsConsistent db old new v stored same r open_task =
    let origin = Has-set_row task_key new db.tasks in
    record {
      tasks_distinct = rw map_key-set_row v.tasks_distinct;
      worklogs_distinct = v.worklogs_distinct;
      readable = λ t m. readable t (origin t m);
      disjoint = v.disjoint;
      owned = λ w m.
          let (t, h, q) = v.owned w m in
          let (t', h', q') = set_row-Has task_key new db.tasks t h in (t', h', q' ∙ q);
      single = v.single;
      unarchived = λ w t m h q a. unarchived w t m (origin t h) q a;
    }
  where
    readable : (t : TaskRow) → (t ≡ new) ⊎ (Has t db.tasks × (t.id ≢ new.id)) → IsReadable t
    readable t (inl e) = subst IsReadable (sym e) r
    readable t (inr (m, n)) = v.readable t m

    unarchived :
        (w : WorklogRow) (t : TaskRow)
        → Has w db.worklogs
        → (t ≡ new) ⊎ (Has t db.tasks × (t.id ≢ new.id))
        → t.id ≡ w.task_id
        → is_none w.end_us ≡ true
        → t.archived ≡ false
    unarchived w t m (inl e) q a =
        ap (λ (x : TaskRow). x.archived) e ∙ open_task w m (sym (ap task_key e) ∙ q) a
    unarchived w t m (inr (h, n)) q a = v.unarchived w t m h q a

-- A task that the trigger lets be archived has no active worklog.
open_of_check :
    (sets_archived : Bool) (old new : TaskRow) (db : Database)
    → IsConsistent db
    → Has old db.tasks
    → new.id ≡ old.id
    → (sets_archived ≡ true) ⊎ (new.archived ≡ old.archived)
    → (sets_archived
        && new.archived
        && any (λ (w : WorklogRow). (w.task_id == new.id) && is_none w.end_us) db.worklogs)
      ≡ false
    → (w : WorklogRow) → Has w db.worklogs
    → new.id ≡ w.task_id
    → is_none w.end_us ≡ true
    → new.archived ≡ false
open_of_check sets_archived old new db v stored same (inr e) h w m q a =
    e ∙ v.unarchived w old m stored (sym same ∙ q) a
open_of_check sets_archived old new db v stored same (inl e) h w m q a = checked new.archived refl
  where
    checked : (archived : Bool) → new.archived ≡ archived → archived ≡ false
    checked false k = refl
    checked true k = absurd (no_active new db.worklogs w (ground arith) m q a)

module _ ⦃sqlite : Sqlite⦄ where
  -- Inserting a task with a valid name that succeeds keeps the database consistent.
  pub insert_task-IsConsistent :
      (new : TaskRow) (db : Database) {db' : Database}
      → IsConsistent db
      → IsName (record { text = new.name })
      → insert_task new db ≡ ok db'
      → IsConsistent db'
  unfolding insert_task
  insert_task-IsConsistent new db v n h =
      let (_, passed, e) = bind-eq-ok (enforce (insert_task_checks new db)) _ h in
      let p = enforce-Passed (insert_task_checks new db) passed in
      subst IsConsistent (ok-injective e) (
        inserted_task-IsConsistent db new v
          (record { named = n; ordered = ltb→le new.updated_at_us new.created_at_us p.0 })
          (fresh_task db.tasks new p.1.0))

  -- Updating a stored task that keeps its identifier and a valid name keeps the database
  -- consistent, if the statement guards what it does to the archived flag.
  pub update_task-IsConsistent :
      (sets_archived : Bool) (old new : TaskRow) (db : Database) {db' : Database}
      → IsConsistent db
      → Has old db.tasks
      → new.id ≡ old.id
      → IsName (record { text = new.name })
      → (sets_archived ≡ true) ⊎ (new.archived ≡ old.archived)
      → update_task sets_archived new db ≡ ok db'
      → IsConsistent db'
  unfolding update_task
  update_task-IsConsistent sets_archived old new db v stored same n kept h =
      let (_, passed, e) = bind-eq-ok (enforce (update_task_checks sets_archived new db)) _ h in
      let p = enforce-Passed (update_task_checks sets_archived new db) passed in
      subst IsConsistent (ok-injective e) (
        updated_task-IsConsistent db old new v stored same
          (record { named = n; ordered = ltb→le new.updated_at_us new.created_at_us p.1.0 })
          (open_of_check sets_archived old new db v stored same kept p.0))
