-- ===== src/Storage/Invariant/Insert.antt =====
-- The INSERT on worklogs and the invariant.
use time_tracker.Prelude.{
  ◌+◌, ◌≡◌, ◌≢◌, subst, sym, ap, ◌∙◌, ◌⊎◌, inl, inr, true, false, ◌∷◌, ok, Has, bind-eq-ok,
  ok-injective, is_none,
}
use time_tracker.Prelude.Table.{find_row-none, Fresh-of_find_row}
use time_tracker.Storage.Errors.{Sqlite}
use time_tracker.Storage.Schema.{TaskRow, WorklogRow, Database, worklog_key}
use time_tracker.Storage.Statements.{enforce, insert_worklog_checks, insert_worklog}
use time_tracker.Storage.Statements.Enforce.{Passed, enforce-Passed}
use time_tracker.Storage.Invariant.{IsConsistent}
use time_tracker.Storage.Invariant.Guards.{
  EndsAfter-of_check, clear_rows, archived_of_check, task_of_check, second_of_check, fresh_of_check,
}

module _ ⦃sqlite : Sqlite⦄ where
  inserted-IsConsistent :
      (db : Database) (new : WorklogRow)
      → IsConsistent db
      → Passed (insert_worklog_checks db new)
      → IsConsistent (record db {
        worklogs = new ∷ db.worklogs;
        global_worklog_revision = db.global_worklog_revision + 1;
      })
  unfolding insert_worklog_checks
  inserted-IsConsistent db new v
        (archived, (overlap, (positive, (_, (key, (second, (task, _))))))) =
      record {
        tasks_distinct = v.tasks_distinct;
        worklogs_distinct = (
          Fresh-of_find_row worklog_key new.id db.worklogs (fresh_of_check db.worklogs new key),
          v.worklogs_distinct,
        );
        readable = v.readable;
        disjoint =
            clear_rows new db.worklogs v.worklogs_distinct v.disjoint
              (EndsAfter-of_check new positive) overlap (new ∷ db.worklogs) origin;
        owned = owned;
        single = single;
        unarchived = unarchived;
      }
    where
      origin :
          (r : WorklogRow)
          → Has r (new ∷ db.worklogs)
          → (r ≡ new) ⊎ (Has r db.worklogs × (r.id ≢ new.id))
      origin r (inl e) = inl e
      origin r (inr m) =
          inr (
            m,
            find_row-none worklog_key new.id db.worklogs (fresh_of_check db.worklogs new key) r m,
          )

      owned :
          (w : WorklogRow)
          → Has w (new ∷ db.worklogs)
          → (t : TaskRow) × Has t db.tasks × (t.id ≡ w.task_id)
      owned w (inl e) =
          let (t, m, q) = task_of_check db.tasks new.task_id task in
          (t, m, q ∙ ap (λ (r : WorklogRow). r.task_id) (sym e))
      owned w (inr m) = v.owned w m

      single :
          (a b : WorklogRow)
          → Has a (new ∷ db.worklogs)
          → Has b (new ∷ db.worklogs)
          → is_none a.end_us ≡ true
          → is_none b.end_us ≡ true
          → a.id ≡ b.id
      single a b (inl e) (inl q) p r = ap worklog_key (e ∙ sym q)
      single a b (inl e) (inr m) p r =
          ap worklog_key e ∙ sym (second_of_check new b db.worklogs second (rw (← e) p) m r)
      single a b (inr m) (inl q) p r =
          second_of_check new a db.worklogs second (rw (← q) r) m p ∙ ap worklog_key (sym q)
      single a b (inr m) (inr k) p r = v.single a b m k p r

      unarchived :
          (w : WorklogRow) (t : TaskRow)
          → Has w (new ∷ db.worklogs)
          → Has t db.tasks
          → t.id ≡ w.task_id
          → is_none w.end_us ≡ true
          → t.archived ≡ false
      unarchived w t (inl e) m q a =
          archived_of_check db.tasks t new.task_id v.tasks_distinct m
            (q ∙ ap (λ (r : WorklogRow). r.task_id) e) archived
      unarchived w t (inr k) m q a = v.unarchived w t k m q a

  -- An insert of a worklog row that succeeds keeps the database consistent.
  pub insert_worklog-IsConsistent :
      (db : Database) (new : WorklogRow) {db' : Database}
      → IsConsistent db
      → insert_worklog db new ≡ ok db'
      → IsConsistent db'
  unfolding insert_worklog
  insert_worklog-IsConsistent db new {db'} v h =
      let (_, passed, e) = bind-eq-ok (enforce (insert_worklog_checks db new)) _ h in
      subst IsConsistent (ok-injective e)
        (inserted-IsConsistent db new v (enforce-Passed (insert_worklog_checks db new) passed))
