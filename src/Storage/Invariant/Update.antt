-- ===== src/Storage/Invariant/Update.antt =====
-- The UPDATE on worklogs and the invariant.
use time_tracker.Prelude.{
  ℕ, ◌+◌, ◌≡◌, ◌≢◌, subst, sym, ap, ◌∙◌, ◌⊎◌, inl, inr, true, false, Option, ok, arith, Has,
  Bool-cases, bind-eq-ok, ok-injective, is_none, ◌==◌, ==→eq,
}
use time_tracker.Prelude.Table.{Has-set_row, set_row, map_key-set_row}
use time_tracker.Domain.Values.{TaskId}
use time_tracker.Domain.Worklog.Overlap.{EndsAfter}
use time_tracker.Storage.Errors.{Sqlite}
use time_tracker.Storage.Schema.{
  TaskRow, WorklogRow, Database, Columns, sets_end, sets_times, sets_task, worklog_key,
  overlaps_predecessor, is_second_active, bump_order_revision,
}
use time_tracker.Storage.Statements.{enforce, update_worklog_checks, update_worklog}
use time_tracker.Storage.Statements.Enforce.{Passed, enforce-Passed}
use time_tracker.Storage.Invariant.{IsConsistent}
use time_tracker.Storage.Invariant.Revision.{
  SameTask, IsReadable-SameTask, bump_order_revision-SameTasks,
}
use time_tracker.Storage.Invariant.Guards.{
  EndsAfter-of_check, clear_rows, archived_of_check, task_of_check, second_of_check,
}

-- The rows that an UPDATE of these columns may write over `old`.
abbrev pub Writes : Columns → WorklogRow → WorklogRow → Type 0
Writes sets_end old new =
    (new.id ≡ old.id) × (new.task_id ≡ old.task_id) × (is_none new.end_us ≡ false)
Writes sets_times old new =
    (new.id ≡ old.id) × (new.task_id ≡ old.task_id) × (is_none new.end_us ≡ is_none old.end_us)
Writes sets_task old new =
    (new.id ≡ old.id) × (new.start_us ≡ old.start_us) × (new.end_us ≡ old.end_us)

id_of_Writes : (columns : Columns) (old new : WorklogRow) → Writes columns old new → new.id ≡ old.id
id_of_Writes sets_end old new w = w.0
id_of_Writes sets_times old new w = w.0
id_of_Writes sets_task old new w = w.0

module _ ⦃sqlite : Sqlite⦄ (db : Database) (v : IsConsistent db) (old new : WorklogRow)
    (stored : Has old db.worklogs) where
  new_positive :
      (columns : Columns)
      → Writes columns old new
      → Passed (update_worklog_checks columns old new db)
      → EndsAfter new.start_us new.end_us
  unfolding update_worklog_checks
  new_positive sets_end w p = EndsAfter-of_check new p.1.1.0
  new_positive sets_times w p = EndsAfter-of_check new p.1.1.0
  new_positive sets_task w p =
      subst (λ (start : ℕ). EndsAfter start new.end_us) (sym w.1)
        (subst (EndsAfter old.start_us) (sym w.2) (v.disjoint.positive old stored))

  new_free :
      (columns : Columns)
      → Passed (update_worklog_checks columns old new db)
      → (overlaps_predecessor new db.worklogs ≡ false) × (is_second_active new db.worklogs ≡ false)
  unfolding update_worklog_checks
  new_free columns p = (p.1.0, p.1.1.1.1.0)

  owned_by :
      {task_id : TaskId} → task_id ≡ old.task_id → (t : TaskRow) × Has t db.tasks × (t.id ≡ task_id)
  owned_by e = let (t, m, q) = v.owned old stored in (t, m, q ∙ sym e)

  new_owned :
      (columns : Columns)
      → Writes columns old new
      → Passed (update_worklog_checks columns old new db)
      → (t : TaskRow) × Has t db.tasks × (t.id ≡ new.task_id)
  unfolding update_worklog_checks
  new_owned sets_end w p = owned_by w.1
  new_owned sets_times w p = owned_by w.1
  new_owned sets_task w p = task_of_check db.tasks new.task_id p.1.1.1.1.1.0

  new_unarchived :
      (columns : Columns)
      → Writes columns old new
      → Passed (update_worklog_checks columns old new db)
      → is_none new.end_us ≡ true
      → (t : TaskRow) → Has t db.tasks
      → t.id ≡ new.task_id
      → t.archived ≡ false
  unfolding update_worklog_checks
  new_unarchived sets_end w p a t m e = absurd (ground (arith, w.2))
  new_unarchived sets_times w p a t m e = v.unarchived old t stored m (e ∙ w.1) (sym w.2 ∙ a)
  new_unarchived sets_task w p a t m e = elim (Bool-cases (new.task_id == old.task_id)) [
    | inl q ↦
        v.unarchived old t stored m (e ∙ ==→eq _ _ q)
          (ap (λ (o : Option ℕ). is_none o) (sym w.2) ∙ a)
    | inr q ↦ archived_of_check db.tasks t new.task_id v.tasks_distinct m e (ground (arith, p.0))
  ]

  updated-IsConsistent :
      (columns : Columns)
      → Writes columns old new
      → Passed (update_worklog_checks columns old new db)
      → IsConsistent (record {
        tasks = bump_order_revision columns old new db.tasks;
        worklogs = set_row worklog_key new db.worklogs;
        global_worklog_revision = db.global_worklog_revision + 1;
      })
  updated-IsConsistent columns w p =
      let (keys, back, forth) = bump_order_revision-SameTasks columns old new db.tasks in
      let origin = Has-set_row worklog_key new db.worklogs in
      let (free, second) = new_free columns p in
      record {
        tasks_distinct = rw keys v.tasks_distinct;
        worklogs_distinct = rw map_key-set_row v.worklogs_distinct;
        readable =
            λ t m. let (u, h, same) = back t m in IsReadable-SameTask u t same (v.readable u h);
        disjoint =
            clear_rows new db.worklogs v.worklogs_distinct v.disjoint (new_positive columns w p)
              free (set_row worklog_key new db.worklogs) origin;
        owned = λ r m. owned forth r (origin r m) columns w p;
        single = λ a b ma mb. single second a b (origin a ma) (origin b mb);
        unarchived = λ r t m h e a.
            let (u, k, same) = back t h in
            sym same.2 ∙ unarchived r u (origin r m) k (same.0 ∙ e) a columns w p;
      }
    where
      owned :
          ((t : TaskRow)
            → Has t db.tasks
            → (t' : TaskRow) × Has t' (bump_order_revision columns old new db.tasks)
              × SameTask t t')
          → (r : WorklogRow) → (r ≡ new) ⊎ (Has r db.worklogs × (r.id ≢ new.id))
          → (columns' : Columns) → Writes columns' old new
          → Passed (update_worklog_checks columns' old new db)
          → (t : TaskRow) × Has t (bump_order_revision columns old new db.tasks)
            × (t.id ≡ r.task_id)
      owned forth r (inl e) columns' w p =
          let (t, m, q) = new_owned columns' w p in
          let (t', m', same) = forth t m in
          (t', m', sym same.0 ∙ q ∙ ap (λ (x : WorklogRow). x.task_id) (sym e))
      owned forth r (inr (m, n)) columns' w p =
          let (t, h, q) = v.owned r m in let (t', h', same) = forth t h in (t', h', sym same.0 ∙ q)

      single :
          is_second_active new db.worklogs ≡ false
          → (a b : WorklogRow) → (a ≡ new) ⊎ (Has a db.worklogs × (a.id ≢ new.id))
          → (b ≡ new) ⊎ (Has b db.worklogs × (b.id ≢ new.id))
          → is_none a.end_us ≡ true
          → is_none b.end_us ≡ true
          → a.id ≡ b.id
      single second a b (inl e) (inl q) x y = ap worklog_key (e ∙ sym q)
      single second a b (inl e) (inr (m, n)) x y =
          absurd (n (second_of_check new b db.worklogs second (rw (← e) x) m y))
      single second a b (inr (m, n)) (inl q) x y =
          absurd (n (second_of_check new a db.worklogs second (rw (← q) y) m x))
      single second a b (inr (m, n)) (inr (k, l)) x y = v.single a b m k x y

      unarchived :
          (r : WorklogRow) (t : TaskRow)
          → (r ≡ new) ⊎ (Has r db.worklogs × (r.id ≢ new.id))
          → Has t db.tasks
          → t.id ≡ r.task_id
          → is_none r.end_us ≡ true
          → (columns' : Columns) → Writes columns' old new
          → Passed (update_worklog_checks columns' old new db)
          → t.archived ≡ false
      unarchived r t (inl e) m q a columns' w p =
          new_unarchived columns' w p (ap (λ (x : WorklogRow). is_none x.end_us) (sym e) ∙ a) t m
            (q ∙ ap (λ (x : WorklogRow). x.task_id) e)
      unarchived r t (inr (h, n)) m q a columns' w p = v.unarchived r t h m q a

module _ ⦃sqlite : Sqlite⦄ where
  -- An update of a stored row that succeeds keeps the database consistent.
  pub update_worklog-IsConsistent :
      (columns : Columns) (old new : WorklogRow) (db : Database) {db' : Database}
      → IsConsistent db
      → Has old db.worklogs
      → Writes columns old new
      → update_worklog columns old new db ≡ ok db'
      → IsConsistent db'
  unfolding update_worklog
  update_worklog-IsConsistent columns old new db v stored w h =
      let (_, passed, e) = bind-eq-ok (enforce (update_worklog_checks columns old new db)) _ h in
      subst IsConsistent (ok-injective e) (
        updated-IsConsistent db v old new stored columns w
          (enforce-Passed (update_worklog_checks columns old new db) passed))
