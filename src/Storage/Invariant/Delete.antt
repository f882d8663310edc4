-- ===== src/Storage/Invariant/Delete.antt =====
-- The DELETE on worklogs and the invariant.
use time_tracker.Prelude.{
  ◌+◌, ◌≡◌, subst, false, [], ◌∷◌, ok, Has, bind-eq-ok, ok-injective, is_none,
}
use time_tracker.Prelude.Table.{Has-remove_row, remove_row, Distinct-remove_row}
use time_tracker.Storage.Errors.{Sqlite}
use time_tracker.Storage.Schema.{WorklogRow, Database, worklog_key}
use time_tracker.Storage.Statements.{enforce, delete_worklog}
use time_tracker.Storage.Statements.Enforce.{enforce-Passed}
use time_tracker.Storage.Invariant.{IsConsistent}

module _ ⦃sqlite : Sqlite⦄ where
  removed-IsConsistent :
      (db : Database) (old : WorklogRow)
      → IsConsistent db
      → IsConsistent (record db {
        worklogs = remove_row worklog_key old.id db.worklogs;
        global_worklog_revision = db.global_worklog_revision + 1;
      })
  removed-IsConsistent db old v =
      let origin = λ (r : WorklogRow) (m : Has r (remove_row worklog_key old.id db.worklogs)).
        (Has-remove_row worklog_key old.id db.worklogs r m).0 in
      record {
        tasks_distinct = v.tasks_distinct;
        worklogs_distinct = Distinct-remove_row worklog_key old.id db.worklogs v.worklogs_distinct;
        readable = v.readable;
        disjoint = record {
          positive = λ w m. v.disjoint.positive w (origin w m);
          apart = λ a b ma mb n. v.disjoint.apart a b (origin a ma) (origin b mb) n;
        };
        owned = λ w m. v.owned w (origin w m);
        single = λ a b ma mb x y. v.single a b (origin a ma) (origin b mb) x y;
        unarchived = λ w t m h e a. v.unarchived w t (origin w m) h e a;
      }

  -- A delete that succeeds removes a completed worklog and keeps the database consistent.
  pub delete_worklog-IsConsistent :
      (old : WorklogRow) (db : Database) {db' : Database}
      → IsConsistent db
      → delete_worklog old db ≡ ok db'
      → IsConsistent db' × (is_none old.end_us ≡ false)
  unfolding delete_worklog
  delete_worklog-IsConsistent old db v h =
      let (_, passed, e) = bind-eq-ok (enforce ((is_none old.end_us, _) ∷ [])) _ h in
      (
        subst IsConsistent (ok-injective e) (removed-IsConsistent db old v),
        (enforce-Passed ((is_none old.end_us, _) ∷ []) passed).0,
      )
