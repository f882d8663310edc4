-- ===== src/Storage/Requests/WorklogEdits.antt =====
-- Moving, correcting and deleting a worklog, and the invariant.
use time_tracker.Prelude.{
  ◌≡◌, refl, inl, inr, some, ok, arith, Has, Option-cases, bind-eq-ok, is_none,
}
use time_tracker.Domain.Values.{TaskId, WorklogId}
use time_tracker.Domain.Worklog.{WorklogTimes}
use time_tracker.Application.Timestamps.{timestamp_to_us}
use time_tracker.Application.Model.{WorklogCorrection, WorklogDeletion, WorklogMove}
use time_tracker.Storage.Errors.{Sqlite}
use time_tracker.Storage.Schema.{WorklogRow, Database, sets_times, sets_task}
use time_tracker.Storage.Statements
use time_tracker.Storage.Mapping.{worklog_from_row}
use time_tracker.Storage.Reads.Inversion.{Has-select_worklog, transact_keeps, written_keeps}
use time_tracker.Storage.Reads.{latest_work_start_on, active_adoption_on}
use time_tracker.Storage.Worklogs.{
  end_to_us, select_move, select_correction, select_deletion, compare_and_move_worklog,
  compare_and_set_worklog_times, compare_and_delete_completed_worklog, deletion_conflict_on,
  deleted_worklog_result, current_worklog, moved_worklog_result, corrected_worklog_result,
}
use time_tracker.Storage.Invariant.{IsConsistent}
use time_tracker.Storage.Invariant.Update.{update_worklog-IsConsistent}
use time_tracker.Storage.Invariant.Delete.{delete_worklog-IsConsistent}
use time_tracker.Storage.Requests.WorklogWrites.{refused-ne-ok}

pub moved-reads :
    (db : Database) (id : WorklogId) (source destination : TaskId) {a : WorklogMove}
    {db' : Database}
    → moved_worklog_result db id source destination ≡ ok (a, db')
    → db' ≡ db
unfolding moved_worklog_result
moved-reads db id source destination h =
    let (worklog, _, first) = bind-eq-ok (current_worklog db id) _ h in
    let (from_source, _, second) = bind-eq-ok (latest_work_start_on db source) _ first in
    let (from_destination, _, rest) = bind-eq-ok (latest_work_start_on db destination) _ second in
    let (adoption, _, done) = bind-eq-ok (active_adoption_on db) _ rest in cc

pub corrected-reads :
    (db : Database) (id : WorklogId) {a : WorklogCorrection} {db' : Database}
    → corrected_worklog_result db id ≡ ok (a, db')
    → db' ≡ db
unfolding corrected_worklog_result
corrected-reads db id h =
    let (worklog, _, first) = bind-eq-ok (current_worklog db id) _ h in
    let (start, _, rest) = bind-eq-ok (latest_work_start_on db worklog.task_id) _ first in
    let (adoption, _, done) = bind-eq-ok (active_adoption_on db) _ rest in cc

pub deleted-reads :
    (row : WorklogRow) (db : Database) {a : WorklogDeletion} {db' : Database}
    → deleted_worklog_result row db ≡ ok (a, db')
    → db' ≡ db
unfolding deleted_worklog_result
deleted-reads row db h =
    let (worklog, _, rest) = bind-eq-ok (worklog_from_row row) _ h in
    let (start, _, done) = bind-eq-ok (latest_work_start_on db worklog.task_id) _ rest in cc

abbrev pub retimed : WorklogRow → WorklogTimes → WorklogRow
retimed row replacement = record row {
  start_us = timestamp_to_us replacement.start;
  end_us = end_to_us replacement.end;
}

module _ ⦃sqlite : Sqlite⦄ where
  pub moved_row :
      (db : Database) (id : WorklogId) (source : TaskId) (expected : WorklogTimes)
      (destination : TaskId) (row : WorklogRow)
      → select_move db id source expected destination ≡ some row
      → Has row db.worklogs
  unfolding select_move
  moved_row db id source expected destination row h = (Has-select_worklog id _ db.worklogs row h).0

  pub moves-IsConsistent :
      (db : Database) (id : WorklogId) (source : TaskId) (expected : WorklogTimes)
      (destination : TaskId)
      → IsConsistent db
      → IsConsistent (compare_and_move_worklog db id source expected destination).1
  unfolding compare_and_move_worklog
  moves-IsConsistent db id source expected destination v =
      elim (Option-cases (select_move db id source expected destination)) [
        | inl e ↦ rw (e, compare_and_move_worklog) v
        | inr (row, e) ↦
            rw (e, compare_and_move_worklog)
              (written_keeps IsConsistent db
                (Statements.update_worklog sets_task row (record row { task_id = destination }) db)
                _ (λ moved. moved_worklog_result moved id source destination) v
                (λ db' h.
                  update_worklog-IsConsistent sets_task row (record row { task_id = destination })
                    db v (moved_row db id source expected destination row e) (refl, refl, refl) h)
                (λ db' a db'' h. moved-reads db' id source destination h))
      ]

  pub corrected_row :
      (db : Database) (id : WorklogId) (expected replacement : WorklogTimes) (row : WorklogRow)
      → select_correction db id expected replacement ≡ some row
      → Has row db.worklogs × (is_none (end_to_us replacement.end) ≡ is_none row.end_us)
  unfolding select_correction
  corrected_row db id expected replacement row h =
      let (m, _, t) = Has-select_worklog id _ db.worklogs row h in (m, ground arith)

  pub corrects-IsConsistent :
      (db : Database) (id : WorklogId) (expected replacement : WorklogTimes)
      → IsConsistent db
      → IsConsistent (compare_and_set_worklog_times db id expected replacement).1
  unfolding compare_and_set_worklog_times
  corrects-IsConsistent db id expected replacement v =
      elim (Option-cases (select_correction db id expected replacement)) [
        | inl e ↦ rw (e, compare_and_set_worklog_times) v
        | inr (row, e) ↦
            let (stored, kept) = corrected_row db id expected replacement row e in
            rw (e, compare_and_set_worklog_times)
              (written_keeps IsConsistent db
                (Statements.update_worklog sets_times row (retimed row replacement) db) _
                (λ corrected. corrected_worklog_result corrected id) v
                (λ db' h.
                  update_worklog-IsConsistent sets_times row (retimed row replacement) db v stored
                    (refl, refl, kept) h)
                (λ db' a db'' h. corrected-reads db' id h))
      ]

  pub deletes-IsConsistent :
      (db : Database) (id : WorklogId) (task_id : TaskId) (expected : WorklogTimes)
      → IsConsistent db
      → IsConsistent (compare_and_delete_completed_worklog db id task_id expected).1
  unfolding compare_and_delete_completed_worklog
  deletes-IsConsistent db id task_id expected v =
      elim (Option-cases (select_deletion db id task_id expected)) [
        | inl e ↦
            rw (e, compare_and_delete_completed_worklog)
              (transact_keeps IsConsistent db _ v
                λ a db' h. absurd (refused-ne-ok (deletion_conflict_on db id) h))
        | inr (row, e) ↦
            rw (e, compare_and_delete_completed_worklog)
              (written_keeps IsConsistent db (Statements.delete_worklog row db) _
                (deleted_worklog_result row) v (λ db' h. (delete_worklog-IsConsistent row db v h).0)
                (λ db' a db'' h. deleted-reads row db' h))
      ]
