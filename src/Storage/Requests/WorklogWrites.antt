-- ===== src/Storage/Requests/WorklogWrites.antt =====
-- Starting, stopping and switching, and the invariant.
use time_tracker.Prelude.{
  ◌≡◌, refl, subst, inl, inr, some, Result, ok, err, ◌>>=◌, Has, Option-cases, bind-eq-ok,
  map_err-eq-ok,
}
use time_tracker.Domain.Values.{WorklogId, Instant}
use time_tracker.Domain.Worklog.{Worklog}
use time_tracker.Storage.Errors.{Sqlite, SqlError, StorageError}
use time_tracker.Storage.Schema.{WorklogRow, Database, sets_end}
use time_tracker.Storage.Statements
use time_tracker.Storage.Mapping.{worklog_row}
use time_tracker.Storage.Reads.Inversion.{Has-select_worklog, transact_keeps}
use time_tracker.Storage.Tracking.{
  insert_worklog_on, insert_worklog, select_running, ended, returned_stop, stop_worklog,
  stop_for_switch, switch_worklog, refused,
}
use time_tracker.Storage.Invariant.{IsConsistent}
use time_tracker.Storage.Invariant.Insert.{insert_worklog-IsConsistent}
use time_tracker.Storage.Invariant.Update.{update_worklog-IsConsistent}

pub refused-ne-ok :
    {A : Type 0} (r : Result StorageError StorageError) {a : A} → refused r ≡ ok a → ⊥
refused-ne-ok (ok reason) h = cc
refused-ne-ok (err error) h = cc

module _ ⦃sqlite : Sqlite⦄ where
  insert_worklog_on-IsConsistent :
      (db : Database) (worklog : Worklog) {db' : Database}
      → IsConsistent db
      → insert_worklog_on db worklog ≡ ok db'
      → IsConsistent db'
  unfolding insert_worklog_on
  insert_worklog_on-IsConsistent db worklog v h =
      insert_worklog-IsConsistent db (worklog_row worklog) v (map_err-eq-ok _ _ h)

  pub inserts-IsConsistent :
      (db : Database) (worklog : Worklog)
      → IsConsistent db
      → IsConsistent (insert_worklog db worklog).1
  unfolding insert_worklog
  inserts-IsConsistent db worklog v =
      transact_keeps IsConsistent db (insert_worklog_on db worklog >>= λ db'. ok (tt, db')) v
        λ u db' h.
          let (db'', inserted, e) = bind-eq-ok (insert_worklog_on db worklog) _ h in
          let same : db'' ≡ db' = cc in
          subst IsConsistent same (insert_worklog_on-IsConsistent db worklog v inserted)

  pub running_row :
      (db : Database) (id : WorklogId) (start : Instant) (row : WorklogRow)
      → select_running db id start ≡ some row
      → Has row db.worklogs
  unfolding select_running
  running_row db id start row h = (Has-select_worklog id _ db.worklogs row h).0

  end_update-IsConsistent :
      (db : Database) (row : WorklogRow) (end : Instant) {db' : Database}
      → IsConsistent db
      → Has row db.worklogs
      → Statements.update_worklog sets_end row (ended row end) db ≡ ok db'
      → IsConsistent db'
  end_update-IsConsistent db row end v m h =
      update_worklog-IsConsistent sets_end row (ended row end) db v m (refl, refl, refl) h

  returned-IsConsistent :
      (db : Database) (new : WorklogRow) (r : Result SqlError Database)
      → IsConsistent db
      → ((db' : Database) → r ≡ ok db' → IsConsistent db')
      → IsConsistent (returned_stop db new r).1
  unfolding returned_stop
  returned-IsConsistent db new (ok db') v k = k db' refl
  returned-IsConsistent db new (err e) v k = v

  pub stops-IsConsistent :
      (db : Database) (id : WorklogId) (start end : Instant)
      → IsConsistent db
      → IsConsistent (stop_worklog db id start end).1
  unfolding stop_worklog
  stops-IsConsistent db id start end v = elim (Option-cases (select_running db id start)) [
    | inl e ↦ rw (e, stop_worklog) v
    | inr (row, e) ↦
        rw (e, stop_worklog)
          (returned-IsConsistent db (ended row end) _ v
            λ db' h. end_update-IsConsistent db row end v (running_row db id start row e) h)
  ]

  stop_for_switch-IsConsistent :
      (db : Database) (id : WorklogId) (start at : Instant) {db' : Database}
      → IsConsistent db
      → stop_for_switch db id start at ≡ ok db'
      → IsConsistent db'
  unfolding stop_for_switch
  stop_for_switch-IsConsistent db id start at v h =
      elim (Option-cases (select_running db id start)) [
        | inl e ↦ absurd (refused-ne-ok _ (rw (e, stop_for_switch) at h))
        | inr (row, e) ↦
            end_update-IsConsistent db row at v (running_row db id start row e)
              (map_err-eq-ok _ _ (rw (e, stop_for_switch) at h))
      ]

  pub switches-IsConsistent :
      (db : Database) (id : WorklogId) (start at : Instant) (next : Worklog)
      → IsConsistent db
      → IsConsistent (switch_worklog db id start at next).1
  unfolding switch_worklog
  switches-IsConsistent db id start at next v =
      transact_keeps IsConsistent db
        (stop_for_switch db id start at >>= λ stopped.
          insert_worklog_on stopped next >>= λ switched. ok (tt, switched))
        v
        λ u db' h.
          let (stopped, e, rest) = bind-eq-ok (stop_for_switch db id start at) _ h in
          let (switched, inserted, q) = bind-eq-ok (insert_worklog_on stopped next) _ rest in
          let same : switched ≡ db' = cc in
          subst IsConsistent same (
            insert_worklog_on-IsConsistent stopped next
              (stop_for_switch-IsConsistent db id start at v e) inserted)
