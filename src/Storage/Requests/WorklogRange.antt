-- ===== src/Storage/Requests/WorklogRange.antt =====
-- The writes to worklogs and the range of the stored counts and identifiers.
use mathlib.Core.Option
use time_tracker.Prelude.{
  ◌≡◌, refl, subst, inl, inr, some, none, Option, Result, ok, err, ◌>>=◌, Option-cases, bind-eq-ok,
  map_err-eq-ok,
}
use time_tracker.Domain.Values.{TaskId, WorklogId, Instant}
use time_tracker.Domain.Worklog.{Worklog, WorklogTimes}
use time_tracker.Application.Timestamps.{timestamp_to_us}
use time_tracker.Storage.Errors.{Sqlite, SqlError}
use time_tracker.Storage.Schema.{WorklogRow, Database, sets_end, sets_times, sets_task}
use time_tracker.Storage.Statements
use time_tracker.Storage.Mapping.{worklog_row}
use time_tracker.Storage.Mapping.Range.{IsTimestamp, IsId, IsEnd, IsWorklogInRange, IsInRange}
use time_tracker.Storage.Reads.Inversion.{transact_keeps, written_keeps}
use time_tracker.Storage.Tracking.{
  insert_worklog_on, insert_worklog, select_running, ended, returned_stop, stop_worklog,
  stop_for_switch, switch_worklog,
}
use time_tracker.Storage.Worklogs.{
  select_move, moved_worklog_result, compare_and_move_worklog, select_correction,
  corrected_worklog_result, compare_and_set_worklog_times, select_deletion, deletion_conflict_on,
  deleted_worklog_result, compare_and_delete_completed_worklog,
}
use time_tracker.Storage.Invariant.Range.{
  insert_worklog-IsInRange, update_worklog-IsInRange, delete_worklog-IsInRange,
}
use time_tracker.Storage.Requests.WorklogWrites.{refused-ne-ok, running_row}
use time_tracker.Storage.Requests.WorklogEdits.{
  moved-reads, corrected-reads, deleted-reads, moved_row, corrected_row, retimed,
}

-- An instant that a write stores.
abbrev pub IsStorable : Instant → Type 0
IsStorable at = IsTimestamp (timestamp_to_us at)

abbrev pub IsStorableEnd : Option Instant → Type 0
IsStorableEnd none = Unit {0}
IsStorableEnd (some at) = IsStorable at

abbrev pub IsStorableWorklog : Worklog → Type 0
IsStorableWorklog w = IsId w.id × IsId w.task_id × IsStorable w.start × IsStorableEnd w.end

IsEnd-of_IsStorableEnd :
    (end : Option Instant) → IsStorableEnd end → IsEnd (Option.map timestamp_to_us end)
IsEnd-of_IsStorableEnd none h = tt
IsEnd-of_IsStorableEnd (some at) h = h

row-IsWorklogInRange : (w : Worklog) → IsStorableWorklog w → IsWorklogInRange (worklog_row w)
unfolding worklog_row
row-IsWorklogInRange w (i, t, s, e) = record {
  id = i;
  task_id = t;
  start = s;
  end = IsEnd-of_IsStorableEnd w.end e;
}

module _ ⦃sqlite : Sqlite⦄ where
  insert_worklog_on-IsInRange :
      (db : Database) (worklog : Worklog) {db' : Database}
      → IsInRange db
      → IsStorableWorklog worklog
      → insert_worklog_on db worklog ≡ ok db'
      → IsInRange db'
  unfolding insert_worklog_on
  insert_worklog_on-IsInRange db worklog v s h =
      insert_worklog-IsInRange db (worklog_row worklog) v (row-IsWorklogInRange worklog s)
        (map_err-eq-ok _ _ h)

  pub inserts-IsInRange :
      (db : Database) (worklog : Worklog)
      → IsInRange db
      → IsStorableWorklog worklog
      → IsInRange (insert_worklog db worklog).1
  unfolding insert_worklog
  inserts-IsInRange db worklog v s =
      transact_keeps IsInRange db (insert_worklog_on db worklog >>= λ db'. ok (tt, db')) v
        λ u db' h.
          let (db'', inserted, e) = bind-eq-ok (insert_worklog_on db worklog) _ h in
          let same : db'' ≡ db' = cc in
          subst IsInRange same (insert_worklog_on-IsInRange db worklog v s inserted)

  ended-IsInRange :
      (db : Database) (id : WorklogId) (start end : Instant) (row : WorklogRow) {db' : Database}
      → IsInRange db
      → IsStorable end
      → select_running db id start ≡ some row
      → Statements.update_worklog sets_end row (ended row end) db ≡ ok db'
      → IsInRange db'
  ended-IsInRange db id start end row v s e h =
      let r = v.worklogs row (running_row db id start row e) in
      update_worklog-IsInRange sets_end row (ended row end) db v
        (record { id = r.id; task_id = r.task_id; start = r.start; end = s }) h

  returned-IsInRange :
      (db : Database) (new : WorklogRow) (r : Result SqlError Database)
      → IsInRange db
      → ((db' : Database) → r ≡ ok db' → IsInRange db')
      → IsInRange (returned_stop db new r).1
  unfolding returned_stop
  returned-IsInRange db new (ok db') v k = k db' refl
  returned-IsInRange db new (err e) v k = v

  pub stops-IsInRange :
      (db : Database) (id : WorklogId) (start end : Instant)
      → IsInRange db
      → IsStorable end
      → IsInRange (stop_worklog db id start end).1
  unfolding stop_worklog
  stops-IsInRange db id start end v s = elim (Option-cases (select_running db id start)) [
    | inl e ↦ rw (e, stop_worklog) v
    | inr (row, e) ↦
        rw (e, stop_worklog)
          (returned-IsInRange db (ended row end) _ v
            λ db' h. ended-IsInRange db id start end row v s e h)
  ]

  stop_for_switch-IsInRange :
      (db : Database) (id : WorklogId) (start at : Instant) {db' : Database}
      → IsInRange db
      → IsStorable at
      → stop_for_switch db id start at ≡ ok db'
      → IsInRange db'
  unfolding stop_for_switch
  stop_for_switch-IsInRange db id start at v s h =
      elim (Option-cases (select_running db id start)) [
        | inl e ↦ absurd (refused-ne-ok _ (rw (e, stop_for_switch) at h))
        | inr (row, e) ↦
            ended-IsInRange db id start at row v s e
              (map_err-eq-ok _ _ (rw (e, stop_for_switch) at h))
      ]

  pub switches-IsInRange :
      (db : Database) (id : WorklogId) (start at : Instant) (next : Worklog)
      → IsInRange db
      → IsStorable at
      → IsStorableWorklog next
      → IsInRange (switch_worklog db id start at next).1
  unfolding switch_worklog
  switches-IsInRange db id start at next v s n =
      transact_keeps IsInRange db
        (stop_for_switch db id start at >>= λ stopped.
          insert_worklog_on stopped next >>= λ switched. ok (tt, switched))
        v
        λ u db' h.
          let (stopped, e, rest) = bind-eq-ok (stop_for_switch db id start at) _ h in
          let (switched, inserted, q) = bind-eq-ok (insert_worklog_on stopped next) _ rest in
          let same : switched ≡ db' = cc in
          subst IsInRange same (
            insert_worklog_on-IsInRange stopped next
              (stop_for_switch-IsInRange db id start at v s e) n inserted)

  pub moves-IsInRange :
      (db : Database) (id : WorklogId) (source : TaskId) (expected : WorklogTimes)
      (destination : TaskId)
      → IsInRange db
      → IsId destination
      → IsInRange (compare_and_move_worklog db id source expected destination).1
  unfolding compare_and_move_worklog
  moves-IsInRange db id source expected destination v s =
      elim (Option-cases (select_move db id source expected destination)) [
        | inl e ↦ rw (e, compare_and_move_worklog) v
        | inr (row, e) ↦
            let r = v.worklogs row (moved_row db id source expected destination row e) in
            rw (e, compare_and_move_worklog)
              (written_keeps IsInRange db
                (Statements.update_worklog sets_task row (record row { task_id = destination }) db)
                _ (λ moved. moved_worklog_result moved id source destination) v
                (λ db' h.
                  update_worklog-IsInRange sets_task row (record row { task_id = destination }) db v
                    (record { id = r.id; task_id = s; start = r.start; end = r.end }) h)
                (λ db' a db'' h. moved-reads db' id source destination h))
      ]

  pub corrects-IsInRange :
      (db : Database) (id : WorklogId) (expected replacement : WorklogTimes)
      → IsInRange db
      → IsStorable replacement.start × IsStorableEnd replacement.end
      → IsInRange (compare_and_set_worklog_times db id expected replacement).1
  unfolding compare_and_set_worklog_times
  corrects-IsInRange db id expected replacement v (s, n) =
      elim (Option-cases (select_correction db id expected replacement)) [
        | inl e ↦ rw (e, compare_and_set_worklog_times) v
        | inr (row, e) ↦
            let r = v.worklogs row (corrected_row db id expected replacement row e).0 in
            let ended = IsEnd-of_IsStorableEnd replacement.end n in
            rw (e, compare_and_set_worklog_times)
              (written_keeps IsInRange db
                (Statements.update_worklog sets_times row (retimed row replacement) db) _
                (λ corrected. corrected_worklog_result corrected id) v
                (λ db' h.
                  update_worklog-IsInRange sets_times row (retimed row replacement) db v
                    (record { id = r.id; task_id = r.task_id; start = s; end = ended }) h)
                (λ db' a db'' h. corrected-reads db' id h))
      ]

  pub deletes-IsInRange :
      (db : Database) (id : WorklogId) (task_id : TaskId) (expected : WorklogTimes)
      → IsInRange db
      → IsInRange (compare_and_delete_completed_worklog db id task_id expected).1
  unfolding compare_and_delete_completed_worklog
  deletes-IsInRange db id task_id expected v =
      elim (Option-cases (select_deletion db id task_id expected)) [
        | inl e ↦
            rw (e, compare_and_delete_completed_worklog)
              (transact_keeps IsInRange db _ v
                λ a db' h. absurd (refused-ne-ok (deletion_conflict_on db id) h))
        | inr (row, e) ↦
            rw (e, compare_and_delete_completed_worklog)
              (written_keeps IsInRange db (Statements.delete_worklog row db) _
                (deleted_worklog_result row) v (λ db' h. delete_worklog-IsInRange row db v h)
                (λ db' a db'' h. deleted-reads row db' h))
      ]
