-- ===== src/Storage/Repository/Laws.antt =====
-- The SQLite repository and what the application service relies on.
use time_tracker.Prelude.{
  ℕ, ◌≡◌, refl, ap, ◌∙◌, subst, Option, none, some, List, ◌∷◌, Result, ok, err, ◌>>=◌, bind-eq-ok,
  transpose_map, map_err-eq-ok, ok-injective,
}
use mathlib.Core.Option
use time_tracker.Domain.Values.{TaskId, WorklogId, Instant}
use time_tracker.Domain.Worklog.{Worklog}
use time_tracker.Application.Timestamps.{
  canonical_timestamp, instant_of_us, timestamp_to_us-canonical,
}
use time_tracker.Application.Model.{TaskListItem}
use time_tracker.Application.Service.Tracking.Change.{begun}
use time_tracker.Application.Service.Tracking.Contract.{IsTracking}
use time_tracker.Storage.Errors.{Sqlite, StorageError, Field}
use time_tracker.Storage.Schema.{WorklogRow, Database}
use time_tracker.Storage.Statements.{enforce, insert_worklog_checks}
use time_tracker.Storage.Statements
use time_tracker.Storage.Mapping.{worklog_row, worklog_from_row}
use time_tracker.Storage.Mapping.Range.{worklog_of, worklog_from_row-eq-ok}
use time_tracker.Storage.Reads.{transact, find_active, active_worklog_on, list_task_items_on}
use time_tracker.Storage.Tracking.{
  load_task_tracking_resources, insert_worklog_on, insert_worklog, stop_for_switch, switch_worklog,
}
use time_tracker.Storage.Repository.{converted, sqlite_repository}

-- The active row of a database is that of the worklog.
abbrev pub Stores : Database → Option Worklog → Type 0
Stores db worklog = Option.map worklog_of (find_active db.worklogs) ≡ worklog

read-Stores :
    (o : Option WorklogRow) {worklog : Option Worklog}
    → transpose_map worklog_from_row o ≡ ok worklog
    → Option.map worklog_of o ≡ worklog
read-Stores none h = cc
read-Stores (some row) h =
    let (found, read, done) = bind-eq-ok (worklog_from_row row) _ h in
    let same = worklog_from_row-eq-ok row read in cc

transact-ok :
    {A : Type 0} (db : Database) (m : Result StorageError (A × Database)) {a : A} {db' : Database}
    → transact db m ≡ (ok a, db')
    → m ≡ ok (a, db')
unfolding transact
transact-ok db (ok (b, s)) h = cc
transact-ok db (err e) h = cc

begun-reads :
    (id : WorklogId) (task_id : TaskId) (at : Instant)
    → worklog_of (worklog_row (begun id task_id (canonical_timestamp at)))
      ≡ begun id task_id (canonical_timestamp at)
unfolding worklog_of worklog_row canonical_timestamp
begun-reads id task_id at =
    ap (λ (t : Instant). begun id task_id t) (ap instant_of_us (timestamp_to_us-canonical at))

found :
    (w : Worklog)
    → w.end ≡ none
    → (ws : List WorklogRow) → find_active (worklog_row w ∷ ws) ≡ some (worklog_row w)
unfolding find_active worklog_row
found w e ws = rw e refl

first-Stores :
    (ws : List WorklogRow) (id : WorklogId) (task_id : TaskId) (at : Instant)
    → Option.map worklog_of
        (find_active (worklog_row (begun id task_id (canonical_timestamp at)) ∷ ws))
      ≡ some (begun id task_id (canonical_timestamp at))
first-Stores ws id task_id at =
    rw (found (begun id task_id (canonical_timestamp at)) refl ws, begun-reads id task_id at) refl

module _ ⦃sqlite : Sqlite⦄ where
  inserted-Stores :
      (db db' : Database) (id : WorklogId) (task_id : TaskId) (at : Instant)
      → insert_worklog_on db (begun id task_id (canonical_timestamp at)) ≡ ok db'
      → Stores db' (some (begun id task_id (canonical_timestamp at)))
  unfolding insert_worklog_on Statements.insert_worklog
  inserted-Stores db db' id task_id at h =
      let (_, _, e) =
        bind-eq-ok
          (enforce
            (insert_worklog_checks db (worklog_row (begun id task_id (canonical_timestamp at)))))
          _ (map_err-eq-ok _ _ h) in
      subst (λ d. Stores d (some (begun id task_id (canonical_timestamp at)))) (ok-injective e)
        (first-Stores db.worklogs id task_id at)

  switched-Stores :
      (db db' : Database) (old : WorklogId) (old_start stop_at : Instant) (id : WorklogId)
      (task_id : TaskId) (at : Instant)
      → switch_worklog db old old_start stop_at (begun id task_id (canonical_timestamp at))
        ≡ (ok tt, db')
      → Stores db' (some (begun id task_id (canonical_timestamp at)))
  unfolding switch_worklog
  switched-Stores db db' old old_start stop_at id task_id at h =
      let next = begun id task_id (canonical_timestamp at) in
      let committed =
        transact-ok db
          (stop_for_switch db old old_start stop_at >>= λ stopped.
            insert_worklog_on stopped next >>= λ switched. ok (tt, switched))
          h in
      let (stopped, _, rest) = bind-eq-ok (stop_for_switch db old old_start stop_at) _ committed in
      let (switched, inserted, done) = bind-eq-ok (insert_worklog_on stopped next) _ rest in
      let same : switched ≡ db' = cc in
      inserted-Stores stopped db' id task_id at (inserted ∙ ap ok same)

  inserts-Stores :
      (db db' : Database) (id : WorklogId) (task_id : TaskId) (at : Instant)
      → insert_worklog db (begun id task_id (canonical_timestamp at)) ≡ (ok tt, db')
      → Stores db' (some (begun id task_id (canonical_timestamp at)))
  unfolding insert_worklog
  inserts-Stores db db' id task_id at h =
      let next = begun id task_id (canonical_timestamp at) in
      let committed =
        transact-ok db (insert_worklog_on db next >>= λ inserted. ok (tt, inserted)) h in
      let (switched, inserted, done) = bind-eq-ok (insert_worklog_on db next) _ committed in
      let same : switched ≡ db' = cc in inserted-Stores db db' id task_id at (inserted ∙ ap ok same)

  loads-Stores :
      (db : Database) (items : List TaskListItem) (worklog : Option Worklog)
      → load_task_tracking_resources db ≡ ok (items, worklog)
      → Stores db worklog
  unfolding load_task_tracking_resources active_worklog_on
  loads-Stores db items worklog h =
      let (found, _, rest) = bind-eq-ok (list_task_items_on db) _ h in
      let (active, e, done) = bind-eq-ok (active_worklog_on db) _ rest in
      let same : active ≡ worklog = cc in read-Stores (find_active db.worklogs) (e ∙ ap ok same)

  module _ (describe : StorageError → List ℕ) (field_text : Field → List ℕ) where
    converted-ok :
        {A : Type 0} (p : Result StorageError A × Database) {a : A} {db : Database}
        → converted describe field_text p ≡ (ok a, db)
        → p ≡ (ok a, db)
    converted-ok (ok b, s) h = cc
    converted-ok (err e, s) h = cc

    -- The SQLite repository keeps the contract of the service: what it returns to a load is the
    -- active worklog it stores, and a started or switched worklog is stored as the active one.
    pub sqlite_repository-IsTracking : IsTracking (sqlite_repository describe field_text) Stores
    unfolding sqlite_repository
    sqlite_repository-IsTracking = record {
      loads = λ db db' items worklog h.
          let e = converted-ok (load_task_tracking_resources db, db) h in
          let same : db ≡ db' =
            ap (λ (p : Result StorageError (List TaskListItem × Option Worklog) × Database). p.1)
              e in
          subst (λ d. Stores d worklog) same
            (loads-Stores db items worklog (
              ap (λ (p : Result StorageError (List TaskListItem × Option Worklog) × Database). p.0)
                e));
      inserts = λ db db' id task_id at h. inserts-Stores db db' id task_id at (converted-ok _ h);
      switches = λ db db' old old_start stop_at id task_id at h.
          switched-Stores db db' old old_start stop_at id task_id at (converted-ok _ h);
    }
