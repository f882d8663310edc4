-- ===== src/Storage/Repository/Catalogue.antt =====
-- The SQLite repository under the service: its operations keep a consistent database consistent,
-- and it lists each task once.
use time_tracker.Prelude.{
  ◌≡◌, sym, ap, ap₂, ◌∙◌, subst, Option, none, some, List, [], ◌∷◌, map, ok, collect, bind-eq-ok,
  map_err-eq-ok, ok-injective, ℕ,
}
use time_tracker.Prelude.Table.{Distinct}
use time_tracker.Prelude.Sort.{sort}
use time_tracker.Prelude.Sort.Unique.{Distinct-sort}
use time_tracker.Domain.Task.{Task, rehydrate}
use time_tracker.Domain.Task
use time_tracker.Domain.Values.{Instant}
use time_tracker.Domain.Worklog.{Worklog}
use time_tracker.Domain.Tracking.{Tracker}
use time_tracker.Application.Model.{TaskListItem, TaskListReportRead}
use time_tracker.Application.Service.Catalog.Order.{item_key, IsCatalog}
use time_tracker.Application.Service.Requests.{ServiceRequest, AreServiceRequests, run}
use time_tracker.Application.Service.Requests.Contract.{Lists, IsCatalogue}
use time_tracker.Application.Service.Requests.Catalogued.{run-Catalogued}
use time_tracker.Storage.Errors.{Sqlite, StorageError, Field}
use time_tracker.Storage.Schema.{TaskRow, Database, task_key}
use time_tracker.Storage.Mapping.{task_from_row}
use time_tracker.Storage.Mapping.Readable.{task_from_row-IsName}
use time_tracker.Storage.Reads.{
  latest_work_start_on, task_item_from_row, list_task_items_on, by_task_id, active_worklog_on,
}
use time_tracker.Storage.Tracking.{load_task_tracking_resources}
use time_tracker.Storage.Reports.{report_rows_on, task_list_report_read}
use time_tracker.Storage.Invariant.{IsConsistent, empty_database, empty_database-IsConsistent}
use time_tracker.Storage.Requests.WorklogWrites.{
  inserts-IsConsistent, stops-IsConsistent, switches-IsConsistent,
}
use time_tracker.Storage.Requests.WorklogEdits.{
  moves-IsConsistent, corrects-IsConsistent, deletes-IsConsistent,
}
use time_tracker.Storage.Requests.TaskWrites.{
  creates-IsConsistent, renames-IsConsistent, archives-IsConsistent, unarchives-IsConsistent,
}
use time_tracker.Storage.Requests.TaskArchive.{archives_inactive-IsConsistent}
use time_tracker.Storage.Repository.{sqlite_repository}

item_id :
    (db : Database) (row : TaskRow) {item : TaskListItem}
    → task_item_from_row db row ≡ ok item
    → item.task.id ≡ row.id
unfolding task_item_from_row
item_id db row h =
    let (task, e, rest) = bind-eq-ok (task_from_row row) _ h in
    let (start, _, done) = bind-eq-ok (latest_work_start_on db row.id) _ rest in
    let same = ok-injective done in
    ap (λ (i : TaskListItem). i.task.id) (sym same) ∙ (task_from_row-IsName row e).0

items_keys :
    (db : Database) (rows : List TaskRow) {items : List TaskListItem}
    → collect (task_item_from_row db) rows ≡ ok items
    → map item_key items ≡ map task_key rows
items_keys db [] h = ap (map item_key) (sym (ok-injective h))
items_keys db (row ∷ rows) h =
    let (item, e, rest) = bind-eq-ok (task_item_from_row db row) _ h in
    let (more, f, done) = bind-eq-ok (collect (task_item_from_row db) rows) _ rest in
    ap (map item_key) (sym (ok-injective done)) ∙ ap₂ ◌∷◌ (item_id db row e) (items_keys db rows f)

list-Lists :
    (db : Database) {items : List TaskListItem}
    → IsConsistent db
    → list_task_items_on db ≡ ok items
    → Lists items
unfolding list_task_items_on
list-Lists db v h =
    subst Distinct (sym (items_keys db (sort by_task_id db.tasks) h))
      (Distinct-sort task_key by_task_id db.tasks v.tasks_distinct)

loads-Lists :
    (db : Database) {r : List TaskListItem × Option Worklog}
    → IsConsistent db
    → load_task_tracking_resources db ≡ ok r
    → Lists r.0
unfolding load_task_tracking_resources
loads-Lists db v h =
    let (items, e, rest) = bind-eq-ok (list_task_items_on db) _ h in
    let (worklog, f, done) = bind-eq-ok (active_worklog_on db) _ rest in
    subst (λ (r : List TaskListItem × Option Worklog). Lists r.0) (ok-injective done)
      (list-Lists db v e)

reports-Lists :
    (db : Database) (start end now : Instant) {r : TaskListReportRead}
    → IsConsistent db
    → task_list_report_read db start end now ≡ ok r
    → Lists r.items
unfolding task_list_report_read
reports-Lists db start end now v h =
    let (items, e, rest) = bind-eq-ok (list_task_items_on db) _ h in
    let (rows, _, rest') = bind-eq-ok (report_rows_on db _) _ rest in
    let (worklog, f, done) = bind-eq-ok (active_worklog_on db) _ rest' in
    subst (λ (r : TaskListReportRead). Lists r.items) (ok-injective done) (list-Lists db v e)

module _ ⦃sqlite : Sqlite⦄ (describe : StorageError → List ℕ) (field_text : Field → List ℕ) where
  pub sqlite_repository-IsCatalogue :
      IsCatalogue (sqlite_repository describe field_text) IsConsistent
  unfolding sqlite_repository Task.create
  sqlite_repository-IsCatalogue = record {
    load_task_item = λ id db v. v;
    load_task_catalog = λ db v. v;
    create_task = λ id name at n db v. creates-IsConsistent db (Task.create id name at) v n;
    load_task_tracking_resources = λ db v. v;
    rename_task = λ id name at n db v. renames-IsConsistent db id none name at v n;
    archive_task = λ id at db v. archives-IsConsistent db id none at v;
    compare_and_rename_task =
        λ id expected name at n db v. renames-IsConsistent db id (some expected) name at v n;
    compare_and_archive_task =
        λ id expected at db v. archives-IsConsistent db id (some expected) at v;
    unarchive_task = λ id at db v. unarchives-IsConsistent db id at v;
    preview_inactive_tasks_with_period = λ as_of period db v. v;
    archive_inactive_tasks_with_period =
        λ ids as_of period db v. archives_inactive-IsConsistent db ids as_of period.days v;
    find_worklog = λ id db v. v;
    compare_and_move_worklog = λ id source expected destination db v.
        moves-IsConsistent db id source expected destination v;
    compare_and_set_worklog_times =
        λ id expected replacement db v. corrects-IsConsistent db id expected replacement v;
    compare_and_delete_completed_worklog =
        λ id task_id expected db v. deletes-IsConsistent db id task_id expected v;
    worklog_page = λ task_id after db v. v;
    global_worklog_page = λ after db v. v;
    active_worklog = λ db v. v;
    insert_worklog = λ worklog db v. inserts-IsConsistent db worklog v;
    stop_worklog = λ id start end db v. stops-IsConsistent db id start end v;
    switch_worklog = λ id start at next db v. switches-IsConsistent db id start at next v;
    task_list_report_read = λ start end now db v. v;
    report_read = λ start end now db v. v;
    catalog_lists = λ db v items e. list-Lists db v (map_err-eq-ok _ _ e);
    resources_lists = λ db v r e. loads-Lists db v (map_err-eq-ok _ _ e);
    report_lists = λ start end now db v r e. reports-Lists db start end now v (map_err-eq-ok _ _ e);
  }

  -- A service that starts on an empty database and nothing cached, and runs any commands on the
  -- SQLite repository, failed ones included: the database stays consistent, and the cached task
  -- list has each task once, in the order of the identifiers.
  pub run-IsCatalog :
      (tracker : Tracker) (rs : List ServiceRequest)
      → AreServiceRequests rs
      → let after =
          run
            (sqlite_repository describe field_text)
            (record { repository = empty_database; tasks = []; tracker = tracker })
            rs in
        IsConsistent after.repository × IsCatalog after.tasks
  run-IsCatalog tracker rs n =
      run-Catalogued (sqlite_repository describe field_text) IsConsistent
        sqlite_repository-IsCatalogue
        (record { repository = empty_database; tasks = []; tracker = tracker }) rs n
        (empty_database-IsConsistent, tt)
