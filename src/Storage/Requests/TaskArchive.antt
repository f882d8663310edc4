-- ===== src/Storage/Requests/TaskArchive.antt =====
-- Archiving the inactive tasks together, and the invariant.
use time_tracker.Prelude.{
  ℕ, ◌≡◌, subst, true, not, List, [], ◌∷◌, map, ok, ◌>>=◌, reject, bind-eq-ok, map_err-eq-ok,
  map_err, list_eq,
}
use time_tracker.Domain.Values.{TaskId, Instant}
use time_tracker.Domain.Task.{Task}
use time_tracker.Domain.Task
use time_tracker.Application.Timestamps.{canonical_timestamp}
use time_tracker.Storage.Errors.{Sqlite, inactive_task_candidates_changed}
use time_tracker.Storage.Schema.{Database}
use time_tracker.Storage.Reads.{active_tracking_read_on}
use time_tracker.Storage.Reads.Inversion.{transact_keeps}
use time_tracker.Storage.Tasks.{
  write_task, set_archived, archive_all, archive_inactive_tasks_with_period, inactive_tasks_on,
}
use time_tracker.Storage.Invariant.{IsConsistent}
use time_tracker.Storage.Requests.TaskWrites.{set_archived-IsConsistent}

module _ ⦃sqlite : Sqlite⦄ where
  archive_all-IsConsistent :
      (tasks : List Task) (as_of : Instant) (db : Database) {archived : List Task} {db' : Database}
      → IsConsistent db
      → archive_all tasks as_of db ≡ ok (archived, db')
      → IsConsistent db'
  unfolding archive_all
  archive_all-IsConsistent [] as_of db {db' = db'} v h =
      let same : db ≡ db' = cc in subst IsConsistent same v
  archive_all-IsConsistent (task ∷ tasks) as_of db {db' = db'} v h =
      let archived = (Task.archive task as_of).0 in
      let (written, w, rest) =
        bind-eq-ok (map_err _ (write_task true task.id (set_archived true archived) db)) _ h in
      let ((others, last), e, done) = bind-eq-ok (archive_all tasks as_of written) _ rest in
      let same : last ≡ db' = cc in
      subst IsConsistent same (
        archive_all-IsConsistent tasks as_of written
          (set_archived-IsConsistent true archived task.id db v (map_err-eq-ok _ _ w)) e)

  pub archives_inactive-IsConsistent :
      (db : Database) (ids : List TaskId) (as_of : Instant) (days : ℕ)
      → IsConsistent db
      → IsConsistent (archive_inactive_tasks_with_period db ids as_of days).1
  unfolding archive_inactive_tasks_with_period
  archives_inactive-IsConsistent db ids as_of days v =
      transact_keeps IsConsistent db
        (inactive_tasks_on db as_of days >>= λ tasks.
          reject (not (list_eq (map (λ (t : Task). t.id) tasks) ids))
            inactive_task_candidates_changed
          >>= λ _. archive_all tasks (canonical_timestamp as_of) db >>= λ (archived, db').
              active_tracking_read_on db' >>= λ tracking.
              ok (record { tasks = archived; tracking = tracking }, db'))
        v
        λ a db' h.
          let (tasks, _, rest) = bind-eq-ok (inactive_tasks_on db as_of days) _ h in
          let (_, _, next) =
            bind-eq-ok
              (reject (not (list_eq (map (λ (t : Task). t.id) tasks) ids))
                inactive_task_candidates_changed)
              _ rest in
          let ((archived, last), e, read) =
            bind-eq-ok (archive_all tasks (canonical_timestamp as_of) db) _ next in
          let (tracking, _, done) = bind-eq-ok (active_tracking_read_on last) _ read in
          let same : last ≡ db' = cc in
          subst IsConsistent same (archive_all-IsConsistent tasks _ db v e)
