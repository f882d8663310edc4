-- ===== src/Storage/Requests/Consistent.antt =====
-- Histories of writes and the invariant.
use time_tracker.Prelude.{List, [], ◌∷◌}
use time_tracker.Storage.Errors.{Sqlite}
use time_tracker.Storage.Schema.{Database}
use time_tracker.Storage.Invariant.{IsConsistent, empty_database, empty_database-IsConsistent}
use time_tracker.Storage.Requests.{
  Request, creates, renames, archives, unarchives, archives_inactive, inserts, stops, switches,
  moves, corrects, deletes, IsRequest, perform, run,
}
use time_tracker.Storage.Requests.WorklogWrites.{
  inserts-IsConsistent, stops-IsConsistent, switches-IsConsistent,
}
use time_tracker.Storage.Requests.WorklogEdits.{
  moves-IsConsistent, corrects-IsConsistent, deletes-IsConsistent,
}
use time_tracker.Storage.Requests.TaskWrites.{
  creates-IsConsistent, renames-IsConsistent, archives-IsConsistent, unarchives-IsConsistent,
}
use time_tracker.Storage.Requests.TaskArchive.{archives_inactive-IsConsistent}

-- What the types of the domain guarantee of every request of a history.
abbrev pub AreRequests : List Request → Type 0
AreRequests [] = Unit {0}
AreRequests (r ∷ rs) = IsRequest r × AreRequests rs

module _ ⦃sqlite : Sqlite⦄ where
  perform-IsConsistent :
      (db : Database) (r : Request) → IsRequest r → IsConsistent db → IsConsistent (perform db r)
  unfolding perform
  perform-IsConsistent db (creates task) n v = creates-IsConsistent db task v n
  perform-IsConsistent db (renames id expected name at) n v =
      renames-IsConsistent db id expected name at v n
  perform-IsConsistent db (archives id expected at) n v = archives-IsConsistent db id expected at v
  perform-IsConsistent db (unarchives id at) n v = unarchives-IsConsistent db id at v
  perform-IsConsistent db (archives_inactive ids as_of days) n v =
      archives_inactive-IsConsistent db ids as_of days v
  perform-IsConsistent db (inserts worklog) n v = inserts-IsConsistent db worklog v
  perform-IsConsistent db (stops id start end) n v = stops-IsConsistent db id start end v
  perform-IsConsistent db (switches id start at next) n v =
      switches-IsConsistent db id start at next v
  perform-IsConsistent db (moves id source expected destination) n v =
      moves-IsConsistent db id source expected destination v
  perform-IsConsistent db (corrects id expected replacement) n v =
      corrects-IsConsistent db id expected replacement v
  perform-IsConsistent db (deletes id task_id expected) n v =
      deletes-IsConsistent db id task_id expected v

  histories-IsConsistent :
      (db : Database) (rs : List Request)
      → AreRequests rs
      → IsConsistent db
      → IsConsistent (run db rs)
  unfolding run
  histories-IsConsistent db [] n v = v
  histories-IsConsistent db (r ∷ rs) (n, ns) v =
      histories-IsConsistent (perform db r) rs ns (perform-IsConsistent db r n v)

  -- Starting from an empty database, every history of writes, failed ones included, leaves a
  -- consistent database: unique identifiers, task rows with a valid name and ordered timestamps,
  -- disjoint worklogs of positive length per task, each with its task, and at most one active
  -- worklog, of a task that is not archived.
  pub run-IsConsistent : (rs : List Request) → AreRequests rs → IsConsistent (run empty_database rs)
  run-IsConsistent rs n = histories-IsConsistent empty_database rs n empty_database-IsConsistent
