-- ===== src/Storage/Requests/Ranged.antt =====
-- Histories of writes and the range of the stored counts and identifiers.
use time_tracker.Prelude.{List, [], ◌∷◌}
use time_tracker.Storage.Errors.{Sqlite}
use time_tracker.Storage.Schema.{Database}
use time_tracker.Storage.Mapping.Range.{IsId, IsInRange}
use time_tracker.Storage.Invariant.{empty_database}
use time_tracker.Storage.Requests.{
  Request, creates, renames, archives, unarchives, archives_inactive, inserts, stops, switches,
  moves, corrects, deletes, perform, run,
}
use time_tracker.Storage.Requests.WorklogRange.{
  IsStorable, IsStorableEnd, IsStorableWorklog, inserts-IsInRange, stops-IsInRange,
  switches-IsInRange, moves-IsInRange, corrects-IsInRange, deletes-IsInRange,
}
use time_tracker.Storage.Requests.TaskRange.{
  creates-IsInRange, renames-IsInRange, archives-IsInRange, unarchives-IsInRange,
  archives_inactive-IsInRange,
}

-- What the types of instants and identifiers guarantee of what a request stores.
abbrev pub IsStored : Request → Type 0
IsStored (creates task) = IsId task.id × IsStorable task.created_at × IsStorable task.updated_at
IsStored (renames id expected name at) = IsStorable at
IsStored (archives id expected at) = IsStorable at
IsStored (unarchives id at) = IsStorable at
IsStored (archives_inactive ids as_of days) = IsStorable as_of
IsStored (inserts worklog) = IsStorableWorklog worklog
IsStored (stops id start end) = IsStorable end
IsStored (switches id start at next) = IsStorable at × IsStorableWorklog next
IsStored (moves id source expected destination) = IsId destination
IsStored (corrects id expected replacement) =
    IsStorable replacement.start × IsStorableEnd replacement.end
IsStored (deletes id task_id expected) = Unit {0}

abbrev pub AreStored : List Request → Type 0
AreStored [] = Unit {0}
AreStored (r ∷ rs) = IsStored r × AreStored rs

module _ ⦃sqlite : Sqlite⦄ where
  perform-IsInRange :
      (db : Database) (r : Request) → IsStored r → IsInRange db → IsInRange (perform db r)
  unfolding perform
  perform-IsInRange db (creates task) s v = creates-IsInRange db task v s
  perform-IsInRange db (renames id expected name at) s v =
      renames-IsInRange db id expected name at v s
  perform-IsInRange db (archives id expected at) s v = archives-IsInRange db id expected at v s
  perform-IsInRange db (unarchives id at) s v = unarchives-IsInRange db id at v s
  perform-IsInRange db (archives_inactive ids as_of days) s v =
      archives_inactive-IsInRange db ids as_of days v s
  perform-IsInRange db (inserts worklog) s v = inserts-IsInRange db worklog v s
  perform-IsInRange db (stops id start end) s v = stops-IsInRange db id start end v s
  perform-IsInRange db (switches id start at next) s v =
      switches-IsInRange db id start at next v s.0 s.1
  perform-IsInRange db (moves id source expected destination) s v =
      moves-IsInRange db id source expected destination v s
  perform-IsInRange db (corrects id expected replacement) s v =
      corrects-IsInRange db id expected replacement v s
  perform-IsInRange db (deletes id task_id expected) s v =
      deletes-IsInRange db id task_id expected v

  histories-IsInRange :
      (db : Database) (rs : List Request) → AreStored rs → IsInRange db → IsInRange (run db rs)
  unfolding run
  histories-IsInRange db [] s v = v
  histories-IsInRange db (r ∷ rs) (s, ss) v =
      histories-IsInRange (perform db r) rs ss (perform-IsInRange db r s v)

  -- Starting from an empty database, every history of writes of timestamps and identifiers, failed
  -- ones included, stores nothing but counts in the range of a timestamp and identifiers.
  pub run-IsInRange : (rs : List Request) → AreStored rs → IsInRange (run empty_database rs)
  run-IsInRange rs s =
      histories-IsInRange empty_database rs s
        (record { tasks = λ row m. absurd m; worklogs = λ row m. absurd m })
