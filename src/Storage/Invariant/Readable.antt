-- ===== src/Storage/Invariant/Readable.antt =====
-- The reads of a consistent database.
use mathlib.Core.Option
use time_tracker.Prelude.{
  ℕ, ◌*◌, ◌≤◌, ◌≡◌, refl, inl, inr, Bool, false, Option, none, some, List, [], ◌∷◌, Result, ok,
  ◌>>=◌, map_err, transpose_map, collect, ◌==◌, if◌then◌else◌, arith, Has, ltb, is_none, Bool-cases,
}
use time_tracker.Prelude.Sort.{sort, Has-sort}
use time_tracker.Prelude.Table.{find_row, Has-find_row}
use time_tracker.Domain.Values.{TaskId, WorklogId, Instant}
use time_tracker.Domain.TaskName.{TaskName}
use time_tracker.Domain.TaskName.Accepted.{new-eq_of_IsName}
use time_tracker.Domain.Task.{Task}
use time_tracker.Domain.Task
use time_tracker.Domain.Worklog.Overlap.{EndsAfter, new_of_IsPositive}
use time_tracker.Application.Timestamps.{instant_of_us}
use time_tracker.Storage.Errors.{StorageError, corrupt_data, task_timestamps}
use time_tracker.Storage.Schema.{TaskRow, WorklogRow, Database, task_key, worklog_key}
use time_tracker.Storage.Mapping.{task_from_row, worklog_from_row}
use time_tracker.Storage.Mapping.Range.{
  IsTimestamp, IsEnd, IsTaskInRange, IsWorklogInRange, IsInRange, us_to_timestamp-eq, end-eq,
  task_id-eq, worklog_id-eq, worklog_of,
}
use time_tracker.Storage.Reads.{
  worklog_by_id_on, find_active, active_worklog_on, task_item_from_row, task_item_by_id_on,
  by_task_id, list_task_items_on, active_tracking_read_on, active_adoption_on, flatten, max_option,
  max_start_us, latest_work_start_on,
}
use time_tracker.Storage.Tracking.{load_task_tracking_resources}
use time_tracker.Storage.Invariant.{IsReadable, IsConsistent}

-- A read that returns something.
abbrev pub Reads : {A : Type 0} → Result StorageError A → Type 0
Reads {A = A} r = (a : A) × (r ≡ ok a)

bind_reads :
    {A B : Type 0} (m : Result StorageError A) (f : A → Result StorageError B)
    → Reads m
    → ((a : A) → m ≡ ok a → Reads (f a))
    → Reads (m >>= f)
bind_reads m f (a, e) k = let (b, g) = k a e in (b, rw e g)

collect_reads :
    {A B : Type 0} (f : A → Result StorageError B) (xs : List A)
    → ((x : A) → Has x xs → Reads (f x))
    → Reads (collect f xs)
collect_reads f [] h = ([], refl)
collect_reads f (x ∷ xs) h = bind_reads (f x) _ (h x (inl refl)) λ b e.
    bind_reads (collect f xs) _ (collect_reads f xs (λ y m. h y (inr m))) λ bs g. (b ∷ bs, refl)

transpose_reads :
    {A B : Type 0} (f : A → Result StorageError B) (o : Option A)
    → ((a : A) → o ≡ some a → Reads (f a))
    → Reads (transpose_map f o)
transpose_reads f none h = (none, refl)
transpose_reads f (some a) h = bind_reads (f a) _ (h a refl) λ b e. (some b, refl)

ends_after :
    (start : Instant) (end : Option Instant)
    → EndsAfter start end
    → EndsAfter (instant_of_us start) (Option.map instant_of_us end)
unfolding instant_of_us
ends_after start none h = tt
ends_after start (some end) h = omega arith

pub worklog_from_row-eq :
    (row : WorklogRow)
    → EndsAfter row.start_us row.end_us
    → IsWorklogInRange row
    → worklog_from_row row ≡ ok (worklog_of row)
unfolding worklog_from_row worklog_of
worklog_from_row-eq row h i =
    rw
      (
        end-eq row.end_us i.end,
        worklog_id-eq row.id i.id,
        task_id-eq row.task_id i.task_id,
        us_to_timestamp-eq row.start_us i.start,
        new_of_IsPositive (worklog_of row) (ends_after row.start_us row.end_us h),
      )
      refl

pub worklog_from_row-reads :
    (row : WorklogRow)
    → EndsAfter row.start_us row.end_us
    → IsWorklogInRange row
    → Reads (worklog_from_row row)
worklog_from_row-reads row h i = (worklog_of row, worklog_from_row-eq row h i)

rehydrate_reads :
    (id : TaskId) (name : TaskName) (archived : Bool) (created updated : ℕ)
    → created ≤ updated
    → Reads (
        map_err
          (λ _. corrupt_data task_timestamps)
          (Task.rehydrate id name archived (instant_of_us created) (instant_of_us updated)))
unfolding Task.rehydrate instant_of_us
rehydrate_reads id name archived created updated h =
    let early : ltb (updated * 1000) (created * 1000) ≡ false = ground arith in
    (
      record {
        id = id;
        name = name;
        archived = archived;
        created_at = created * 1000;
        updated_at = updated * 1000;
      },
      rw early refl,
    )

pub task_from_row-reads :
    (row : TaskRow) → IsReadable row → IsTaskInRange row → Reads (task_from_row row)
unfolding task_from_row
task_from_row-reads row r i =
    rw
      (
        us_to_timestamp-eq row.created_at_us i.created,
        us_to_timestamp-eq row.updated_at_us i.updated,
        task_id-eq row.id i.id,
        new-eq_of_IsName (record { text = row.name }) r.named,
      )
      (rehydrate_reads row.id (record { text = row.name }) row.archived row.created_at_us
        row.updated_at_us r.ordered)

later_reads :
    (w : WorklogRow) (task_id : TaskId) (rest : Option ℕ)
    → IsTimestamp w.start_us
    → IsEnd rest
    → IsEnd (if w.task_id == task_id then max_option w.start_us rest else rest)
unfolding max_option
later_reads w task_id none s h = elim (Bool-cases (w.task_id == task_id)) [
  | inl e ↦ rw e s
  | inr e ↦ rw e h
]
later_reads w task_id (some us) s h = elim (Bool-cases (w.task_id == task_id)) [
  | inl e ↦ rw e (omega arith)
  | inr e ↦ rw e h
]

start_reads :
    (ws : List WorklogRow) (task_id : TaskId)
    → ((w : WorklogRow) → Has w ws → IsWorklogInRange w)
    → IsEnd (max_start_us task_id ws)
unfolding max_start_us
start_reads [] task_id h = tt
start_reads (w ∷ ws) task_id h =
    let ih = start_reads ws task_id (λ v m. h v (inr m)) in
    later_reads w task_id (max_start_us task_id ws) (h w (inl refl)).start ih

flat_reads :
    {A : Type 0} (r : Result StorageError (Option (Option A))) → Reads r → Reads (flatten r)
flat_reads r (none, e) = rw e (none, refl)
flat_reads r (some found, e) = rw e (found, refl)

find_active-Has : (ws : List WorklogRow) (w : WorklogRow) → find_active ws ≡ some w → Has w ws
unfolding find_active
find_active-Has [] w h = cc
find_active-Has (v ∷ ws) w h = elim (Bool-cases (is_none v.end_us)) [
  | inl e ↦ inl (ground arith)
  | inr e ↦ inr (find_active-Has ws w (rw e at h))
]

module _ (db : Database) (v : IsConsistent db) (i : IsInRange db) where
  stored_worklog : (row : WorklogRow) → Has row db.worklogs → Reads (worklog_from_row row)
  stored_worklog row m = worklog_from_row-reads row (v.disjoint.positive row m) (i.worklogs row m)

  stored_task : (row : TaskRow) → Has row db.tasks → Reads (task_from_row row)
  stored_task row m = task_from_row-reads row (v.readable row m) (i.tasks row m)

  pub start_read : (task_id : TaskId) → Reads (latest_work_start_on db task_id)
  unfolding latest_work_start_on
  start_read task_id = (_, end-eq _ (start_reads db.worklogs task_id i.worklogs))

  pub active_reads : Reads (active_worklog_on db)
  unfolding active_worklog_on
  active_reads =
      transpose_reads worklog_from_row (find_active db.worklogs)
        λ w e. stored_worklog w (find_active-Has db.worklogs w e)

  pub adoption_reads : Reads (active_adoption_on db)
  unfolding active_adoption_on
  adoption_reads = bind_reads (active_worklog_on db) _ active_reads λ w e.
      bind_reads (flatten (transpose_map (λ active. latest_work_start_on db active.task_id) w)) _
        (flat_reads _ (
          transpose_reads (λ active. latest_work_start_on db active.task_id) w
            λ active f. start_read active.task_id))
        λ start f. (_, refl)

  item_reads : (row : TaskRow) → Has row db.tasks → Reads (task_item_from_row db row)
  unfolding task_item_from_row
  item_reads row m = bind_reads (task_from_row row) _ (stored_task row m) λ task e.
      bind_reads (latest_work_start_on db row.id) _ (start_read row.id) λ start f. (_, refl)

  item_by_id_reads : (id : TaskId) → Reads (task_item_by_id_on db id)
  unfolding task_item_by_id_on
  item_by_id_reads id =
      transpose_reads (task_item_from_row db) (find_row task_key id db.tasks)
        λ row e. item_reads row (Has-find_row task_key id db.tasks row e).0

  items_read : Reads (list_task_items_on db)
  unfolding list_task_items_on
  items_read =
      collect_reads (task_item_from_row db) (sort by_task_id db.tasks)
        λ row m. item_reads row (Has-sort by_task_id db.tasks row m)

  tracking_reads : Reads (active_tracking_read_on db)
  unfolding active_tracking_read_on
  tracking_reads = bind_reads (active_worklog_on db) _ active_reads λ w e.
      bind_reads (flatten (transpose_map (λ active. task_item_by_id_on db active.task_id) w)) _
        (flat_reads _ (
          transpose_reads (λ active. task_item_by_id_on db active.task_id) w
            λ active f. item_by_id_reads active.task_id))
        λ item f. (_, refl)

-- In a consistent database whose stored counts are in the range of a timestamp and whose
-- identifiers are ones, every read succeeds: of the task list with the active worklog, of the tracking state, and of any worklog.
pub reads_succeed :
    (db : Database) (id : WorklogId)
    → IsConsistent db
    → IsInRange db
    → Reads (load_task_tracking_resources db)
      × Reads (active_tracking_read_on db)
      × Reads (worklog_by_id_on db id)
unfolding load_task_tracking_resources worklog_by_id_on
reads_succeed db id v i = (
  bind_reads (list_task_items_on db) _ (items_read db v i)
      (λ items e. bind_reads (active_worklog_on db) _ (active_reads db v i) λ w f. (_, refl)),
  tracking_reads db v i,
  transpose_reads worklog_from_row (find_row worklog_key id db.worklogs)
      (λ row e. stored_worklog db v i row (Has-find_row worklog_key id db.worklogs row e).0),
)
