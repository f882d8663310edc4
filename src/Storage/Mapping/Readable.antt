-- ===== src/Storage/Mapping/Readable.antt =====
-- What a task that was read from a row satisfies.
use time_tracker.Prelude.{◌≡◌, sym, subst, ◌∙◌, ok, bind-eq-ok, map_err-eq-ok, map_err}
use time_tracker.Domain.TaskName.{TaskName}
use time_tracker.Domain.TaskName
use time_tracker.Domain.TaskName.Accepted.{IsName, new-IsName}
use time_tracker.Domain.Task.{Task}
use time_tracker.Domain.Task.Timestamps.{rehydrate-eq-ok}
use time_tracker.Storage.Errors.{corrupt_data, task_name}
use time_tracker.Storage.Schema.{TaskRow}
use time_tracker.Storage.Mapping.{us_to_timestamp, task_id_from_stored, task_from_row}
use time_tracker.Storage.Mapping.Range.{IsTimestamp, task_id-eq-ok, read-IsTimestamp}
use time_tracker.Application.Timestamps.{timestamp_to_us}
use time_tracker.Domain.Values.{Instant}

-- A task that is read has the row's identifier and a valid name.
pub task_from_row-IsName :
    (row : TaskRow) {task : Task}
    → task_from_row row ≡ ok task
    → (task.id ≡ row.id) × IsName task.name
unfolding task_from_row
task_from_row-IsName row h =
    let (created_at, _, updating) = bind-eq-ok (us_to_timestamp row.created_at_us) _ h in
    let (updated_at, _, naming) = bind-eq-ok (us_to_timestamp row.updated_at_us) _ updating in
    let (id, found, named_row) = bind-eq-ok (task_id_from_stored row.id) _ naming in
    let (name, n, rest) =
      bind-eq-ok (map_err (λ _. corrupt_data task_name) (TaskName.new row.name)) _ named_row in
    let (same, named, _) = rehydrate-eq-ok _ name _ _ _ (map_err-eq-ok _ _ rest) in
    (
      same ∙ task_id-eq-ok row.id found,
      subst IsName (sym named) (new-IsName row.name name (map_err-eq-ok _ _ n)).0,
    )

-- The last change of a task that is read is a timestamp.
pub task_from_row-IsTimestamp :
    (row : TaskRow) {task : Task}
    → task_from_row row ≡ ok task
    → IsTimestamp (timestamp_to_us task.updated_at)
unfolding task_from_row
task_from_row-IsTimestamp row h =
    let (created_at, _, updating) = bind-eq-ok (us_to_timestamp row.created_at_us) _ h in
    let (updated_at, read, naming) = bind-eq-ok (us_to_timestamp row.updated_at_us) _ updating in
    let (id, _, named_row) = bind-eq-ok (task_id_from_stored row.id) _ naming in
    let (name, _, rest) =
      bind-eq-ok (map_err (λ _. corrupt_data task_name) (TaskName.new row.name)) _ named_row in
    let (_, _, kept) = rehydrate-eq-ok _ name _ _ _ (map_err-eq-ok _ _ rest) in
    subst (λ (at : Instant). IsTimestamp (timestamp_to_us at)) (sym kept)
      (read-IsTimestamp row.updated_at_us read)
