-- ===== src/Domain/Task.antt =====
-- `Task` of crates/tracker-domain/src/task.rs. A method on `&mut self` returns the task behind it
-- and whether it changed.
pub mod Timestamps
use Prim.Native.Nat.{max}
use time_tracker.Prelude.{
  Bool, true, false, not, Result, ok, err, ltb, if◌then◌else◌, ◌>>=◌, ◌>>◌, reject,
}
use time_tracker.Domain.Values.{TaskId, Instant}
use time_tracker.Domain.TaskName.{TaskName, name_eq}

pub record Task : Type 0 where
  pub id : TaskId
  pub name : TaskName
  pub archived : Bool
  pub created_at : Instant
  pub updated_at : Instant

pub data TaskError : Type 0 where
  updated_before_created : TaskError

unfoldable pub create : TaskId → TaskName → Instant → Task
create id name created_at = record {
  id = id;
  name = name;
  archived = false;
  created_at = created_at;
  updated_at = created_at;
}

unfoldable pub rehydrate : TaskId → TaskName → Bool → Instant → Instant → Result TaskError Task
rehydrate id name archived created_at updated_at = do
  reject (ltb updated_at created_at) updated_before_created
  ok (record {
    id = id;
    name = name;
    archived = archived;
    created_at = created_at;
    updated_at = updated_at;
  })

unfoldable pub touch : Task → Instant → Task
touch task at = record task { updated_at = max task.updated_at at }

unfoldable pub rename : Task → TaskName → Instant → Task × Bool
unfolding touch
rename task name occurred_at =
    if name_eq name task.name
    then (task, false)
    else (touch (record task { name = name }) occurred_at, true)

unfoldable pub archive : Task → Instant → Task × Bool
unfolding touch
archive task occurred_at =
    if task.archived
    then (task, false)
    else (touch (record task { archived = true }) occurred_at, true)

unfoldable pub restore : Task → Instant → Task × Bool
unfolding touch
restore task occurred_at =
    if not task.archived
    then (task, false)
    else (touch (record task { archived = false }) occurred_at, true)
