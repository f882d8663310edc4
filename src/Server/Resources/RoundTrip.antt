-- ===== src/Server/Resources/RoundTrip.antt =====
-- What a client decodes of the task list that a server sends.
use time_tracker.Prelude.{
  ◌≡◌, refl, inl, inr, true, false, not, Option, none, some, List, [], ◌∷◌, map, ok, ◌==◌,
  any_of_Has, and_true, Has, ne→==, eq→==, arith, ltb,
}
use time_tracker.Prelude.Table.{Fresh, Distinct}
use time_tracker.Domain.Values.{TaskId}
use time_tracker.Domain.TaskName.Accepted.{new-eq_of_IsName}
use time_tracker.Domain.Task.{Task, rehydrate}
use time_tracker.Domain.Worklog.{Worklog}
use time_tracker.Domain.Worklog
use time_tracker.Domain.ActiveWorklog.{to_worklog, begin}
use time_tracker.Domain.Tracking.{TrackingState, idle, running, resume}
use time_tracker.Application.Timestamps.{canonical_timestamp}
use time_tracker.Application.Model.{TaskListItem}
use time_tracker.Application.Ordering.{recently_created}
use time_tracker.Application.Service.Tasks.{tasks}
use time_tracker.Application.Service.Catalog.Order.{item_key}
use time_tracker.Remote.Protocol.{Wire, item_dto, task_dto, worklog_dto}
use time_tracker.Remote.Decoding.{
  seen, has_active_task, validate_active_task, decode_task, decode_task_item, decode_unseen,
  decode_tasks, tracking_of, decode_worklog, decode_active, decode_task_list_state,
}
use time_tracker.Remote.Decoding.Trusted.{IsTask, IsTrusted}
use time_tracker.Server.Core.{Core, active_worklog}
use time_tracker.Server.Resources.{task_list_state_dto}

-- The start of a running worklog has no digits below a microsecond, as every stored start.
abbrev pub IsCanonical : TrackingState → Type 0
IsCanonical idle = Unit {0}
IsCanonical (running worklog) = canonical_timestamp worklog.start ≡ worklog.start

abbrev worklog_of : TrackingState → Option Worklog
worklog_of idle = none
worklog_of (running worklog) = some (to_worklog worklog)

abbrev Unseen : List TaskId → List TaskListItem → Type 0
Unseen ids [] = Unit {0}
Unseen ids (item ∷ items) = (seen item.task.id ids ≡ false) × Unseen ids items

Unseen-empty : (items : List TaskListItem) → Unseen [] items
unfolding seen
Unseen-empty [] = tt
Unseen-empty (item ∷ items) = (refl, Unseen-empty items)

Unseen-cons :
    (k : TaskId) (ids : List TaskId) (items : List TaskListItem)
    → Fresh k (map item_key items)
    → Unseen ids items
    → Unseen (k ∷ ids) items
unfolding seen
Unseen-cons k ids [] f u = tt
Unseen-cons k ids (item ∷ items) (n, f) (u, us) =
    (rw (ne→== k item.task.id n) u, Unseen-cons k ids items f us)

module _ (wire : Wire) where
  item_lem :
      (item : TaskListItem)
      → IsTask item.task
      → decode_task_item wire (item_dto wire item) ≡ ok item
  unfolding decode_task_item decode_task item_dto task_dto rehydrate
  item_lem item v =
      rw (wire.parse-print item.task.id, new-eq_of_IsName item.task.name v.named, late item.task v)
        refl
    where
      late : (task : Task) → IsTask task → ltb task.updated_at task.created_at ≡ false
      late task v = ground (arith, v.ordered)

  items_lem :
      (ids : List TaskId) (items : List TaskListItem)
      → ((item : TaskListItem) → Has item items → IsTask item.task)
      → Distinct (map item_key items)
      → Unseen ids items
      → decode_unseen wire ids (map (item_dto wire) items) ≡ ok items
  unfolding decode_unseen
  items_lem ids [] v d u = refl
  items_lem ids (item ∷ items) v (f, d) (u, us) =
      rw
        (
          item_lem item (v item (inl refl)),
          u,
          items_lem (item.task.id ∷ ids) items (λ x m. v x (inr m)) d
              (Unseen-cons item.task.id ids items f us),
        )
        refl

  active_lem :
      (state : TrackingState)
      → IsCanonical state
      → decode_active wire (elim state [
        | idle ↦ none
        | running worklog ↦ some (worklog_dto wire (to_worklog worklog))
      ])
        ≡ ok (worklog_of state, state)
  unfolding decode_active decode_worklog tracking_of resume to_worklog worklog_dto begin Worklog.new
  active_lem idle c = refl
  active_lem (running worklog) c =
      rw (wire.parse-print worklog.id, wire.parse-print worklog.task_id, c) refl

  found :
      (items : List TaskListItem) (id : TaskId) (item : TaskListItem)
      → Has item items
      → item.task.id ≡ id
      → item.task.archived ≡ false
      → has_active_task items id ≡ true
  unfolding has_active_task
  found items id item m same kept = any_of_Has _ items item m (
      and_true (item.task.id == id) (not item.task.archived) (eq→== item.task.id id same)
        (rw kept refl))

  validate_lem :
      (items : List TaskListItem) (state : TrackingState)
      → IsTrusted items state
      → validate_active_task items (worklog_of state) ≡ ok tt
  unfolding validate_active_task to_worklog
  validate_lem items idle t = refl
  validate_lem items (running worklog) t =
      let (item, m, same, kept) = t.active worklog refl in
      rw (found items worklog.task_id item m same kept) refl

  -- A client decodes the task list and tracking state that a server sends to exactly the server's
  -- own, in the same order, provided that they are ones a client may accept and the start of the
  -- running worklog is canonical.
  pub decode-task_list_state_dto :
      {S : Type 0} (core : Core S)
      → IsTrusted (tasks core.app recently_created) core.app.tracker.state
      → IsCanonical core.app.tracker.state
      → decode_task_list_state wire (task_list_state_dto wire core)
        ≡ ok (tasks core.app recently_created, core.app.tracker.state)
  unfolding decode_task_list_state decode_tasks task_list_state_dto active_worklog
  decode-task_list_state_dto core t c =
      let items = tasks core.app recently_created in
      rw
        (
          items_lem [] items t.tasks t.distinct (Unseen-empty items),
          active_lem core.app.tracker.state c,
          validate_lem items core.app.tracker.state t,
        )
        refl
