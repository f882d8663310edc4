-- ===== src/Remote/Decoding/Trusted.antt =====
-- What an accepted task list and tracking state satisfy, whatever the server sent.
use time_tracker.Prelude.{
  ◌≤◌, ◌≡◌, ◌≢◌, refl, sym, subst, inl, inr, Bool, true, false, not, Option, none, some, List, [],
  ◌∷◌, map, ok, ◌==◌, Has, Has-any, Bool-cases, bind-eq-ok, map_err, map_err-eq-ok, reject,
  reject-eq-ok, ok-injective, ok_or, and-left, and-right, ==→eq, ==→ne, arith, ltb, transpose_map,
}
use time_tracker.Prelude.Text.{codes}
use time_tracker.Prelude.Table.{Distinct}
use time_tracker.Prelude.Sort.Unique.{Fresh-of_Has}
use time_tracker.Domain.Values.{TaskId, Instant}
use time_tracker.Domain.TaskName.{TaskName}
use time_tracker.Domain.TaskName
use time_tracker.Domain.TaskName.Accepted.{IsName, new-IsName}
use time_tracker.Domain.Task.{Task, TaskError, rehydrate}
use time_tracker.Domain.Worklog.{Worklog}
use time_tracker.Domain.ActiveWorklog.{ActiveWorklog}
use time_tracker.Domain.Tracking.{TrackingState, running, resume}
use time_tracker.Application.Model.{TaskListItem}
use time_tracker.Application.Service.Catalog.Order.{item_key}
use time_tracker.Remote.Protocol.{Wire, TaskDto, TaskListStateDto}
use time_tracker.Remote.Errors.{RemoteError}
use time_tracker.Remote.Decoding.{
  seen, has_active_task, validate_active_task, decode_task, decode_task_item, decode_unseen,
  decode_tasks, tracking_of, decode_worklog, decode_active, decode_task_list_state,
}

-- A task that the domain could have made.
pub record IsTask (task : Task) : Type 0 where
  pub named : IsName task.name
  pub ordered : task.created_at ≤ task.updated_at

pub record IsTrusted (items : List TaskListItem) (state : TrackingState) : Type 0 where
  pub distinct : Distinct (map item_key items)
  pub tasks : (item : TaskListItem) → Has item items → IsTask item.task
  pub active :
      (worklog : ActiveWorklog)
      → state ≡ running worklog
      → (item : TaskListItem) × Has item items
        × (item.task.id ≡ worklog.task_id)
        × (item.task.archived ≡ false)

rehydrate-IsTask :
    (id : TaskId) (name : TaskName) (archived : Bool) (created_at updated_at : Instant)
    {task : Task}
    → IsName name
    → rehydrate id name archived created_at updated_at ≡ ok task
    → IsTask task
unfolding rehydrate
rehydrate-IsTask id name archived created_at updated_at n h =
    elim (Bool-cases (ltb updated_at created_at)) [
      | inl e ↦ absurd (ground arith)
      | inr e ↦
          let same : record {
            id = id;
            name = name;
            archived = archived;
            created_at = created_at;
            updated_at = updated_at;
          }
              ≡ _ =
            ok-injective {E = TaskError} (rw e at h) in
          subst IsTask same (record { named = n; ordered = ground arith })
    ]

module _ (wire : Wire) where
  decode_task-IsTask : (dto : TaskDto) {task : Task} → decode_task wire dto ≡ ok task → IsTask task
  unfolding decode_task
  decode_task-IsTask dto h =
      let (id, _, rest) =
        bind-eq-ok (ok_or (wire.parse dto.id) (RemoteError.protocol (codes "invalid task id"))) _
          h in
      let (name, e, made) =
        bind-eq-ok
          (map_err (λ _. RemoteError.protocol (codes "invalid task name")) (TaskName.new dto.name))
          _ rest in
      rehydrate-IsTask id name dto.archived dto.created_at dto.updated_at
        (new-IsName dto.name name (map_err-eq-ok _ _ e)).0 (map_err-eq-ok _ _ made)

  item-IsTask :
      (dto : TaskDto) {item : TaskListItem} → decode_task_item wire dto ≡ ok item → IsTask item.task
  unfolding decode_task_item
  item-IsTask dto h =
      let (task, e, done) = bind-eq-ok (decode_task wire dto) _ h in
      subst (λ (i : TaskListItem). IsTask i.task) (ok-injective done) (decode_task-IsTask dto e)

  -- No identifier of the list is among those seen before.
  abbrev Unseen : List TaskId → List TaskListItem → Type 0
  Unseen ids items = (item : TaskListItem) → Has item items → seen item.task.id ids ≡ false

  abbrev Accepted : List TaskId → List TaskListItem → Type 0
  Accepted ids items =
      Distinct (map item_key items)
      × ((item : TaskListItem) → Has item items → IsTask item.task)
      × Unseen ids items

  apart : (id k : TaskId) (ids : List TaskId) → seen id (k ∷ ids) ≡ false → k ≢ id
  unfolding seen
  apart id k ids h = elim (Bool-cases (k == id)) [
    | inl e ↦ absurd (ground arith)
    | inr e ↦ ==→ne k id e
  ]

  later : (id k : TaskId) (ids : List TaskId) → seen id (k ∷ ids) ≡ false → seen id ids ≡ false
  unfolding seen
  later id k ids h = elim (Bool-cases (k == id)) [
    | inl e ↦ absurd (ground arith)
    | inr e ↦ rw e at h
  ]

  cons-Accepted :
      (ids : List TaskId) (item : TaskListItem) (items : List TaskListItem)
      → IsTask item.task
      → seen item.task.id ids ≡ false
      → Accepted (item.task.id ∷ ids) items
      → Accepted ids (item ∷ items)
  cons-Accepted ids item items v u (d, t, n) = (
    (Fresh-of_Has item_key item.task.id items (λ x m. apart x.task.id item.task.id ids (n x m)), d),
    task_of,
    unseen,
  )
    where
      task_of : (x : TaskListItem) → Has x (item ∷ items) → IsTask x.task
      task_of x (inl e) = subst (λ (i : TaskListItem). IsTask i.task) (sym e) v
      task_of x (inr m) = t x m

      unseen : (x : TaskListItem) → Has x (item ∷ items) → seen x.task.id ids ≡ false
      unseen x (inl e) = subst (λ (i : TaskListItem). seen i.task.id ids ≡ false) (sym e) u
      unseen x (inr m) = later x.task.id item.task.id ids (n x m)

  unseen-Accepted :
      (ids : List TaskId) (dtos : List TaskDto) {items : List TaskListItem}
      → decode_unseen wire ids dtos ≡ ok items
      → Accepted ids items
  unfolding decode_unseen
  unseen-Accepted ids [] h =
      subst (Accepted ids) (ok-injective h) (tt, (λ item m. absurd m), (λ item m. absurd m))
  unseen-Accepted ids (dto ∷ dtos) h =
      let (item, e, r1) = bind-eq-ok (decode_task_item wire dto) _ h in
      let (_, u, r2) = bind-eq-ok (reject (seen item.task.id ids) _) _ r1 in
      let (more, f, done) = bind-eq-ok (decode_unseen wire (item.task.id ∷ ids) dtos) _ r2 in
      subst (Accepted ids) (ok-injective done) (
        cons-Accepted ids item more (item-IsTask dto e) (reject-eq-ok _ _ u)
          (unseen-Accepted (item.task.id ∷ ids) dtos f))

  -- The active worklog of an accepted state has a task of the list that is not archived.
  active_task :
      (items : List TaskListItem) (id : TaskId)
      → has_active_task items id ≡ true
      → (item : TaskListItem) × Has item items × (item.task.id ≡ id) × (item.task.archived ≡ false)
  unfolding has_active_task
  active_task items id h =
      let (item, m, p) = Has-any _ items h in
      let a = and-left _ _ p in
      let b = and-right (item.task.id == id) _ p in
      (item, m, ==→eq item.task.id id a, unarchived item.task.archived b)
    where
      unarchived : (b : Bool) → not b ≡ true → b ≡ false
      unarchived false e = refl
      unarchived true e = cc

  owner :
      (w : Worklog) {state : TrackingState} {active : ActiveWorklog}
      → tracking_of wire (some w) ≡ ok state
      → state ≡ running active
      → active.task_id ≡ w.task_id
  unfolding tracking_of resume
  owner w t r = ground arith

  tracked :
      (items : List TaskListItem) (worklog : Option Worklog) (state : TrackingState)
      (active : ActiveWorklog)
      → tracking_of wire worklog ≡ ok state
      → validate_active_task items worklog ≡ ok tt
      → state ≡ running active
      → has_active_task items active.task_id ≡ true
  unfolding tracking_of validate_active_task
  tracked items none state active t v r = cc
  tracked items (some w) state active t v r = elim (Bool-cases (has_active_task items w.task_id)) [
    | inl e ↦ subst (λ (id : TaskId). has_active_task items id ≡ true) (sym (owner w t r)) e
    | inr e ↦ absurd (ground arith)
  ]

  -- Whatever a server sends, a task list and tracking state that the client accepts is one that the
  -- application could have: identifiers are unique, every task has a valid name and ordered
  -- timestamps, and the active worklog is of a task in the list that is not archived.
  pub decode_task_list_state-IsTrusted :
      (dto : TaskListStateDto) (items : List TaskListItem) (state : TrackingState)
      → decode_task_list_state wire dto ≡ ok (items, state)
      → IsTrusted items state
  unfolding decode_task_list_state decode_tasks decode_active
  decode_task_list_state-IsTrusted dto items state h =
      let (found, e, r1) = bind-eq-ok (decode_unseen wire [] dto.tasks) _ h in
      let (read, a, r2) = bind-eq-ok (decode_active wire dto.active_worklog) _ r1 in
      let (_, v, done) = bind-eq-ok (validate_active_task found read.0) _ r2 in
      let (worklog, _, r3) =
        bind-eq-ok (transpose_map (decode_worklog wire) dto.active_worklog) _ a in
      let (state', t, pair) = bind-eq-ok (tracking_of wire worklog) _ r3 in
      let same = ok-injective pair in
      subst (λ (p : List TaskListItem × TrackingState). IsTrusted p.0 p.1) (ok-injective done)
        (trusted found read.0 read.1 (unseen-Accepted [] dto.tasks e) v
          (subst (λ (p : Option Worklog × TrackingState). tracking_of wire p.0 ≡ ok p.1) same t))
    where
      trusted :
          (items : List TaskListItem) (worklog : Option Worklog) (state : TrackingState)
          → Accepted [] items
          → validate_active_task items worklog ≡ ok tt
          → tracking_of wire worklog ≡ ok state
          → IsTrusted items state
      trusted items worklog state (d, t, n) v r = record {
        distinct = d;
        tasks = t;
        active =
            λ active e. active_task items active.task_id (tracked items worklog state active r v e);
      }
