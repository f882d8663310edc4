-- ===== src/Application/Service/Tracking/Change.antt =====
-- What a change of the active task is, step by step.
use time_tracker.Prelude.{
  ◌<◌, ◌≡◌, inl, inr, none, some, List, [], ◌∷◌, arith, ok, err, ◌==◌, Bool-cases, ==→eq,
}
use time_tracker.Domain.Values.{TaskId, WorklogId, Instant}
use time_tracker.Domain.Task.{Task}
use time_tracker.Domain.Worklog.{Worklog}
use time_tracker.Domain.ActiveWorklog.{ActiveWorklog}
use time_tracker.Domain.Tracking.{
  TrackingState, idle, running, Tracker, SwitchedWorklogs, running_tracker, active, start, switch,
}
use time_tracker.Application.Model.{TaskListItem}
use time_tracker.Application.Service.{TrackerApplication, find_item}
use time_tracker.Application.Service.Tracking.{
  SetActiveTaskOutcome, started, switched, already_active, App,
}

-- The tracker runs the worklog.
abbrev pub Runs : Tracker → WorklogId → TaskId → Instant → Type 0
Runs tracker id task_id at =
    tracker ≡ running_tracker (record { id = id; task_id = task_id; start = at })

abbrev pub begun : WorklogId → TaskId → Instant → Worklog
begun id task_id at = record { id = id; task_id = task_id; start = at; end = none }

-- What the outcome of a change says of the new tracker.
abbrev pub IsChange : TaskId → WorklogId → Instant → SetActiveTaskOutcome → Tracker → Type 0
IsChange task_id id at (started w) tracker = Runs tracker id task_id at × (w ≡ begun id task_id at)
IsChange task_id id at (switched s w) tracker =
    Runs tracker id task_id at × (w ≡ begun id task_id at) × (s.end ≡ some at) × (s.start < at)
IsChange task_id id at (already_active a) tracker =
    (tracker ≡ running_tracker a) × (a.task_id ≡ task_id)

-- A claim about what a successful command returns and leaves behind.
abbrev pub Holds : {S A : Type 0} → (A → TrackerApplication S → Type 0) → App S A → Type 0
Holds P (ok a, self) = P a self
Holds P (err error, self) = Unit {0}

pub start-ok :
    (state : TrackingState) (task : Task) (id : WorklogId) (at : Instant) (w : Worklog)
    (t : Tracker)
    → start (record { state = state }) task id at ≡ (ok w, t)
    → Runs t id task.id at × (w ≡ begun id task.id at)
unfolding start
start-ok idle task id at w t h = (ground arith, ground arith)
start-ok (running a) task id at w t h = absurd (ground arith)

pub switch-ok :
    (state : TrackingState) (task : Task) (id : WorklogId) (at : Instant) (r : SwitchedWorklogs)
    (t : Tracker)
    → switch (record { state = state }) task id at ≡ (ok r, t)
    → Runs t id task.id at
      × (r.started ≡ begun id task.id at)
      × (r.stopped.end ≡ some at)
      × (r.stopped.start < at)
unfolding switch
switch-ok idle task id at r t h = absurd (ground arith)
switch-ok (running a) task id at r t h = (ground arith, ground arith, ground arith, ground arith)

pub runs_active :
    (state : TrackingState) (a : ActiveWorklog)
    → active (record { state = state }) ≡ some a
    → ◌≡◌ {A = Tracker} (record { state = state }) (running_tracker a)
unfolding active
runs_active idle a e = cc
runs_active (running b) a e = cc

pub find_item-id :
    (id : TaskId) (items : List TaskListItem) (item : TaskListItem)
    → find_item id items ≡ some item
    → item.task.id ≡ id
unfolding find_item
find_item-id id [] item h = cc
find_item-id id (i ∷ items) item h = elim (Bool-cases (i.task.id == id)) [
  | inl e ↦ let same : i ≡ item = ground arith in rw (← same) (==→eq _ _ e)
  | inr e ↦ find_item-id id items item (rw e at h)
]

-- The claims of the steps: a confirmed candidate, and the final tracker.
abbrev pub Candidate :
    {S : Type 0}
    → TaskId
    → WorklogId
    → Instant
    → Tracker × SetActiveTaskOutcome
    → TrackerApplication S
    → Type 0
Candidate task_id id at (candidate, outcome) self = IsChange task_id id at outcome candidate

abbrev pub Final :
    {S : Type 0}
    → TaskId
    → WorklogId
    → Instant
    → SetActiveTaskOutcome
    → TrackerApplication S
    → Type 0
Final task_id id at outcome self = IsChange task_id id at outcome self.tracker
