-- ===== src/Application/Service/Tracking/Contract.antt =====
-- What the tracking commands of the service rely on, and what they promise of the stored state.
use mathlib.Core.Option
use time_tracker.Prelude.{◌≡◌, refl, Option, none, some, List, ok, Option-cases, arith, inl, inr}
use time_tracker.Domain.Values.{TaskId, WorklogId, Instant}
use time_tracker.Domain.Worklog.{Worklog}
use time_tracker.Domain.ActiveWorklog.{to_worklog}
use time_tracker.Domain.Tracking.{Tracker, active, resume}
use time_tracker.Application.Timestamps.{canonical_timestamp}
use time_tracker.Application.Model.{TaskListItem}
use time_tracker.Application.Repository.{TrackerRepository}
use time_tracker.Application.Service.{TrackerApplication, tracker_from_active_worklog}
use time_tracker.Application.Service.Tracking.{SetActiveTaskOutcome}
use time_tracker.Application.Service.Tracking.Change.{Runs, begun}

-- What the service relies on: `Stores s w` says that `w` is the active worklog of the state.
pub record IsTracking {S : Type 0} (repo : TrackerRepository S)
    (Stores : S → Option Worklog → Type 0) : Type 0 where
  pub loads :
      (s s' : S) (items : List TaskListItem) (worklog : Option Worklog)
      → repo.load_task_tracking_resources s ≡ (ok (items, worklog), s')
      → Stores s' worklog
  pub inserts :
      (s s' : S) (id : WorklogId) (task_id : TaskId) (at : Instant)
      → repo.insert_worklog (begun id task_id (canonical_timestamp at)) s ≡ (ok tt, s')
      → Stores s' (some (begun id task_id (canonical_timestamp at)))
  pub switches :
      (s s' : S) (old : WorklogId) (old_start stop_at : Instant) (id : WorklogId) (task_id : TaskId)
      (at : Instant)
      → repo.switch_worklog old old_start stop_at (begun id task_id (canonical_timestamp at)) s
        ≡ (ok tt, s')
      → Stores s' (some (begun id task_id (canonical_timestamp at)))

abbrev pub tracked : Tracker → Option Worklog
tracked tracker = Option.map to_worklog (active tracker)

pub resumed :
    (worklog : Option Worklog) (t : Tracker)
    → tracker_from_active_worklog worklog ≡ ok t
    → tracked t ≡ worklog
unfolding tracker_from_active_worklog resume active to_worklog
resumed none t h = ground arith
resumed (some w) t h = elim (Option-cases w.end) [
  | inl e ↦ ground arith
  | inr (end, e) ↦ absurd (ground arith)
]

pub Runs-tracked :
    (t : Tracker) (id : WorklogId) (task_id : TaskId) (at : Instant)
    → Runs t id task_id at
    → tracked t ≡ some (begun id task_id at)
unfolding active to_worklog
Runs-tracked t id task_id at h = rw h refl

-- The claims of the steps: the candidate is stored, and the cached tracker is.
abbrev pub Stored :
    {S : Type 0}
    → (S → Option Worklog → Type 0)
    → Tracker × SetActiveTaskOutcome
    → TrackerApplication S
    → Type 0
Stored Stores (candidate, outcome) self = Stores self.repository (tracked candidate)

-- The state that a successful command leaves is the one that the cached tracker was read from or
-- written to.
abbrev pub Mirrors :
    {S A : Type 0} → (S → Option Worklog → Type 0) → A → TrackerApplication S → Type 0
Mirrors Stores a self = Stores self.repository (tracked self.tracker)
