-- ===== src/Domain/Tests.antt =====
-- Runs of the domain rules on concrete values.
use time_tracker.Prelude.{
  ℕ, ◌≤◌, ◌≡◌, refl, ◌↔◌, ◌⊎◌, true, false, none, some, List, [], ◌∷◌, arith, ok, err,
}
use time_tracker.Domain.Values.{Instant}
use time_tracker.Domain.TrackingError.{TrackingError}
use time_tracker.Domain.TaskName.{TaskName, trim}
use time_tracker.Domain.TaskName
use time_tracker.Domain.TaskName.Accepted.{IsName, new-IsName, new-Verdict, Verdict}
use time_tracker.Domain.Task.{Task}
use time_tracker.Domain.Task.Timestamps.{
  IsEffect, Change, renames, archives, restores, change, history, change-IsEffect, history_monotone,
}
use time_tracker.Domain.Worklog.{Worklog, WorklogTimes, overlaps, corrected}
use time_tracker.Domain.Worklog
use time_tracker.Domain.Worklog.Overlap.{Covers, IsPositive, new-IsPositive, overlaps_iff}
use time_tracker.Domain.Worklog.Correction.{IsCorrection, corrected_iff}
use time_tracker.Domain.ActiveWorklog.{ActiveWorklog}
use time_tracker.Domain.Tracking.{SwitchedWorklogs, running_tracker, switch, start}
use time_tracker.Domain.Tracking
use time_tracker.Domain.Tracking.Commands.{switch-eq-stop_start}

-- " Build a\t"
abbrev pub raw_build : List ℕ
raw_build = 32 ∷ 66 ∷ 117 ∷ 105 ∷ 108 ∷ 100 ∷ 32 ∷ 97 ∷ 9 ∷ []

abbrev pub build : TaskName
build = record { text = 66 ∷ 117 ∷ 105 ∷ 108 ∷ 100 ∷ 32 ∷ 97 ∷ [] }

abbrev pub review : TaskName
review = record { text = 82 ∷ [] }

accepted : TaskName.new raw_build ≡ ok build
unfolding TaskName.new trim TaskName.is_whitespace TaskName.is_control
accepted = refl

pub build-IsName : IsName build
build-IsName = (new-IsName raw_build build accepted).0

verdict_example : Verdict (trim raw_build) (TaskName.new raw_build)
verdict_example = new-Verdict raw_build

abbrev pub task : Task
task = record { id = 1; name = build; archived = false; created_at = 10; updated_at = 10 }

abbrev changes : List Change
changes = renames review 40 ∷ archives 20 ∷ restores 60 ∷ []

monotone_example :
    (10 ≤ (history task changes).updated_at)
    × ((history task changes).created_at ≡ 10)
    × ((history task changes).created_at ≤ (history task changes).updated_at)
monotone_example = history_monotone task changes (omega arith)

archived_example :
    IsEffect task (archives 20) (change task (archives 20)).0 (change task (archives 20)).1
archived_example = change-IsEffect task (archives 20)

abbrev morning : Worklog
morning = record { id = 1; task_id = 1; start = 100; end = some 200 }

abbrev noon : Worklog
noon = record { id = 2; task_id = 1; start = 150; end = none }

overlaps_example :
    (overlaps morning noon ≡ true)
    ↔ ((morning.task_id ≡ noon.task_id) × ((t : Instant) × Covers morning t × Covers noon t))
overlaps_example = overlaps_iff morning noon (omega arith) tt

made : Worklog.new 1 1 100 (some 200) ≡ ok morning
unfolding Worklog.new
made = refl

positive_example :
    IsPositive morning × (morning ≡ record { id = 1; task_id = 1; start = 100; end = some 200 })
positive_example = new-IsPositive 1 1 100 (some 200) morning made

abbrev later : WorklogTimes
later = record { start = 120; end = some 180 }

retimed_example :
    (corrected morning later 300 ≡ ok (record morning { start = 120; end = some 180 })) ↔ (
      IsCorrection morning later 300
      × (record morning { start = 120; end = some 180 }
          ≡ record morning { start = later.start; end = later.end }))
retimed_example = corrected_iff morning later 300 (record morning { start = 120; end = some 180 })

abbrev current : ActiveWorklog
current = record { id = 3; task_id = 2; start = 50 }

switch_example :
    let tracker = running_tracker current in
    ((result : SwitchedWorklogs) × ((switch tracker task 4 90).0 ≡ ok result)
      × ((Tracking.stop tracker 90).0 ≡ ok result.stopped)
      × ((start (Tracking.stop tracker 90).1 task 4 90).0 ≡ ok result.started)
      × ((switch tracker task 4 90).1 ≡ (start (Tracking.stop tracker 90).1 task 4 90).1))
    ⊎ ((error : TrackingError) × ((switch tracker task 4 90).0 ≡ err error)
        × (((stop_error : TrackingError) × ((Tracking.stop tracker 90).0 ≡ err stop_error))
            ⊎ ((start (Tracking.stop tracker 90).1 task 4 90).0 ≡ err error))
        × ((switch tracker task 4 90).1 ≡ tracker))
switch_example = switch-eq-stop_start current task 4 90 (λ e. ground arith)
