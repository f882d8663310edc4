-- ===== src/Domain/Worklog/Overlap.antt =====
-- `overlaps` against the instants that two worklogs cover.
use Prim.Native.Nat.{max}
use time_tracker.Prelude.{◌≤◌, ◌<◌, ◌≡◌, ◌↔◌, true, Option, none, some, arith, ok}
use time_tracker.Domain.Values.{Instant, TaskId, WorklogId}
use time_tracker.Domain.Worklog.{Worklog, new, overlaps}

-- The end, if there is one, comes after the instant.
abbrev pub EndsAfter : Instant → Option Instant → Type 0
EndsAfter t none = Unit {0}
EndsAfter t (some end) = t < end

-- What `Worklog::new` guarantees: a completed worklog ends after it starts.
abbrev pub IsPositive : Worklog → Type 0
IsPositive w = EndsAfter w.start w.end

-- The half-open interval of a worklog; an active one has no upper end.
abbrev pub Covers : Worklog → Instant → Type 0
Covers w t = (w.start ≤ t) × EndsAfter t w.end

-- A worklog that is accepted has exactly the given values, and if it is completed, it ends after it
-- starts.
pub new-IsPositive :
    (id : WorklogId) (task_id : TaskId) (start : Instant) (end : Option Instant) (w : Worklog)
    → new id task_id start end ≡ ok w
    → IsPositive w × (w ≡ record { id = id; task_id = task_id; start = start; end = end })
unfolding new
new-IsPositive id task_id start none w h = ground arith
new-IsPositive id task_id start (some end) w h = ground arith

pub new_of_IsPositive : (w : Worklog) → IsPositive w → new w.id w.task_id w.start w.end ≡ ok w
unfolding new
new_of_IsPositive w h = ground arith

-- Overlapping is symmetric.
pub overlaps_comm : (v w : Worklog) → overlaps v w ≡ overlaps w v
unfolding overlaps
overlaps_comm v w = ground arith

abbrev Shared : Worklog → Worklog → Type 0
Shared v w = (v.task_id ≡ w.task_id) × ((t : Instant) × Covers v t × Covers w t)

Shared-of_overlaps :
    (v w : Worklog) → IsPositive v → IsPositive w → overlaps v w ≡ true → Shared v w
unfolding overlaps
Shared-of_overlaps v w pv pw h = (ground arith, (max v.start w.start, ground arith, ground arith))

overlaps_of_Shared : (v w : Worklog) → Shared v w → overlaps v w ≡ true
unfolding overlaps
overlaps_of_Shared v w (e, (t, cv, cw)) = ground arith

-- Two worklogs of positive duration overlap exactly if they belong to one task and some instant
-- lies in both half-open intervals.
pub overlaps_iff :
    (v w : Worklog)
    → IsPositive v
    → IsPositive w
    → (overlaps v w ≡ true) ↔ ((v.task_id ≡ w.task_id) × ((t : Instant) × Covers v t × Covers w t))
overlaps_iff v w pv pw = (Shared-of_overlaps v w pv pw, overlaps_of_Shared v w)
