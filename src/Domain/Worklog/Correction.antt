-- ===== src/Domain/Worklog/Correction.antt =====
-- What a correction and a move may change.
use time_tracker.Prelude.{◌≤◌, ◌≡◌, ap, sym, ◌∙◌, ◌↔◌, Option, none, some, arith, ok, is_none}
use time_tracker.Domain.Values.{Instant}
use time_tracker.Domain.Worklog.{WorklogTimes, Worklog, corrected}
use time_tracker.Domain.Worklog.Overlap.{EndsAfter}

abbrev pub EndsBy : Instant → Option Instant → Type 0
EndsBy t none = Unit {0}
EndsBy t (some end) = end ≤ t

-- A correction keeps the worklog active or completed, gives it a positive duration and moves
-- neither boundary past the time of the operation.
abbrev pub IsCorrection : Worklog → WorklogTimes → Instant → Type 0
IsCorrection w replacement occurred_at =
    (is_none w.end ≡ is_none replacement.end)
    × EndsAfter replacement.start replacement.end
    × (replacement.start ≤ occurred_at)
    × EndsBy occurred_at replacement.end

IsCorrection-of_corrected :
    (w : Worklog) (start : Instant) (end : Option Instant) (at : Instant) {c : Worklog}
    → corrected w (record { start = start; end = end }) at ≡ ok c
    → IsCorrection w (record { start = start; end = end }) at
      × (c ≡ record w { start = start; end = end })
unfolding corrected
IsCorrection-of_corrected w start none at h = (ground arith, ground arith)
IsCorrection-of_corrected w start (some end) at h = (ground arith, ground arith)

corrected_of_IsCorrection :
    (w : Worklog) (start : Instant) (end : Option Instant) (at : Instant)
    → IsCorrection w (record { start = start; end = end }) at
    → corrected w (record { start = start; end = end }) at
      ≡ ok (record w { start = start; end = end })
unfolding corrected
corrected_of_IsCorrection w start none at h = ground arith
corrected_of_IsCorrection w start (some end) at h = ground arith

-- A correction succeeds exactly if it keeps the worklog active or completed, gives it a positive
-- duration and moves neither boundary past the time of the operation; it then replaces the two
-- timestamps and nothing else.
pub corrected_iff :
    (w : Worklog) (replacement : WorklogTimes) (occurred_at : Instant) (c : Worklog)
    → (corrected w replacement occurred_at ≡ ok c) ↔ (
        IsCorrection w replacement occurred_at
        × (c ≡ record w { start = replacement.start; end = replacement.end }))
corrected_iff w replacement occurred_at c = (
  IsCorrection-of_corrected w replacement.start replacement.end occurred_at,
  λ h.
      corrected_of_IsCorrection w replacement.start replacement.end occurred_at h.0
      ∙ ap ok (sym h.1),
)
