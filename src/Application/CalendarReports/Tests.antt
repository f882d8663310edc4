-- ===== src/Application/CalendarReports/Tests.antt =====
-- The start of a day in a zone with a gap.
use time_tracker.Prelude.{ℕ, ◌≡◌, refl, some, ok, ltb, if◌then◌else◌, arith}
use time_tracker.Application.CalendarReports.{
  LocalResult, nonexistent, single, day_start, search, backtrack,
}
use time_tracker.Application.CalendarReports.DayStart.{IsStart, day_start_lem}

-- The first local times of the second day do not exist, up to a second inside a minute.
abbrev zone : ℕ → LocalResult
zone local = if ltb local 86_530 then nonexistent else single local

found : day_start zone 10 1 ≡ some (ok 86_530)
unfolding day_start search backtrack
found = refl

start_example : IsStart zone 1 (day_start zone 10 1)
start_example = day_start_lem zone 1 10 (omega arith)
