-- ===== src/Application/CalendarReports.antt =====
-- crates/tracker-application/src/calendar_reports.rs: calendar periods, and the first instant of a
-- local day. Dates count days and local times count seconds, both from the first day that chrono
-- represents. The calendar of chrono and the rules of a time zone are parameters.
pub mod DayStart
pub mod Tests
use time_tracker.Prelude.{
  ℕ, zero, suc, ◌+◌, ◌-◌, ◌*◌, ◌/◌, Bool, true, false, not, Option, none, some, Result, ok, err,
  ◌>>=◌, ◌>>◌, reject, ok_or, ltb, ◌==◌, if◌then◌else◌,
}
use time_tracker.Domain.Values.{Instant}

pub data CalendarPreset : Type 0 where
  today yesterday week month year : CalendarPreset

pub data CalendarRangeError : Type 0 where
  reversed_dates dates_out_of_range missing_day boundary_out_of_range : CalendarRangeError

-- `chrono::LocalResult` of the UTC instant that a local time stands for.
pub data LocalResult : Type 0 where
  nonexistent : LocalResult
  single : Instant → LocalResult
  ambiguous : Instant → Instant → LocalResult

abbrev pub earliest : LocalResult → Option Instant
earliest nonexistent = none
earliest (single at) = some at
earliest (ambiguous first second) = some first

abbrev pub day_seconds : ℕ
day_seconds = 86_400

-- What the presets use of `chrono::NaiveDate`; `none` is a date out of range.
pub record Calendar : Type 0 where
  pub max_date : ℕ
  pub days_from_monday : ℕ → ℕ
  pub year_of : ℕ → ℕ
  pub month_of : ℕ → ℕ
  pub from_ymd : ℕ → ℕ → ℕ → Option ℕ
  pub add_month : ℕ → Option ℕ

-- `?` on an option.
abbrev pub and_then : {A B : Type 0} → Option A → (A → Option B) → Option B
and_then none f = none
and_then (some a) f = f a

module _ (calendar : Calendar) where
  open calendar use {max_date, days_from_monday, year_of, month_of, from_ymd, add_month}

  unfoldable pub succ_opt : ℕ → Option ℕ
  succ_opt date = if ltb date max_date then some (date + 1) else none

  -- Also `checked_sub_signed`.
  unfoldable pub sub_days : ℕ → ℕ → Option ℕ
  sub_days date days = if ltb date days then none else some (date - days)

  unfoldable pub add_days : ℕ → ℕ → Option ℕ
  add_days date days = if ltb max_date (date + days) then none else some (date + days)

  unfoldable pub month_dates : ℕ → Option (ℕ × ℕ)
  unfolding sub_days
  month_dates day =
      and_then (from_ymd (year_of day) (month_of day) 1) λ from.
        and_then (add_month from) λ next. and_then (sub_days next 1) λ last. some (from, last)

  unfoldable pub preset_dates : CalendarPreset → ℕ → Option (ℕ × ℕ)
  unfolding sub_days add_days month_dates
  preset_dates CalendarPreset.today day = some (day, day)
  preset_dates yesterday day = and_then (sub_days day 1) λ before. some (before, before)
  preset_dates week day =
      and_then (sub_days day (days_from_monday day))
        λ from. and_then (add_days from 6) λ to. some (from, to)
  preset_dates month day = month_dates day
  preset_dates year day =
      and_then (from_ymd (year_of day) 1 1)
        λ from. and_then (from_ymd (year_of day) 12 31) λ to. some (from, to)

-- One round for each minute of a day, and one that finds the next day.
abbrev pub minute_rounds : ℕ
minute_rounds = 1_441

module _ (zone : ℕ → LocalResult) where
  -- The seconds before a valid minute, back to the first that exists.
  unfoldable pub backtrack : ℕ → ℕ → ℕ → Instant → Instant
  backtrack zero date local first = first
  backtrack (suc rounds) date local first = elim (local == 0) [
    | true ↦ first
    | false ↦ elim ((local - 1) / day_seconds == date) [
      | false ↦ first
      | true ↦ elim (earliest (zone (local - 1))) [
        | none ↦ first
        | some at ↦ backtrack rounds date (local - 1) at
      ]
    ]
  ]

  -- The loop over the minutes of a gap; `none` means that the fuel ran out.
  unfoldable pub search : ℕ → ℕ → ℕ → ℕ → Option (Result CalendarRangeError Instant)
  unfolding backtrack
  search zero max_local date local = none
  search (suc fuel) max_local date local =
      let later = search fuel max_local date (local + 60) in
      if not (local / day_seconds == date)
      then some (err missing_day)
      else elim (earliest (zone local)) [
        | some first ↦ some (ok (backtrack 59 date local first))
        | none ↦ if ltb max_local (local + 60) then some (err boundary_out_of_range) else later
      ]

  unfoldable pub day_start : ℕ → ℕ → Option (Result CalendarRangeError Instant)
  day_start max_date date =
      search minute_rounds (max_date * day_seconds + 86_399) date (date * day_seconds)

  -- `Ok((start?, end?))`
  unfoldable pub both :
      Option (Result CalendarRangeError Instant)
      → Option (Result CalendarRangeError Instant)
      → Option (Result CalendarRangeError (Instant × Instant))
  both none end = none
  both (some (err error)) end = some (err error)
  both (some (ok start)) none = none
  both (some (ok start)) (some (err error)) = some (err error)
  both (some (ok start)) (some (ok end)) = some (ok (start, end))

  unfoldable pub inclusive_range :
      Calendar → ℕ → ℕ → Option (Result CalendarRangeError (Instant × Instant))
  unfolding succ_opt day_start both
  inclusive_range calendar from to =
      if ltb to from then some (err reversed_dates) else elim (succ_opt calendar to) [
        | none ↦ some (err dates_out_of_range)
        | some next ↦ both (day_start calendar.max_date from) (day_start calendar.max_date next)
      ]
