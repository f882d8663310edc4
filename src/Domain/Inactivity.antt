-- ===== src/Domain/Inactivity.antt =====
-- `InactivityPeriod` of crates/tracker-domain/src/inactivity.rs.
use time_tracker.Prelude.{ℕ, Result, ok, err, ◌==◌, if◌then◌else◌}

pub record InactivityPeriod : Type 0 where
  pub days : ℕ

pub data InactivityPeriodError : Type 0 where
  not_positive : InactivityPeriodError

unfoldable pub new : ℕ → Result InactivityPeriodError InactivityPeriod
new days = if days == 0 then err not_positive else ok (record { days = days })

-- `InactivityPeriod::default`
abbrev pub default_period : InactivityPeriod
default_period = record { days = 14 }
