-- ===== src/Application/Timestamps.antt =====
-- crates/tracker-application/src/timestamps.rs, with the microsecond counts of
-- crates/tracker-storage/src/sqlite/mapping.rs. An instant counts nanoseconds. The count of a
-- timestamp always fits the range of `from_timestamp_micros`, as the `expect` of
-- `canonical_timestamp` says; a stored count may not, and Storage.Mapping checks it.
use mathlib.Core.Option
use time_tracker.Prelude.{ℕ, ◌*◌, ◌/◌, ◌≡◌, arith}
use time_tracker.Domain.Values.{Instant}
use time_tracker.Domain.Worklog.{WorklogTimes}

unfoldable pub timestamp_to_us : Instant → ℕ
timestamp_to_us time = time / 1000

-- The instant that `from_timestamp_micros` gives for a count in its range.
unfoldable pub instant_of_us : ℕ → Instant
instant_of_us us = us * 1000

unfoldable pub canonical_timestamp : Instant → Instant
unfolding timestamp_to_us instant_of_us
canonical_timestamp timestamp = instant_of_us (timestamp_to_us timestamp)

unfoldable pub canonical_worklog_times : WorklogTimes → WorklogTimes
unfolding canonical_timestamp
canonical_worklog_times times = record {
  start = canonical_timestamp times.start;
  end = Option.map canonical_timestamp times.end;
}

-- Reading back a stored timestamp and storing it again gives the same count.
pub timestamp_to_us-instant_of_us : (us : ℕ) → timestamp_to_us (instant_of_us us) ≡ us
unfolding timestamp_to_us instant_of_us
timestamp_to_us-instant_of_us us = omega arith

-- A canonical timestamp is stored as its original is, and is canonical.
pub timestamp_to_us-canonical :
    (t : Instant) → timestamp_to_us (canonical_timestamp t) ≡ timestamp_to_us t
unfolding canonical_timestamp
timestamp_to_us-canonical t = omega arith
