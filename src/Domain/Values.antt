-- ===== src/Domain/Values.antt =====
-- Identifiers (crates/tracker-domain/src/ids.rs) and instants. An identifier is the 128-bit value
-- of its UUID, whose stored lower-case text has the same order. An instant is a UTC `DateTime` as
-- the number of nanoseconds since 2 ^ 63 microseconds before the epoch, so that its microseconds
-- are the stored `i64` with 2 ^ 63 added, and both orders agree.
use time_tracker.Prelude.{ℕ}

abbrev pub TaskId : Type 0
TaskId = ℕ

abbrev pub WorklogId : Type 0
WorklogId = ℕ

abbrev pub Instant : Type 0
Instant = ℕ
