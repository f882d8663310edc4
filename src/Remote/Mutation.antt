-- ===== src/Remote/Mutation.antt =====
-- The answer to a command of crates/tracker-protocol/src/lib.rs.
use time_tracker.Prelude.{ℕ, Bool}
use time_tracker.Prelude.Text.{Text}
use time_tracker.Remote.Protocol.{TaskDto, WorklogDto}

pub data MutationResultDto : Type 0 where
  task : TaskDto → MutationResultDto
  archived_inactive : ℕ → MutationResultDto
  worklog tracking_already_active : WorklogDto → MutationResultDto
  tracking_switched : WorklogDto → WorklogDto → MutationResultDto
  tracking_already_idle : MutationResultDto

pub record MutationDto : Type 0 where
  pub request_id : Text
  pub replayed : Bool
  pub result : MutationResultDto
