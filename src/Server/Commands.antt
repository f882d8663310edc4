-- ===== src/Server/Commands.antt =====
-- The requests that carry a command, of crates/tracker-protocol/src/lib.rs, with the identifiers and
-- names as the texts that a client sent.
use time_tracker.Prelude.{ℕ, Option}
use time_tracker.Prelude.Text.{Text}
use time_tracker.Domain.Values.{Instant}
use time_tracker.Domain.Worklog.{WorklogTimes}
use time_tracker.Remote.Client.{CreateTaskRequest}

pub data TaskChangeRequest : Type 0 where
  rename : Option Text → Text → Instant → Text → TaskChangeRequest
  archive : Option Text → Instant → Text → TaskChangeRequest
  restore : Instant → Text → TaskChangeRequest

pub record ArchiveInactiveTasksRequest : Type 0 where
  pub as_of : Instant
  pub inactive_days : ℕ
  pub request_id : Text

pub record SetTrackingRequest : Type 0 where
  pub task_id : Option Text
  pub worklog_id : Option Text
  pub expected_active : Option Text
  pub occurred_at : Instant
  pub request_id : Text

-- The expected task and times with the destination, or the expected and the corrected times.
pub data WorklogChangeRequest : Type 0 where
  move : Text → WorklogTimes → Text → Text → WorklogChangeRequest
  correct : WorklogTimes → WorklogTimes → Instant → Text → WorklogChangeRequest

pub record DeleteWorklogRequest : Type 0 where
  pub expected_task_id : Text
  pub expected_start : Instant
  pub expected_end : Instant
  pub request_id : Text

-- `TaskChangeRequest::guard`, `WorklogChangeRequest::guard`
abbrev pub change_guard : TaskChangeRequest → Text
change_guard (rename expected name at request_id) = request_id
change_guard (archive expected at request_id) = request_id
change_guard (restore at request_id) = request_id

abbrev pub worklog_guard : WorklogChangeRequest → Text
worklog_guard (move source expected destination request_id) = request_id
worklog_guard (correct expected replacement at request_id) = request_id

-- The routes that carry a command; a text is the identifier in the path.
pub data ServerRequest : Type 0 where
  create_task : CreateTaskRequest → ServerRequest
  change_task : Text → TaskChangeRequest → ServerRequest
  archive_inactive_tasks : ArchiveInactiveTasksRequest → ServerRequest
  set_tracking : SetTrackingRequest → ServerRequest
  change_worklog : Text → WorklogChangeRequest → ServerRequest
  delete_worklog : Text → DeleteWorklogRequest → ServerRequest

abbrev pub guard_of : ServerRequest → Text
guard_of (create_task body) = body.request_id
guard_of (change_task raw request) = change_guard request
guard_of (archive_inactive_tasks request) = request.request_id
guard_of (set_tracking request) = request.request_id
guard_of (change_worklog raw request) = worklog_guard request
guard_of (delete_worklog raw request) = request.request_id
