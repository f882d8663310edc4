-- ===== src/Application/Service/Requests.antt =====
-- The commands that a client gives to `TrackerApplication`, and histories of them. A command that
-- fails leaves what it left behind.
pub mod Contract
pub mod Reload
pub mod TaskCommands
pub mod WorklogCommands
pub mod Catalogued
use time_tracker.Prelude.{Option, List, [], ◌∷◌}
use time_tracker.Domain.Values.{TaskId, WorklogId, Instant}
use time_tracker.Domain.TaskName.{TaskName}
use time_tracker.Domain.TaskName.Accepted.{IsName}
use time_tracker.Domain.Worklog.{WorklogTimes}
use time_tracker.Domain.Inactivity.{InactivityPeriod}
use time_tracker.Application.Model.{WorklogCursor}
use time_tracker.Application.Repository.{TrackerRepository}
use time_tracker.Application.Service.{TrackerApplication}
use time_tracker.Application.Service
use time_tracker.Application.Service.Tracking
use time_tracker.Application.Service.Tasks
use time_tracker.Application.Service.Worklogs

pub data ServiceRequest : Type 0 where
  refresh_task_list refresh_task_catalog refresh_tracking_resource : ServiceRequest
  read_task_item : TaskId → ServiceRequest
  create_task : TaskId → TaskName → Instant → ServiceRequest
  rename_task : TaskId → TaskName → Instant → ServiceRequest
  rename_task_with_expected_name : TaskId → TaskName → TaskName → Instant → ServiceRequest
  archive_task unarchive_task : TaskId → Instant → ServiceRequest
  archive_task_with_expected_name : TaskId → TaskName → Instant → ServiceRequest
  preview_inactive_tasks : Instant → InactivityPeriod → ServiceRequest
  archive_inactive_tasks : List TaskId → Instant → InactivityPeriod → ServiceRequest
  set_active_task : TaskId → WorklogId → Option (Option WorklogId) → Instant → ServiceRequest
  clear_active_task : WorklogId → Instant → ServiceRequest
  all_worklogs : Option WorklogCursor → ServiceRequest
  worklogs_for_task : TaskId → Option WorklogCursor → ServiceRequest
  move_worklog : WorklogId → TaskId → WorklogTimes → TaskId → ServiceRequest
  correct_worklog : WorklogId → WorklogTimes → WorklogTimes → Instant → ServiceRequest
  delete_completed_worklog : WorklogId → TaskId → WorklogTimes → ServiceRequest
  report_totals task_list_report_totals : Instant → Instant → Instant → ServiceRequest

-- What the types of the domain guarantee of a command's arguments: names are valid.
abbrev pub IsServiceRequest : ServiceRequest → Type 0
IsServiceRequest (create_task id name at) = IsName name
IsServiceRequest (rename_task id name at) = IsName name
IsServiceRequest (rename_task_with_expected_name id expected name at) = IsName name
IsServiceRequest _ = Unit {0}

abbrev pub AreServiceRequests : List ServiceRequest → Type 0
AreServiceRequests [] = Unit {0}
AreServiceRequests (r ∷ rs) = IsServiceRequest r × AreServiceRequests rs

module _ {S : Type 0} (repo : TrackerRepository S) where
  unfoldable pub perform : TrackerApplication S → ServiceRequest → TrackerApplication S
  unfolding Service.refresh_task_list Tasks.refresh_task_catalog Tasks.refresh_tracking_resource
      Tasks.read_task_item Tasks.create_task_with_id Tasks.rename_task
      Tasks.rename_task_with_expected_name Tasks.archive_task Tasks.unarchive_task
      Tasks.archive_task_with_expected_name Tasks.preview_inactive_tasks_with_period
      Tasks.archive_inactive_tasks_with_period Tracking.set_active_task_guarded
      Tracking.clear_active_task Worklogs.all_worklogs Worklogs.worklogs_for_task
      Worklogs.move_worklog Worklogs.correct_worklog Worklogs.delete_completed_worklog
      Worklogs.report_totals Worklogs.task_list_report_totals
  perform self refresh_task_list = (Service.refresh_task_list repo self).1
  perform self refresh_task_catalog = (Tasks.refresh_task_catalog repo self).1
  perform self refresh_tracking_resource = (Tasks.refresh_tracking_resource repo self).1
  perform self (read_task_item id) = (Tasks.read_task_item repo id self).1
  perform self (create_task id name at) = (Tasks.create_task_with_id repo id name at self).1
  perform self (rename_task id name at) = (Tasks.rename_task repo id name at self).1
  perform self (rename_task_with_expected_name id expected name at) =
      (Tasks.rename_task_with_expected_name repo id expected name at self).1
  perform self (archive_task id at) = (Tasks.archive_task repo id at self).1
  perform self (unarchive_task id at) = (Tasks.unarchive_task repo id at self).1
  perform self (archive_task_with_expected_name id expected at) =
      (Tasks.archive_task_with_expected_name repo id expected at self).1
  perform self (preview_inactive_tasks as_of period) =
      (Tasks.preview_inactive_tasks_with_period repo as_of period self).1
  perform self (archive_inactive_tasks ids as_of period) =
      (Tasks.archive_inactive_tasks_with_period repo ids as_of period self).1
  perform self (set_active_task task_id worklog_id expected at) =
      (Tracking.set_active_task_guarded repo self task_id worklog_id expected at).1
  perform self (clear_active_task expected at) =
      (Tracking.clear_active_task repo self expected at).1
  perform self (all_worklogs after) = (Worklogs.all_worklogs repo after self).1
  perform self (worklogs_for_task task_id after) =
      (Worklogs.worklogs_for_task repo task_id after self).1
  perform self (move_worklog id source expected destination) =
      (Worklogs.move_worklog repo id source expected destination self).1
  perform self (correct_worklog id expected replacement at) =
      (Worklogs.correct_worklog repo id expected replacement at self).1
  perform self (delete_completed_worklog id task_id expected) =
      (Worklogs.delete_completed_worklog repo id task_id expected self).1
  perform self (report_totals start end now) = (Worklogs.report_totals repo start end now self).1
  perform self (task_list_report_totals start end now) =
      (Worklogs.task_list_report_totals repo start end now self).1

  unfoldable pub run : TrackerApplication S → List ServiceRequest → TrackerApplication S
  unfolding perform
  run self [] = self
  run self (r ∷ rs) = run (perform self r) rs
