-- ===== src/Application/Service/Requests/Catalogued.antt =====
-- Histories of the service's commands, and the order of the cached task list.
use time_tracker.Prelude.{List, [], ◌∷◌}
use time_tracker.Application.Repository.{TrackerRepository}
use time_tracker.Application.Service.{TrackerApplication}
use time_tracker.Application.Service.Requests.{
  ServiceRequest, refresh_task_list, refresh_task_catalog, refresh_tracking_resource,
  read_task_item, create_task, rename_task, rename_task_with_expected_name, archive_task,
  unarchive_task, archive_task_with_expected_name, preview_inactive_tasks, archive_inactive_tasks,
  set_active_task, clear_active_task, all_worklogs, worklogs_for_task, move_worklog,
  correct_worklog, delete_completed_worklog, report_totals, task_list_report_totals,
  IsServiceRequest, AreServiceRequests, perform, run,
}
use time_tracker.Application.Service.Requests.Contract.{IsCatalogue}
use time_tracker.Application.Service.Requests.Reload.{Catalogued, refresh-Keeps}
use time_tracker.Application.Service.Requests.TaskCommands.{
  read_task_item-Keeps, refresh_task_catalog-Keeps, refresh_tracking-Keeps, create_task-Keeps,
  rename_task-Keeps, archive_task-Keeps, compare_and_rename-Keeps, compare_and_archive-Keeps,
  unarchive_task-Keeps, preview-Keeps, archive_inactive-Keeps,
}
use time_tracker.Application.Service.Requests.WorklogCommands.{
  all_worklogs-Keeps, worklogs_for_task-Keeps, move_worklog-Keeps, correct_worklog-Keeps,
  delete_worklog-Keeps, report_totals-Keeps, task_list_report-Keeps,
}
use time_tracker.Application.Service.Tracking.Catalogued.{set_active-Keeps, clear_active-Keeps}

module _ {S : Type 0} (repo : TrackerRepository S) (Valid : S → Type 0)
    (laws : IsCatalogue repo Valid) where
  perform-Catalogued :
      (self : TrackerApplication S) (r : ServiceRequest)
      → IsServiceRequest r
      → Catalogued Valid self
      → Catalogued Valid (perform repo self r)
  unfolding perform
  perform-Catalogued self refresh_task_list n h = (refresh-Keeps Valid repo laws).at self h
  perform-Catalogued self refresh_task_catalog n h =
      (refresh_task_catalog-Keeps repo Valid laws).at self h
  perform-Catalogued self refresh_tracking_resource n h =
      (refresh_tracking-Keeps repo Valid laws).at self h
  perform-Catalogued self (read_task_item id) n h =
      (read_task_item-Keeps repo Valid laws id).at self h
  perform-Catalogued self (create_task id name at) n h =
      (create_task-Keeps repo Valid laws id name at n).at self h
  perform-Catalogued self (rename_task id name at) n h =
      (rename_task-Keeps repo Valid laws id name at n).at self h
  perform-Catalogued self (rename_task_with_expected_name id expected name at) n h =
      (compare_and_rename-Keeps repo Valid laws id expected name at n).at self h
  perform-Catalogued self (archive_task id at) n h =
      (archive_task-Keeps repo Valid laws id at).at self h
  perform-Catalogued self (unarchive_task id at) n h =
      (unarchive_task-Keeps repo Valid laws id at).at self h
  perform-Catalogued self (archive_task_with_expected_name id expected at) n h =
      (compare_and_archive-Keeps repo Valid laws id expected at).at self h
  perform-Catalogued self (preview_inactive_tasks as_of period) n h =
      (preview-Keeps repo Valid laws as_of period).at self h
  perform-Catalogued self (archive_inactive_tasks ids as_of period) n h =
      (archive_inactive-Keeps repo Valid laws ids as_of period).at self h
  perform-Catalogued self (set_active_task task_id id expected at) n h =
      (set_active-Keeps repo Valid laws task_id id expected at).at self h
  perform-Catalogued self (clear_active_task expected at) n h =
      (clear_active-Keeps repo Valid laws expected at).at self h
  perform-Catalogued self (all_worklogs after) n h =
      (all_worklogs-Keeps repo Valid laws after).at self h
  perform-Catalogued self (worklogs_for_task task_id after) n h =
      (worklogs_for_task-Keeps repo Valid laws task_id after).at self h
  perform-Catalogued self (move_worklog id source expected destination) n h =
      (move_worklog-Keeps repo Valid laws id source expected destination).at self h
  perform-Catalogued self (correct_worklog id expected replacement at) n h =
      (correct_worklog-Keeps repo Valid laws id expected replacement at).at self h
  perform-Catalogued self (delete_completed_worklog id task_id expected) n h =
      (delete_worklog-Keeps repo Valid laws id task_id expected).at self h
  perform-Catalogued self (report_totals start end now) n h =
      (report_totals-Keeps repo Valid laws start end now).at self h
  perform-Catalogued self (task_list_report_totals start end now) n h =
      (task_list_report-Keeps repo Valid laws start end now).at self h

  pub run-Catalogued :
      (self : TrackerApplication S) (rs : List ServiceRequest)
      → AreServiceRequests rs
      → Catalogued Valid self
      → Catalogued Valid (run repo self rs)
  unfolding run
  run-Catalogued self [] n h = h
  run-Catalogued self (r ∷ rs) (n, ns) h =
      run-Catalogued (perform repo self r) rs ns (perform-Catalogued self r n h)
