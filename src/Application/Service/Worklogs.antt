-- ===== src/Application/Service/Worklogs.antt =====
-- crates/tracker-application/src/service/worklogs.rs and service/reports.rs: the queries and
-- commands on worklogs, and the reports.
use time_tracker.Prelude.{
  Bool, false, Option, none, some, List, [], ◌∷◌, Result, ok, err, ◌==◌, if◌then◌else◌,
}
use time_tracker.Domain.Values.{TaskId, WorklogId, Instant}
use time_tracker.Domain.Worklog.{
  Worklog, WorklogTimes, times, times_eq, times_is_active, moved_to, corrected,
}
use time_tracker.Application.Timestamps.{canonical_timestamp, canonical_worklog_times}
use time_tracker.Application.Model.{
  TaskListItem, WorklogCursor, WorklogPage, GlobalWorklogPage, ReportRow, ReportTotals,
}
use time_tracker.Application.Error.{
  ApplicationError, repository, invalid_worklog_correction, invalid_worklog_move,
  worklog_deletion_write,
}
use time_tracker.Application.Repository.{
  RepositoryError, worklog_not_found, worklog_changed, worklog_is_active, TrackerRepository,
}
use time_tracker.Application.Repository
use time_tracker.Application.ReportTotals.{validate_range, totals_from_rows}
use time_tracker.Application.Service.{adopt_task_tracking_resources}
use time_tracker.Application.Service.Command.{Command, pure, fail, ◌>>=◌, ◌>>◌, from_result, query}
use time_tracker.Application.Service.Catalog.{
  replace_task, adopt_task_items, update_tasks, adopt_worklog_page, adopt_tracking_read,
  adopt_worklog_move, adopt_worklog_correction, adopt_worklog_deletion,
  recover_after_worklog_correction, recover_after_worklog_move, recover_after_worklog_deletion,
}

unfoldable pub report_error : RepositoryError → ApplicationError
report_error Repository.report_duration_overflow = ApplicationError.report_duration_overflow
report_error other = repository other

-- `replace_task` for the task of each row.
unfoldable pub replace_reported : List ReportRow → List TaskListItem → List TaskListItem
unfolding replace_task
replace_reported [] items = items
replace_reported (row ∷ rows) items = replace_reported rows (replace_task row.task items)

module _ {S : Type 0} (repo : TrackerRepository S) where
  unfoldable pub all_worklogs : Option WorklogCursor → Command S GlobalWorklogPage
  unfolding adopt_tracking_read adopt_task_items
  all_worklogs after = do
    read ← query (repo.global_worklog_page after)
    page ← from_result repository read
    elim page.tracking [ none ↦ pure tt | some tracking ↦ adopt_tracking_read tracking ]
    update_tasks (adopt_task_items page.task_items)
    pure page

  unfoldable pub worklogs_for_task : TaskId → Option WorklogCursor → Command S WorklogPage
  unfolding adopt_worklog_page
  worklogs_for_task task_id after = do
    read ← query (repo.worklog_page task_id after)
    page ← from_result repository read
    elim page.adoption [ none ↦ pure tt | some adoption ↦ adopt_worklog_page task_id adoption ]
    pure page

  -- The stored worklog that the caller reviewed, or the reason why there is none.
  unfoldable pub reviewed :
      WorklogId
      → (Worklog → Bool)
      → Result RepositoryError (Option Worklog)
      → Result RepositoryError Worklog
  reviewed id unchanged (ok (some current)) =
      if unchanged current then ok current else err (worklog_changed id)
  reviewed id unchanged (ok none) = err (worklog_not_found id)
  reviewed id unchanged (err error) = err error

  unfoldable pub move_worklog : WorklogId → TaskId → WorklogTimes → TaskId → Command S Worklog
  unfolding canonical_worklog_times times times_eq moved_to reviewed adopt_worklog_move
  move_worklog id expected_source_task_id expected_times destination_task_id =
      let expected = canonical_worklog_times expected_times in
      do
        found ← query (repo.find_worklog id)
        elim (reviewed id
            (λ current.
              if current.task_id == expected_source_task_id
              then times_eq (times current) expected
              else false)
            found) [
              | err error ↦ recover_after_worklog_move repo error
              | ok current ↦ do
                from_result invalid_worklog_move (moved_to current destination_task_id)
                written ← query (
                    repo.compare_and_move_worklog id expected_source_task_id expected
                      destination_task_id)
                elim written [
                  | ok movement ↦ adopt_worklog_move expected_source_task_id movement
                  | err error ↦ recover_after_worklog_move repo error
                ]
            ]

  unfoldable pub correct_worklog :
      WorklogId → WorklogTimes → WorklogTimes → Instant → Command S Worklog
  unfolding canonical_worklog_times canonical_timestamp times times_eq corrected reviewed
      adopt_worklog_correction
  correct_worklog id expected_times replacement_times occurred_at =
      let expected = canonical_worklog_times expected_times in
      let replacement = canonical_worklog_times replacement_times in
      do
        found ← query (repo.find_worklog id)
        elim (reviewed id (λ current. times_eq (times current) expected) found) [
          | err error ↦ recover_after_worklog_correction repo error
          | ok current ↦ do
            from_result invalid_worklog_correction
                (corrected current replacement (canonical_timestamp occurred_at))
            written ← query (repo.compare_and_set_worklog_times id expected replacement)
            elim written [
              | ok correction ↦ adopt_worklog_correction correction
              | err error ↦ recover_after_worklog_correction repo error
            ]
        ]

  unfoldable pub delete_completed_worklog : WorklogId → TaskId → WorklogTimes → Command S Worklog
  unfolding canonical_worklog_times times_is_active adopt_worklog_deletion
  delete_completed_worklog id expected_task_id expected_times =
      let expected = canonical_worklog_times expected_times in
      if times_is_active expected then fail (worklog_deletion_write (worklog_is_active id)) else do
        written ← query (repo.compare_and_delete_completed_worklog id expected_task_id expected)
        elim written [
          | ok deletion ↦ adopt_worklog_deletion deletion
          | err error ↦ recover_after_worklog_deletion repo error
        ]

  unfoldable pub report_totals : Instant → Instant → Instant → Command S ReportTotals
  unfolding canonical_timestamp validate_range totals_from_rows adopt_tracking_read replace_reported
      report_error
  report_totals start_at end_at now_at =
      let start = canonical_timestamp start_at in
      let end = canonical_timestamp end_at in
      do
        from_result (λ error. error) (validate_range start end)
        found ← query (repo.report_read start end (canonical_timestamp now_at))
        read ← from_result report_error found
        totals ← from_result (λ error. error) (totals_from_rows read.rows)
        adopt_tracking_read read.tracking
        update_tasks (replace_reported totals.rows)
        pure totals

  unfoldable pub task_list_report_totals : Instant → Instant → Instant → Command S ReportTotals
  unfolding canonical_timestamp validate_range totals_from_rows adopt_task_tracking_resources
      report_error
  task_list_report_totals start_at end_at now_at =
      let start = canonical_timestamp start_at in
      let end = canonical_timestamp end_at in
      do
        from_result (λ error. error) (validate_range start end)
        found ← query (repo.task_list_report_read start end (canonical_timestamp now_at))
        read ← from_result report_error found
        totals ← from_result (λ error. error) (totals_from_rows read.rows)
        (λ self. adopt_task_tracking_resources repo self read.items read.active_worklog)
        pure totals
