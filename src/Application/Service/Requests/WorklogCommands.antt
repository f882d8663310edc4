-- ===== src/Application/Service/Requests/WorklogCommands.antt =====
-- The commands on worklogs, and the reports, keep the cached task list in order.
use time_tracker.Prelude.{Bool-cases, inl, inr, Option, none, some, List, [], ◌∷◌, Result, ok, err}
use time_tracker.Domain.Values.{TaskId, WorklogId, Instant}
use time_tracker.Domain.Worklog.{Worklog, WorklogTimes, times_is_active, moved_to, corrected}
use time_tracker.Application.Timestamps.{canonical_timestamp, canonical_worklog_times}
use time_tracker.Application.Model.{
  TaskListItem, ReportRow, WorklogCursor, WorklogPageAdoption, ActiveTrackingRead, WorklogMove,
  WorklogCorrection, WorklogDeletion, TaskListReportRead,
}
use time_tracker.Application.Error.{repository, invalid_worklog_correction, invalid_worklog_move}
use time_tracker.Application.Repository.{RepositoryError, TrackerRepository}
use time_tracker.Application.Service.Command.{Command, pure, query, from_result, ◌>>=◌, ◌>>◌}
use time_tracker.Application.Service.Command.Keeps.{
  Keeps, Keeps-pure, Keeps-fail, Keeps-from_result, Keeps-bind, Keeps-read,
}
use time_tracker.Application.Service.Catalog.{
  replace_task, adopt_task_items, adopt_worklog_page, adopt_tracking_read, adopt_worklog_move,
  adopt_worklog_correction, adopt_worklog_deletion, recover_after_worklog_correction,
  recover_after_worklog_move, recover_after_worklog_deletion,
}
use time_tracker.Application.Service.Catalog.Order.{
  IsCatalog, replace_task-IsCatalog, adopt_task_items-IsCatalog,
}
use time_tracker.Application.Service.Worklogs.{
  report_error, replace_reported, all_worklogs, worklogs_for_task, reviewed, move_worklog,
  correct_worklog, delete_completed_worklog, report_totals, task_list_report_totals,
}
use time_tracker.Application.Service.Requests.Contract.{Lists, IsCatalogue}
use time_tracker.Application.Service.Requests.Reload.{
  Catalogued, update-Keeps, query-Keeps, read-Keeps, page-Keeps, move-Keeps, correction-Keeps,
  deletion-Keeps, resources-Keeps, recover-Keeps,
}
use time_tracker.Application.Service.Requests.TaskCommands.{call-Keeps}

reported-IsCatalog :
    (rows : List ReportRow) (items : List TaskListItem)
    → IsCatalog items
    → IsCatalog (replace_reported rows items)
unfolding replace_reported
reported-IsCatalog [] items c = c
reported-IsCatalog (row ∷ rows) items c =
    reported-IsCatalog rows (replace_task row.task items) (replace_task-IsCatalog row.task items c)

module _ {S : Type 0} (repo : TrackerRepository S) (Valid : S → Type 0)
    (laws : IsCatalogue repo Valid) where
  pub all_worklogs-Keeps :
      (after : Option WorklogCursor) → Keeps (Catalogued Valid) (all_worklogs repo after)
  unfolding all_worklogs
  all_worklogs-Keeps after = call-Keeps repo Valid laws _ _ (laws.global_worklog_page after) λ r.
      Keeps-bind (Catalogued Valid) _ _ (Keeps-from_result (Catalogued Valid) repository r) λ page.
        Keeps-bind (Catalogued Valid) _ _ (tracking page.tracking) λ _.
          Keeps-bind (Catalogued Valid) _ _
            (update-Keeps Valid (adopt_task_items page.task_items)
              (adopt_task_items-IsCatalog page.task_items))
            λ _. Keeps-pure (Catalogued Valid) page
    where
      tracking :
          (o : Option ActiveTrackingRead)
          → Keeps (Catalogued Valid) (elim o as (λ _. Command S (Unit {0})) [
            | none ↦ pure tt
            | some read ↦ adopt_tracking_read read
          ])
      tracking none = Keeps-pure (Catalogued Valid) tt
      tracking (some read) = read-Keeps Valid read

  pub worklogs_for_task-Keeps :
      (task_id : TaskId) (after : Option WorklogCursor)
      → Keeps (Catalogued Valid) (worklogs_for_task repo task_id after)
  unfolding worklogs_for_task
  worklogs_for_task-Keeps task_id after =
      call-Keeps repo Valid laws _ _ (laws.worklog_page task_id after) λ r.
        Keeps-bind (Catalogued Valid) _ _ (Keeps-from_result (Catalogued Valid) repository r)
          λ page.
            Keeps-bind (Catalogued Valid) _ _ (adopted page.adoption)
              λ _. Keeps-pure (Catalogued Valid) page
    where
      adopted :
          (o : Option WorklogPageAdoption)
          → Keeps (Catalogued Valid) (elim o as (λ _. Command S (Unit {0})) [
            | none ↦ pure tt
            | some adoption ↦ adopt_worklog_page task_id adoption
          ])
      adopted none = Keeps-pure (Catalogued Valid) tt
      adopted (some adoption) = page-Keeps Valid task_id adoption

  moved-Keeps :
      (source : TaskId) (r : Result RepositoryError WorklogMove)
      → Keeps (Catalogued Valid) (elim r as (λ _. Command S Worklog) [
        | ok movement ↦ adopt_worklog_move source movement
        | err error ↦ recover_after_worklog_move repo error
      ])
  moved-Keeps source (ok movement) = move-Keeps Valid source movement
  moved-Keeps source (err error) = recover-Keeps Valid repo laws _ _ error

  pub move_worklog-Keeps :
      (id : WorklogId) (source : TaskId) (expected : WorklogTimes) (destination : TaskId)
      → Keeps (Catalogued Valid) (move_worklog repo id source expected destination)
  unfolding move_worklog
  move_worklog-Keeps id source expected destination =
      call-Keeps repo Valid laws _ _ (laws.find_worklog id)
        λ found. review (reviewed repo id _ found)
    where
      review :
          (r : Result RepositoryError Worklog)
          → Keeps (Catalogued Valid) (elim r as (λ _. Command S Worklog) [
            | err error ↦ recover_after_worklog_move repo error
            | ok current ↦ do
              from_result invalid_worklog_move (moved_to current destination)
              written ← query (
                  repo.compare_and_move_worklog id source
                    (canonical_worklog_times expected)
                    destination)
              elim written [
                | ok movement ↦ adopt_worklog_move source movement
                | err error ↦ recover_after_worklog_move repo error
              ]
          ])
      review (err error) = recover-Keeps Valid repo laws _ _ error
      review (ok current) =
          Keeps-bind (Catalogued Valid) _ _
            (Keeps-from_result (Catalogued Valid) invalid_worklog_move _)
            λ _.
              call-Keeps repo Valid laws _ _
                (laws.compare_and_move_worklog id source (canonical_worklog_times expected)
                  destination)
                (moved-Keeps source)

  corrected-Keeps :
      (r : Result RepositoryError WorklogCorrection)
      → Keeps (Catalogued Valid) (elim r as (λ _. Command S Worklog) [
        | ok correction ↦ adopt_worklog_correction correction
        | err error ↦ recover_after_worklog_correction repo error
      ])
  corrected-Keeps (ok correction) = correction-Keeps Valid correction
  corrected-Keeps (err error) = recover-Keeps Valid repo laws _ _ error

  pub correct_worklog-Keeps :
      (id : WorklogId) (expected replacement : WorklogTimes) (at : Instant)
      → Keeps (Catalogued Valid) (correct_worklog repo id expected replacement at)
  unfolding correct_worklog
  correct_worklog-Keeps id expected replacement at =
      call-Keeps repo Valid laws _ _ (laws.find_worklog id)
        λ found. review (reviewed repo id _ found)
    where
      review :
          (r : Result RepositoryError Worklog)
          → Keeps (Catalogued Valid) (elim r as (λ _. Command S Worklog) [
            | err error ↦ recover_after_worklog_correction repo error
            | ok current ↦ do
              from_result invalid_worklog_correction
                  (corrected current (canonical_worklog_times replacement) (canonical_timestamp at))
              written ← query (
                  repo.compare_and_set_worklog_times id
                    (canonical_worklog_times expected)
                    (canonical_worklog_times replacement))
              elim written [
                | ok correction ↦ adopt_worklog_correction correction
                | err error ↦ recover_after_worklog_correction repo error
              ]
          ])
      review (err error) = recover-Keeps Valid repo laws _ _ error
      review (ok current) =
          Keeps-bind (Catalogued Valid) _ _
            (Keeps-from_result (Catalogued Valid) invalid_worklog_correction _)
            λ _.
              call-Keeps repo Valid laws _ _
                (laws.compare_and_set_worklog_times id (canonical_worklog_times expected)
                  (canonical_worklog_times replacement))
                corrected-Keeps

  deleted-Keeps :
      (r : Result RepositoryError WorklogDeletion)
      → Keeps (Catalogued Valid) (elim r as (λ _. Command S Worklog) [
        | ok deletion ↦ adopt_worklog_deletion deletion
        | err error ↦ recover_after_worklog_deletion repo error
      ])
  deleted-Keeps (ok deletion) = deletion-Keeps Valid deletion
  deleted-Keeps (err error) = recover-Keeps Valid repo laws _ _ error

  pub delete_worklog-Keeps :
      (id : WorklogId) (task_id : TaskId) (expected : WorklogTimes)
      → Keeps (Catalogued Valid) (delete_completed_worklog repo id task_id expected)
  unfolding delete_completed_worklog
  delete_worklog-Keeps id task_id expected =
      elim (Bool-cases (times_is_active (canonical_worklog_times expected))) [
        | inl e ↦ rw e (Keeps-fail (Catalogued Valid) _)
        | inr e ↦ rw e (
            call-Keeps repo Valid laws _ _
              (laws.compare_and_delete_completed_worklog id task_id
                (canonical_worklog_times expected))
              deleted-Keeps)
      ]

  pub report_totals-Keeps :
      (start end now : Instant) → Keeps (Catalogued Valid) (report_totals repo start end now)
  unfolding report_totals
  report_totals-Keeps start end now =
      Keeps-bind (Catalogued Valid) _ _ (Keeps-from_result (Catalogued Valid) _ _) λ _.
        call-Keeps repo Valid laws _ _
          (laws.report_read (canonical_timestamp start) (canonical_timestamp end)
            (canonical_timestamp now))
          λ r.
            Keeps-bind (Catalogued Valid) _ _ (Keeps-from_result (Catalogued Valid) report_error r)
              λ read.
                Keeps-bind (Catalogued Valid) _ _ (Keeps-from_result (Catalogued Valid) _ _)
                  λ totals. Keeps-bind (Catalogued Valid) _ _ (read-Keeps Valid read.tracking) λ _.
                    Keeps-bind (Catalogued Valid) _ _
                      (update-Keeps Valid (replace_reported totals.rows)
                        (reported-IsCatalog totals.rows))
                      λ _. Keeps-pure (Catalogued Valid) totals

  pub task_list_report-Keeps :
      (start end now : Instant)
      → Keeps (Catalogued Valid) (task_list_report_totals repo start end now)
  unfolding task_list_report_totals
  task_list_report-Keeps start end now =
      Keeps-bind (Catalogued Valid) _ _ (Keeps-from_result (Catalogued Valid) _ _) λ _.
        Keeps-read (Catalogued Valid) (λ (r : TaskListReportRead). Lists r.items) report_error
          (repo.task_list_report_read (canonical_timestamp start) (canonical_timestamp end)
            (canonical_timestamp now))
          _
          (query-Keeps Valid
            (repo.task_list_report_read (canonical_timestamp start) (canonical_timestamp end)
              (canonical_timestamp now))
            (laws.task_list_report_read (canonical_timestamp start) (canonical_timestamp end)
              (canonical_timestamp now)))
          (λ self h.
            laws.report_lists (canonical_timestamp start) (canonical_timestamp end)
              (canonical_timestamp now) self.repository h.0)
          λ read d.
            Keeps-bind (Catalogued Valid) _ _ (Keeps-from_result (Catalogued Valid) _ _) λ totals.
              Keeps-bind (Catalogued Valid) _ _
                (resources-Keeps Valid repo read.items read.active_worklog d)
                λ _. Keeps-pure (Catalogued Valid) totals
