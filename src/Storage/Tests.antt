-- ===== src/Storage/Tests.antt =====
-- Runs of the repository on a concrete history.
use time_tracker.Prelude.{
  ◌≡◌, refl, subst, inl, inr, sym, false, none, some, List, [], ◌∷◌, ok, err, total_of,
}
use time_tracker.Domain.Tests.{build, build-IsName, task}
use time_tracker.Prelude.Table.{find_row, set_row}
use time_tracker.Domain.TaskName.{trim, is_whitespace, is_control}
use time_tracker.Domain.Worklog.{Worklog}
use time_tracker.Application.Model.{ReportRow}
use time_tracker.Storage.Errors.{Sqlite}
use time_tracker.Storage.Schema.{TaskRow, WorklogRow, Database, overlaps_predecessor, overlaps_scan}
use time_tracker.Storage.Statements.{insert_worklog}
use time_tracker.Storage.Schema.Predecessor.{overlaps_predecessor-eq-scan}
use time_tracker.Storage.Reads.{active_tracking_read_on, worklog_by_id_on}
use time_tracker.Storage.Tracking.{load_task_tracking_resources, insert_worklog_on}
use time_tracker.Storage.Tracking.Refusals.{IsReason, insert_worklog_on-IsReason}
use time_tracker.Storage.Mapping.{
  worklog_row, task_from_row, min_timestamp_us, max_timestamp_us, id_count,
}
use time_tracker.Storage.History.Anchor.{remaining}
use time_tracker.Storage.History.Pages.{all_pages, all_pages-eq}
use time_tracker.Prelude.{◌<◌, length, map, arith}
use time_tracker.Storage.Errors.{StorageError, corrupt_data, timestamp}
use time_tracker.Storage.Mapping.Range.{IsInRange, IsTaskInRange, IsWorklogInRange, worklog_of}
use time_tracker.Storage.Reports.{Interval, report_rows_on}
use time_tracker.Storage.Reports.Conservation.{overlap_us, row_duration, report_rows_on-total}
use time_tracker.Storage.Invariant.{IsConsistent, empty_database}
use time_tracker.Storage.Invariant.Insert.{insert_worklog-IsConsistent}
use time_tracker.Storage.Invariant.Readable.{Reads, reads_succeed}
use time_tracker.Storage.Requests.{Request, creates, inserts, stops, archives, run, perform}
use time_tracker.Application.Timestamps.{timestamp_to_us}
use time_tracker.Storage.Requests.Ranged.{AreStored, run-IsInRange}
use time_tracker.Storage.Requests.Consistent.{AreRequests, run-IsConsistent}

-- SQLite, reporting the first violated constraint.
instance abbrev pub first_reported : Sqlite
first_reported = record { reported = λ e es. e; reported_lem = λ e es. inl refl }

abbrev worklog : Worklog
worklog = record { id = 7; task_id = 1; start = 1_000_000_000_000_000_020_000; end = none }

abbrev requests : List Request
requests =
    creates (record task {
      created_at = 1_000_000_000_000_000_000_000;
      updated_at = 1_000_000_000_000_000_000_000;
    })
    ∷ inserts worklog
    ∷ archives 1 none 1_000_000_000_000_000_030_000
    ∷ stops 7 1_000_000_000_000_000_020_000 1_000_000_000_000_000_090_000
    ∷ inserts (record { id = 8; task_id = 1; start = 1_000_000_000_000_000_040_000; end = none })
    ∷ []

abbrev are_requests : AreRequests requests
are_requests = (build-IsName, (tt, (tt, (tt, (tt, tt)))))

run_example : IsConsistent (run empty_database requests)
run_example = run-IsConsistent requests are_requests

abbrev completed : WorklogRow
completed = record {
  id = 7;
  task_id = 1;
  start_us = 1_000_000_000_000_000_020;
  end_us = some 1_000_000_000_000_000_090;
}

abbrev pub stored : Database
stored = record {
  tasks =
      record {
        id = 1;
        name = build.text;
        archived = false;
        created_at_us = 1_000_000_000_000_000_000;
        updated_at_us = 1_000_000_000_000_000_000;
        history_order_revision = 0;
      }
      ∷ [];
  worklogs = completed ∷ [];
  global_worklog_revision = 2;
}

-- The task is active when it is to be archived, and the second worklog overlaps the first: both
-- requests fail.
ran : run empty_database requests ≡ stored
unfolding run perform find_row set_row trim is_whitespace is_control min_timestamp_us
    max_timestamp_us id_count
ran = refl

stored-IsConsistent : IsConsistent stored
stored-IsConsistent = subst IsConsistent ran run_example

abbrev next : WorklogRow
next = record { id = 9; task_id = 1; start_us = 1_000_000_000_000_000_095; end_us = none }

predecessor_example :
    overlaps_predecessor next (completed ∷ []) ≡ overlaps_scan next (completed ∷ [])
predecessor_example =
    overlaps_predecessor-eq-scan (completed ∷ []) stored-IsConsistent.worklogs_distinct
      stored-IsConsistent.disjoint next

abbrev grown : Database
grown = record stored { worklogs = next ∷ completed ∷ []; global_worklog_revision = 3 }

inserted : insert_worklog stored next ≡ ok grown
unfolding insert_worklog find_row
inserted = refl

insert_example : IsConsistent grown
insert_example = insert_worklog-IsConsistent stored next stored-IsConsistent inserted

stored-IsInRange : IsInRange stored
unfolding min_timestamp_us max_timestamp_us id_count
stored-IsInRange = record {
  tasks = λ row m. elim m [
    | inl e ↦
        subst IsTaskInRange (sym e)
          (record { id = omega arith; created = omega arith; updated = omega arith })
    | inr m ↦ absurd m
  ];
  worklogs = λ row m. elim m [
    | inl e ↦
        subst IsWorklogInRange (sym e) (record {
          id = omega arith;
          task_id = omega arith;
          start = omega arith;
          end = omega arith;
        })
    | inr m ↦ absurd m
  ];
}

stores_values : AreStored requests
unfolding timestamp_to_us min_timestamp_us max_timestamp_us id_count
stores_values = omega arith

ranged_example : IsInRange (run empty_database requests)
ranged_example = run-IsInRange requests stores_values

-- A count that is no timestamp makes the read fail.
abbrev unreadable : TaskRow
unreadable = record {
  id = 1;
  name = build.text;
  archived = false;
  created_at_us = 1_000_000_000_000_000_000;
  updated_at_us = 18_000_000_000_000_000_000;
  history_order_revision = 0;
}

unreadable_task : task_from_row unreadable ≡ err (corrupt_data timestamp)
unfolding task_from_row trim is_whitespace is_control min_timestamp_us max_timestamp_us id_count
unreadable_task = refl

reads_example :
    Reads (load_task_tracking_resources stored)
    × Reads (active_tracking_read_on stored)
    × Reads (worklog_by_id_on stored 7)
reads_example = reads_succeed stored 7 stored-IsConsistent stored-IsInRange

abbrev noon : Interval
noon = record {
  start_us = 1_000_000_000_000_000_030;
  end_us = 1_000_000_000_000_000_060;
  now_us = 1_000_000_000_000_000_100;
}

abbrev row : ReportRow
row = record {
  task = record task {
    created_at = 1_000_000_000_000_000_000_000;
    updated_at = 1_000_000_000_000_000_000_000;
  };
  duration = 30;
}

reported : report_rows_on stored noon ≡ ok (row ∷ [])
unfolding report_rows_on trim is_whitespace is_control min_timestamp_us max_timestamp_us id_count
reported = refl

report_example : total_of row_duration (row ∷ []) ≡ total_of (overlap_us noon) (completed ∷ [])
report_example = report_rows_on-total stored noon (row ∷ []) stored-IsConsistent reported

-- A worklog inside the stored one.
abbrev inside : Worklog
inside = record {
  id = 9;
  task_id = 1;
  start = 1_000_000_000_000_000_050_000;
  end = some 1_000_000_000_000_000_060_000;
}

refused_insert : insert_worklog_on stored inside ≡ err (StorageError.same_task_worklog_overlap 9)
unfolding insert_worklog_on find_row
refused_insert = refl

reason_example : IsReason stored (worklog_row inside) (StorageError.same_task_worklog_overlap 9)
reason_example =
    insert_worklog_on-IsReason stored inside (StorageError.same_task_worklog_overlap 9)
      refused_insert

few : length (remaining stored 1 none) < 5
unfolding remaining
few = omega arith

pages_example : all_pages 5 stored 1 none ≡ ok (map worklog_of (remaining stored 1 none))
pages_example = all_pages-eq stored 1 5 stored-IsConsistent stored-IsInRange few
