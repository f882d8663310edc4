-- ===== src/Application/Tests.antt =====
-- Runs of the application rules on concrete values.
use time_tracker.Prelude.{
  ℕ, ◌≤◌, ◌<◌, ◌≡◌, ◌≢◌, ◌↔◌, ◌⊎◌, inl, inr, true, false, none, some, List, [], ◌∷◌, map, arith, ok,
  err, Has, total_of, ◌+◌, ◌&&◌, leb, if◌then◌else◌,
}
use mathlib.Core.List.{Perm}
use time_tracker.Prelude.Sort.{IsSorted}
use time_tracker.Prelude.Compare.{is_less}
use time_tracker.Domain.Tests.{build, review, task}
use time_tracker.Application.Timestamps.{
  timestamp_to_us, canonical_timestamp, timestamp_to_us-canonical,
}
use time_tracker.Application.Model.{TaskListItem, ReportRow, ReportTotals}
use time_tracker.Application.Ordering.{recently_worked, sort_items}
use time_tracker.Application.Ordering.Deterministic.{IsOrdered, sort_items-IsOrdered, sort_items-eq}
use time_tracker.Application.TaskSearch.{
  fuzzy_match, lowercase, Within, fuzzy_match_iff, compare_rank,
}
use time_tracker.Application.MoveCandidates.{
  candidate, rank, matches, move_candidates_for_tasks, move_candidates_lem,
}
use time_tracker.Application.Error.{report_duration_overflow}
use time_tracker.Application.ReportTotals.{
  i64_max, duration_of, compare_rows, totals_from_rows, totals_from_rows_lem,
}

-- The lowercase of the capital letters of ASCII; every other character stays.
abbrev ascii_lowercase : ℕ → List ℕ
ascii_lowercase c = (if leb 65 c && leb c 90 then c + 32 else c) ∷ []

abbrev worked : TaskListItem
worked = record { task = task; latest_work_start = some 30 }

abbrev fresh : TaskListItem
fresh = record {
  task = record { id = 2; name = review; archived = false; created_at = 20; updated_at = 25 };
  latest_work_start = none;
}

abbrev items : List TaskListItem
items = worked ∷ fresh ∷ []

canonical_example : timestamp_to_us (canonical_timestamp 12_345) ≡ timestamp_to_us 12_345
canonical_example = timestamp_to_us-canonical 12_345

ordered_example :
    IsOrdered recently_worked (sort_items recently_worked items)
    × Perm (sort_items recently_worked items) items
ordered_example = sort_items-IsOrdered recently_worked items

forth : (i : TaskListItem) → Has i items → Has i (fresh ∷ worked ∷ [])
forth i (inl e) = inr (inl e)
forth i (inr (inl e)) = inl e
forth i (inr (inr m)) = absurd m

back : (i : TaskListItem) → Has i (fresh ∷ worked ∷ []) → Has i items
back i (inl e) = inr (inl e)
back i (inr (inl e)) = inl e
back i (inr (inr m)) = absurd m

deterministic_example :
    sort_items recently_worked items ≡ sort_items recently_worked (fresh ∷ worked ∷ [])
deterministic_example =
    sort_items-eq recently_worked items (fresh ∷ worked ∷ []) (((λ e. ground arith), tt), (tt, tt))
      (((λ e. ground arith), tt), (tt, tt)) forth back

fuzzy_example :
    (fuzzy_match ascii_lowercase build.text (66 ∷ 97 ∷ []) ≡ true)
    ↔ Within (lowercase ascii_lowercase (66 ∷ 97 ∷ [])) (lowercase ascii_lowercase build.text)
fuzzy_example = fuzzy_match_iff ascii_lowercase build.text (66 ∷ 97 ∷ [])

candidates_example :
    (Has (candidate worked) (move_candidates_for_tasks ascii_lowercase items 2 []) ↔ (
      (item : TaskListItem) × Has item items
      × (candidate worked ≡ candidate item)
      × (item.task.archived ≡ false)
      × (item.task.id ≢ 2)
      × (fuzzy_match ascii_lowercase item.task.name.text [] ≡ true)))
    × (move_candidates_for_tasks ascii_lowercase items 2 []
        ≡ map candidate (matches ascii_lowercase items 2 []))
    × IsSorted
        (λ a b. is_less (compare_rank (rank a) (rank b)))
        (matches ascii_lowercase items 2 [])
candidates_example = move_candidates_lem ascii_lowercase items 2 [] (candidate worked)

abbrev rows : List ReportRow
rows = record { task = task; duration = 5 } ∷ record { task = task; duration = 9 } ∷ []

totals_example :
    ((total_of duration_of rows ≤ i64_max)
      × (totals : ReportTotals) × (totals_from_rows rows ≡ ok totals)
      × (totals.total ≡ total_of duration_of rows)
      × Perm totals.rows rows
      × IsSorted (λ a b. is_less (compare_rows a b)) totals.rows)
    ⊎ ((i64_max < total_of duration_of rows)
        × (totals_from_rows rows ≡ err report_duration_overflow))
totals_example = totals_from_rows_lem rows
