-- ===== src/Application/ReportTotals.antt =====
-- Period totals: crates/tracker-application/src/service/reports.rs.
use time_tracker.Prelude.{
  ℕ, ◌+◌, ◌-◌, ◌^◌, ◌≤◌, ◌<◌, ◌≡◌, refl, ◌⊎◌, inl, inr, List, [], ◌∷◌, Result, ok, err, ◌>>=◌,
  arith, ltb, leb, if◌then◌else◌, total_of, subst, Bool-cases, ltb→le,
}
use mathlib.Core.List.{Perm}
use time_tracker.Prelude.Sort.{sort, sort-perm, sort-IsSorted, IsSorted}
use time_tracker.Prelude.Compare.{
  Ordering, then_with, cmp, is_less, IsComparison, cmp-IsComparison, keyed-IsComparison,
  descending-IsComparison, lexicographic-IsComparison, comparison-IsOrder,
}
use time_tracker.Domain.Values.{Instant}
use time_tracker.Application.Model.{ReportRow, ReportTotals}
use time_tracker.Application.Error.{
  ApplicationError, invalid_report_range, report_duration_overflow,
}

-- The largest `i64`.
abbrev pub i64_max : ℕ
i64_max = 2 ^ 63 - 1

unfoldable pub validate_range : Instant → Instant → Result ApplicationError (Unit {0})
validate_range start end = if leb end start then err invalid_report_range else ok tt

-- The loop over the rows with its `checked_add`; the durations are not negative.
unfoldable pub add_durations : ℕ → List ReportRow → Result ApplicationError ℕ
add_durations total_us [] = ok total_us
add_durations total_us (row ∷ rows) =
    let rest = add_durations (total_us + row.duration) rows in
    if ltb i64_max row.duration
    then err report_duration_overflow
    else if ltb i64_max (total_us + row.duration)
    then err report_duration_overflow
    else rest

unfoldable pub compare_rows : ReportRow → ReportRow → Ordering
unfolding cmp
compare_rows a b = then_with (cmp b.duration a.duration) (cmp a.task.id b.task.id)

unfoldable pub totals_from_rows : List ReportRow → Result ApplicationError ReportTotals
unfolding add_durations compare_rows sort
totals_from_rows rows = do
  total_us ← add_durations 0 rows
  ok (record { rows = sort (λ a b. is_less (compare_rows a b)) rows; total = total_us })

abbrev pub duration_of : ReportRow → ℕ
duration_of row = row.duration

-- The loop returns the sum exactly if it is an `i64`.
abbrev Summed : ℕ → ℕ → Result ApplicationError ℕ → Type 0
Summed bound sum r =
    ((sum ≤ bound) × (r ≡ ok sum)) ⊎ ((bound < sum) × (r ≡ err report_duration_overflow))

Summed-step :
    (bound total_us d later : ℕ) (rest : Result ApplicationError ℕ)
    → (total_us + d ≤ bound → Summed bound (total_us + d + later) rest)
    → Summed bound (total_us + (d + later)) (
        if ltb bound d
        then err report_duration_overflow
        else if ltb bound (total_us + d)
        then err report_duration_overflow
        else rest)
Summed-step bound total_us d later rest k = elim (Bool-cases (ltb bound (total_us + d))) [
  | inl e ↦ inr (ground arith, ground arith)
  | inr e ↦ ground (arith, k (ltb→le _ _ e))
]

add_durations_lem :
    (total_us : ℕ) (rows : List ReportRow)
    → total_us ≤ i64_max
    → Summed i64_max (total_us + total_of duration_of rows) (add_durations total_us rows)
unfolding add_durations
add_durations_lem total_us [] h = inl (ground arith)
add_durations_lem total_us (row ∷ rows) h =
    Summed-step i64_max total_us row.duration (total_of duration_of rows)
      (add_durations (total_us + row.duration) rows)
      (add_durations_lem (total_us + row.duration) rows)

rows-IsComparison : IsComparison compare_rows
unfolding compare_rows
rows-IsComparison =
    lexicographic-IsComparison _ _
      (descending-IsComparison _ (keyed-IsComparison duration_of cmp cmp-IsComparison))
      (keyed-IsComparison (λ (r : ReportRow). r.task.id) cmp cmp-IsComparison)

added : (rows : List ReportRow) → Summed i64_max (total_of duration_of rows) (add_durations 0 rows)
added rows =
    let zero_add : 0 + total_of duration_of rows ≡ total_of duration_of rows = omega arith in
    subst (λ sum. Summed i64_max sum (add_durations 0 rows)) zero_add
      (add_durations_lem 0 rows (omega arith))

-- The totals of a report are its rows, sorted by duration, and their sum, exactly if the sum is an
-- `i64` of microseconds; otherwise the report fails with the overflow error.
pub totals_from_rows_lem :
    (rows : List ReportRow)
    → ((total_of duration_of rows ≤ i64_max)
        × (totals : ReportTotals) × (totals_from_rows rows ≡ ok totals)
        × (totals.total ≡ total_of duration_of rows)
        × Perm totals.rows rows
        × IsSorted (λ a b. is_less (compare_rows a b)) totals.rows)
      ⊎ ((i64_max < total_of duration_of rows)
          × (totals_from_rows rows ≡ err report_duration_overflow))
unfolding totals_from_rows
totals_from_rows_lem rows = elim (added rows) [
  | inl (bound, e) ↦ inl (
    bound,
    record {
      rows = sort (λ a b. is_less (compare_rows a b)) rows;
      total = total_of duration_of rows;
    },
    rw e refl,
    refl,
    sort-perm _ rows,
    sort-IsSorted _ (comparison-IsOrder _ rows-IsComparison) rows,
  )
  | inr (bound, e) ↦ inr (bound, rw e refl)
]
