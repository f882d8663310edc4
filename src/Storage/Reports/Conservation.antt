-- ===== src/Storage/Reports/Conservation.antt =====
-- The durations of a report against the worklogs they come from.
use Prim.Native.Nat.{max, min}
use time_tracker.Prelude.{
  ℕ, ◌+◌, ◌-◌, ◌≡◌, refl, ap, ap₂, sym, ◌∙◌, inl, inr, ◌&&◌, is_none_or, ok-injective, Bool, true,
  false, List, [], ◌∷◌, ok, reject, arith, bind-eq-ok, collect, total_of, keep, any, ltb, ◌==◌,
  if◌then◌else◌, Option, none, some, Bool-cases,
}
use time_tracker.Prelude.Sums.{share, share_total, total-eq, total-keep, total-sort}
use time_tracker.Domain.Values.{TaskId}
use time_tracker.Application.Model.{ReportRow}
use time_tracker.Storage.Schema.{TaskRow, WorklogRow, Database, task_key}
use time_tracker.Storage.Mapping.{task_from_row}
use time_tracker.Storage.Reads.{by_task_id}
use time_tracker.Storage.Reports.{
  i64_max, Interval, coalesce, clipped_end, clipped_start, is_counted, is_group, duration_us,
  report_row, report_rows_on,
}
use time_tracker.Storage.Invariant.{IsConsistent}

-- The time of a worklog inside the interval: the length of the common part, 0 if there is none.
abbrev pub overlap_us : Interval → WorklogRow → ℕ
overlap_us i w = clipped_end i w - clipped_start i w

not_overlapping :
    (s e st now : ℕ) (end : Option ℕ)
    → (ltb s e && is_none_or end (λ end. ltb st end) && ltb (max s st) (min (coalesce end now) e))
      ≡ false
    → min (coalesce end now) e - max s st ≡ 0
not_overlapping s e st now none h = ground arith
not_overlapping s e st now (some end) h = ground arith

not_counted : (i : Interval) (w : WorklogRow) → is_counted i w ≡ false → overlap_us i w ≡ 0
unfolding is_counted
not_counted i w h = not_overlapping w.start_us i.end_us i.start_us i.now_us w.end_us h

abbrev owner : WorklogRow → TaskId
owner w = w.task_id

-- One more row of a group, or none.
group_step :
    (counted mine : Bool) (o d s : ℕ)
    → (counted ≡ false → o ≡ 0)
    → d ≡ s
    → (if counted && mine then o + d else d) ≡ (if mine then o else 0) + s
group_step counted mine o d s h e = ground arith

total_if :
    (b : Bool) (f : WorklogRow → ℕ) (x : WorklogRow) (xs ys : List WorklogRow)
    → total_of f (if b then x ∷ xs else ys) ≡ (if b then f x + total_of f xs else total_of f ys)
total_if true f x xs ys = refl
total_if false f x xs ys = refl

duration_share :
    (i : Interval) (ws : List WorklogRow) (t : TaskRow)
    → duration_us i ws t ≡ total_of (share task_key owner (overlap_us i) t) ws
unfolding duration_us is_group
duration_share i [] t = refl
duration_share i (w ∷ ws) t =
    total_if (is_group i t w) (overlap_us i) w (keep (is_group i t) ws) (keep (is_group i t) ws)
    ∙ group_step (is_counted i w) (w.task_id == t.id) (overlap_us i w) _ _ (not_counted i w)
        (duration_share i ws t)

-- A task without a counted worklog has no time.
no_group :
    (i : Interval) (ws : List WorklogRow) (t : TaskRow)
    → any (is_group i t) ws ≡ false
    → duration_us i ws t ≡ 0
unfolding duration_us
no_group i [] t h = refl
no_group i (w ∷ ws) t h = elim (Bool-cases (is_group i t w)) [
  | inl e ↦ absurd (ground arith)
  | inr e ↦ rw e (no_group i ws t (ground arith))
]

abbrev pub row_duration : ReportRow → ℕ
row_duration row = row.duration

report_row-duration :
    (i : Interval) (ws : List WorklogRow) (t : TaskRow) {row : ReportRow}
    → report_row i ws t ≡ ok row
    → row.duration ≡ duration_us i ws t
unfolding report_row
report_row-duration i ws t h =
    let (_, _, rest) = bind-eq-ok (reject (ltb i64_max (duration_us i ws t)) _) _ h in
    let (task, _, done) = bind-eq-ok (task_from_row t) _ rest in
    sym (ap row_duration (ok-injective done))

collected :
    (i : Interval) (ws : List WorklogRow) (ts : List TaskRow) {rows : List ReportRow}
    → collect (report_row i ws) ts ≡ ok rows
    → total_of row_duration rows ≡ total_of (duration_us i ws) ts
collected i ws [] h = ap (total_of row_duration) (sym (ok-injective h))
collected i ws (t ∷ ts) h =
    let (row, e, rest) = bind-eq-ok (report_row i ws t) _ h in
    let (later, f, done) = bind-eq-ok (collect (report_row i ws) ts) _ rest in
    ap (total_of row_duration) (sym (ok-injective done))
    ∙ ap₂ ◌+◌ (report_row-duration i ws t e) (collected i ws ts f)

-- The durations of a report of a consistent database add up to the time that all its worklogs have
-- in the interval: none is lost, and none is counted twice.
pub report_rows_on-total :
    (db : Database) (i : Interval) (rows : List ReportRow)
    → IsConsistent db
    → report_rows_on db i ≡ ok rows
    → total_of row_duration rows ≡ total_of (overlap_us i) db.worklogs
unfolding report_rows_on
report_rows_on-total db i rows v h =
    collected i db.worklogs _ h
    ∙ total-sort by_task_id (duration_us i db.worklogs) _
    ∙ total-keep (λ t. any (is_group i t) db.worklogs) (duration_us i db.worklogs) db.tasks
        (no_group i db.worklogs)
    ∙ total-eq (duration_us i db.worklogs) _ db.tasks (duration_share i db.worklogs)
    ∙ share_total task_key owner (overlap_us i) db.tasks db.worklogs v.tasks_distinct v.owned
