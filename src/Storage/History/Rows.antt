-- ===== src/Storage/History/Rows.antt =====
-- One page of a task's history: its rows and its cursor.
use mathlib.Core.List.{get_last?}
use time_tracker.Prelude.{
  ℕ, zero, suc, ◌≤◌, ◌<◌, ◌≡◌, refl, ap, subst, ◌∙◌, inl, inr, Bool, true, false, not, Option, none,
  some, List, [], ◌∷◌, map, ok, collect, arith, Has, ltb, ◌==◌, is_some_and, take, length,
}
use time_tracker.Prelude.Table.{find_row_of_Has}
use time_tracker.Prelude.Split.{take-take-suc, take-id, length-take}
use time_tracker.Domain.Values.{TaskId, WorklogId}
use time_tracker.Domain.Worklog.{Worklog}
use time_tracker.Application.Model.{WorklogCursor, WorklogPage, worklog_page_size}
use time_tracker.Storage.Schema.{WorklogRow, Database, worklog_key}
use time_tracker.Storage.Mapping.{worklog_from_row}
use time_tracker.Storage.Reads.{select_worklog}
use time_tracker.Storage.History.{
  cursor_anchor_on, task_worklog_rows_on, history_revision, resolve_anchor, next_cursor_of,
  worklog_page,
}
use time_tracker.Storage.History.Anchor.{remaining, anchor_of, remaining-stored}
use time_tracker.Storage.Invariant.{IsConsistent}
use time_tracker.Storage.Invariant.Readable.{worklog_from_row-eq, start_read, adoption_reads}
use time_tracker.Storage.Mapping.Range.{IsInRange, worklog_of}

pub collect-eq :
    (rows : List WorklogRow)
    → ((row : WorklogRow) → Has row rows → worklog_from_row row ≡ ok (worklog_of row))
    → collect worklog_from_row rows ≡ ok (map worklog_of rows)
collect-eq [] h = refl
collect-eq (row ∷ rows) h = rw (h row (inl refl), collect-eq rows (λ r m. h r (inr m))) refl

pub rows-remaining :
    (db : Database) (task_id : TaskId) (a : Option (ℕ × WorklogId))
    → task_worklog_rows_on db task_id a ≡ take (suc worklog_page_size) (remaining db task_id a)
unfolding task_worklog_rows_on remaining
rows-remaining db task_id a = refl

pub Has-take : {A : Type 0} (n : ℕ) (xs : List A) (x : A) → Has x (take n xs) → Has x xs
Has-take zero xs x m = absurd m
Has-take (suc n) [] x m = m
Has-take (suc n) (y ∷ ys) x (inl e) = inl e
Has-take (suc n) (y ∷ ys) x (inr m) = inr (Has-take n ys x m)

module _ (db : Database) (v : IsConsistent db) (i : IsInRange db) (task_id : TaskId) where
  -- The rows of a page, as they are read.
  unfoldable pub page_rows : Option (ℕ × WorklogId) → List WorklogRow
  page_rows a = take worklog_page_size (task_worklog_rows_on db task_id a)

  pub page_reads :
      (a : Option (ℕ × WorklogId))
      → collect worklog_from_row (page_rows a) ≡ ok (map worklog_of (page_rows a))
  unfolding page_rows
  page_reads a = collect-eq (page_rows a) λ row m.
      let listed = Has-take worklog_page_size (task_worklog_rows_on db task_id a) row m in
      let found =
        Has-take (suc worklog_page_size) (remaining db task_id a) row
          (subst (Has row) (rows-remaining db task_id a) listed) in
      worklog_from_row-eq row (v.disjoint.positive row (stored row found))
        (i.worklogs row (stored row found))
    where
      stored : (row : WorklogRow) → Has row (remaining db task_id a) → Has row db.worklogs
      stored row m = (remaining-stored db v.worklogs_distinct task_id a row m).0

  pub worklog_page-eq :
      (after : Option WorklogCursor) (a : Option (ℕ × WorklogId))
      → is_some_and after (λ cursor. not (cursor.revision == history_revision db task_id)) ≡ false
      → resolve_anchor db task_id after ≡ ok a
      → (page : WorklogPage) × (worklog_page db task_id after ≡ ok page)
        × (page.worklogs ≡ map worklog_of (page_rows a))
        × (page.next_cursor
            ≡ next_cursor_of
                (ltb worklog_page_size (length (task_worklog_rows_on db task_id a)))
                (history_revision db task_id)
                (map worklog_of (page_rows a)))
  unfolding worklog_page page_rows
  worklog_page-eq after a current anchor =
      let (adoption, e) = adoption_reads db v i in
      let (latest, f) = start_read db v i task_id in
      (
        record {
          worklogs = map worklog_of (page_rows a);
          adoption = some (record {
            requested_task_latest_work_start = latest;
            active_worklog = adoption.0;
            active_task_latest_work_start = adoption.1;
          });
          next_cursor =
              next_cursor_of (ltb worklog_page_size (length (task_worklog_rows_on db task_id a)))
                (history_revision db task_id) (map worklog_of (page_rows a));
        },
        rw (current, anchor, page_reads a, f, e) refl,
        refl,
        refl,
      )

  pub short_rows :
      (a : Option (ℕ × WorklogId))
      → length (remaining db task_id a) ≤ worklog_page_size
      → (page_rows a ≡ remaining db task_id a)
        × (ltb worklog_page_size (length (task_worklog_rows_on db task_id a)) ≡ false)
  unfolding page_rows
  short_rows a h =
      let whole : task_worklog_rows_on db task_id a ≡ remaining db task_id a =
        (rows-remaining db task_id a ∙ take-id (suc worklog_page_size) _ (omega arith)) in
      rw whole (take-id worklog_page_size _ h, ground arith)

  pub long_rows :
      (a : Option (ℕ × WorklogId))
      → worklog_page_size < length (remaining db task_id a)
      → (page_rows a ≡ take worklog_page_size (remaining db task_id a))
        × (ltb worklog_page_size (length (task_worklog_rows_on db task_id a)) ≡ true)
  unfolding page_rows
  long_rows a h =
      let size : length (task_worklog_rows_on db task_id a) ≡ suc worklog_page_size =
        (ap length (rows-remaining db task_id a)
          ∙ length-take (suc worklog_page_size) (remaining db task_id a) (omega arith)) in
      (
        ap (take worklog_page_size) (rows-remaining db task_id a)
            ∙ take-take-suc worklog_page_size (remaining db task_id a),
        rw size refl,
      )

  -- The cursor behind a row that is stored stands for that row.
  pub resolve_anchor-stored :
      (b : WorklogRow) (revision : ℕ)
      → Has b db.worklogs
      → (b.task_id == task_id) ≡ true
      → resolve_anchor db task_id (some (record { id = b.id; revision = revision }))
        ≡ ok (anchor_of b)
  unfolding resolve_anchor cursor_anchor_on select_worklog
  resolve_anchor-stored b revision m t =
      let found = find_row_of_Has worklog_key db.worklogs b v.worklogs_distinct m in
      rw (found, t, resolve_anchor, cursor_anchor_on, select_worklog) refl

  pub no_next :
      {more : Bool} (revision : ℕ) (worklogs : List Worklog)
      → more ≡ false
      → next_cursor_of more revision worklogs ≡ none
  unfolding next_cursor_of
  no_next revision worklogs h = rw h refl

  pub a_next :
      {more : Bool} (revision : ℕ) (worklogs : List Worklog) (b : WorklogRow)
      → more ≡ true
      → get_last? worklogs ≡ some (worklog_of b)
      → next_cursor_of more revision worklogs ≡ some (record { id = b.id; revision = revision })
  unfolding next_cursor_of worklog_of
  a_next revision worklogs b h k = rw (h, k, next_cursor_of) refl

  pub current_cursor :
      (b : WorklogRow)
      → is_some_and
          (some (record { id = b.id; revision = history_revision db task_id }))
          (λ (cursor : WorklogCursor). not (cursor.revision == history_revision db task_id))
        ≡ false
  current_cursor b = ground arith
