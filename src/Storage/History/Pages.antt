-- ===== src/Storage/History/Pages.antt =====
-- A client that follows the cursors of `SqliteRepository::worklog_page` to the end.
use mathlib.Core.List.{get_last?}
use time_tracker.Prelude.{
  ℕ, zero, suc, ◌≤◌, ◌<◌, ◌≡◌, refl, ap, ap₂, ◌∙◌, inl, inr, false, not, Option, none, some, List,
  ◌++◌, map, Result, ok, err, ◌>>=◌, arith, ltb, ◌==◌, is_some_and, length, Bool-cases, ltb→lt,
  ltb→le,
}
use time_tracker.Prelude.Split.{length-drop, map-take-drop}
use time_tracker.Domain.Values.{TaskId, WorklogId}
use time_tracker.Domain.Worklog.{Worklog}
use time_tracker.Application.Model.{WorklogCursor, WorklogPage, worklog_page_size}
use time_tracker.Storage.Errors.{StorageError, worklog_history_changed}
use time_tracker.Storage.Schema.{Database}
use time_tracker.Storage.History.{
  task_worklog_rows_on, history_revision, resolve_anchor, next_cursor_of, worklog_page,
}
use time_tracker.Storage.History.Anchor.{remaining, anchor_of, page_end, remaining-anchor}
use time_tracker.Storage.Invariant.{IsConsistent}
use time_tracker.Storage.Mapping.Range.{IsInRange, worklog_of}
use time_tracker.Storage.History.Rows.{
  page_rows, worklog_page-eq, short_rows, long_rows, resolve_anchor-stored, no_next, a_next,
  current_cursor,
}

-- Every page after the cursor, one behind the other, in at most so many requests.
unfoldable pub all_pages :
    ℕ → Database → TaskId → Option WorklogCursor → Result StorageError (List Worklog)
unfolding worklog_page
all_pages zero db task_id after = err (worklog_history_changed task_id)
all_pages (suc n) db task_id after = worklog_page db task_id after >>= λ page.
    elim page.next_cursor [
      | none ↦ ok page.worklogs
      | some cursor ↦ all_pages n db task_id (some cursor) >>= λ rest. ok (page.worklogs ++ rest)
    ]

module _ (db : Database) (v : IsConsistent db) (i : IsInRange db) (task_id : TaskId) where
  pages_from :
      (n : ℕ) (after : Option WorklogCursor) (a : Option (ℕ × WorklogId))
      → is_some_and after (λ cursor. not (cursor.revision == history_revision db task_id)) ≡ false
      → resolve_anchor db task_id after ≡ ok a
      → length (remaining db task_id a) < n
      → all_pages n db task_id after ≡ ok (map worklog_of (remaining db task_id a))
  unfolding all_pages
  pages_from zero after a current anchor h = absurd (omega arith)
  pages_from (suc n) after a current anchor h =
      let (page, e, rows, next) = worklog_page-eq db v i task_id after a current anchor in
      elim (Bool-cases (ltb worklog_page_size (length (remaining db task_id a)))) [
        | inl long ↦ longer (pages_from n) page e rows next (ltb→lt _ _ long)
        | inr short ↦ last page e rows next (ltb→le _ _ short)
      ]
    where
      last :
          (page : WorklogPage)
          → worklog_page db task_id after ≡ ok page
          → page.worklogs ≡ map worklog_of (page_rows db v i task_id a)
          → page.next_cursor
            ≡ next_cursor_of
                (ltb worklog_page_size (length (task_worklog_rows_on db task_id a)))
                (history_revision db task_id)
                (map worklog_of (page_rows db v i task_id a))
          → length (remaining db task_id a) ≤ worklog_page_size
          → all_pages (suc n) db task_id after ≡ ok (map worklog_of (remaining db task_id a))
      last page e rows next k =
          let (whole, end) = short_rows db v i task_id a k in
          let none_next : page.next_cursor ≡ none = (next ∙ no_next db v i task_id _ _ end) in
          rw (e, none_next) (ap ok (rows ∙ ap (map worklog_of) whole))

      longer :
          ((next : Option WorklogCursor) (b : Option (ℕ × WorklogId))
            → is_some_and next (λ cursor. not (cursor.revision == history_revision db task_id))
              ≡ false
            → resolve_anchor db task_id next ≡ ok b
            → length (remaining db task_id b) < n
            → all_pages n db task_id next ≡ ok (map worklog_of (remaining db task_id b)))
          → (page : WorklogPage) → worklog_page db task_id after ≡ ok page
          → page.worklogs ≡ map worklog_of (page_rows db v i task_id a)
          → page.next_cursor
            ≡ next_cursor_of
                (ltb worklog_page_size (length (task_worklog_rows_on db task_id a)))
                (history_revision db task_id)
                (map worklog_of (page_rows db v i task_id a))
          → worklog_page_size < length (remaining db task_id a)
          → all_pages (suc n) db task_id after ≡ ok (map worklog_of (remaining db task_id a))
      longer later page e rows next k =
          let (b, l, m, t) =
            page_end db v.worklogs_distinct task_id worklog_of 49 a (omega arith) in
          let (first, more) = long_rows db v i task_id a k in
          let found : page.next_cursor
              ≡ some (record { id = b.id; revision = history_revision db task_id }) =
            (next
              ∙ a_next db v i task_id _ _ b more
                  (ap get_last? (ap (map worklog_of) first) ∙ l.last)) in
          let split = remaining-anchor db v.worklogs_distinct task_id worklog_of 50 a b l in
          let shorter : length (remaining db task_id (anchor_of b)) < n =
            (ground (arith, ap length split, length-drop 50 (remaining db task_id a))) in
          let rest =
            later (some (record { id = b.id; revision = history_revision db task_id }))
              (anchor_of b) (current_cursor db v i task_id b)
              (resolve_anchor-stored db v i task_id b (history_revision db task_id) m t) shorter in
          rw (e, found, rest)
            (ap ok (
              ap₂ ◌++◌ (rows ∙ ap (map worklog_of) first) (ap (map worklog_of) split)
              ∙ map-take-drop worklog_of 50 (remaining db task_id a)))

-- Following the cursors of a task's history reads every worklog of the task exactly once, the
-- latest start first: in a consistent database, whose stored counts are in the range of a timestamp
-- and whose identifiers are ones, and which does not change between the requests, more requests
-- than there are worklogs are enough.
pub all_pages-eq :
    (db : Database) (task_id : TaskId) (n : ℕ)
    → IsConsistent db
    → IsInRange db
    → length (remaining db task_id none) < n
    → all_pages n db task_id none ≡ ok (map worklog_of (remaining db task_id none))
unfolding resolve_anchor
all_pages-eq db task_id n v i h = pages_from db v i task_id n none none refl refl h
