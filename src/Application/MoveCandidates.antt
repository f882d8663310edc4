-- ===== src/Application/MoveCandidates.antt =====
-- `move_candidates_for_tasks` of crates/tracker-application/src/service/worklogs.rs: the tasks a
-- worklog can move to.
use time_tracker.Prelude.{
  ℕ, ◌≡◌, ◌≢◌, refl, ◌↔◌, Bool, true, false, not, ◌&&◌, List, map, arith, Has, keep, Has-keep,
  keep-Has, ◌==◌, Has-map, map-Has, subst, sym, ne→==,
}
use time_tracker.Prelude.Sort.{sort, Has-sort, sort-Has, IsSorted, sort-IsSorted}
use time_tracker.Prelude.Compare.{
  is_less, cmp, IsComparison, cmp-IsComparison, keyed-IsComparison, descending-IsComparison,
  lexicographic-IsComparison, comparison-IsOrder,
}
use time_tracker.Domain.Values.{TaskId}
use time_tracker.Application.Model.{TaskListItem}
use time_tracker.Application.TaskSearch.{SearchRank, from_task_activity, compare_rank, fuzzy_match}

pub record MoveCandidate : Type 0 where
  pub id : TaskId
  pub name : List ℕ

-- The key that the matches are sorted by.
unfoldable pub rank : TaskListItem → SearchRank
unfolding from_task_activity
rank item =
    from_task_activity item.task.id item.task.created_at item.task.updated_at item.latest_work_start

abbrev pub candidate : TaskListItem → MoveCandidate
candidate item = record { id = item.task.id; name = item.task.name.text }

rank-IsComparison : IsComparison (λ (a b : TaskListItem). compare_rank (rank a) (rank b))
unfolding compare_rank
rank-IsComparison =
    lexicographic-IsComparison _ _
      (descending-IsComparison _
        (keyed-IsComparison (λ (i : TaskListItem). (rank i).activity_at) cmp cmp-IsComparison))
      (lexicographic-IsComparison _ _
        (descending-IsComparison _
          (keyed-IsComparison (λ (i : TaskListItem). (rank i).created_at) cmp cmp-IsComparison))
        (keyed-IsComparison (λ (i : TaskListItem). (rank i).id) cmp cmp-IsComparison))

module _ (to_lowercase : ℕ → List ℕ) where
  unfoldable pub is_destination : TaskId → List ℕ → TaskListItem → Bool
  unfolding fuzzy_match
  is_destination source_task_id query item =
      not item.task.archived
      && not (item.task.id == source_task_id)
      && fuzzy_match to_lowercase item.task.name.text query

  unfoldable pub matches : List TaskListItem → TaskId → List ℕ → List TaskListItem
  unfolding is_destination rank compare_rank sort
  matches items source_task_id query =
      sort (λ a b. is_less (compare_rank (rank a) (rank b)))
        (keep (is_destination source_task_id query) items)

  unfoldable pub move_candidates_for_tasks :
      List TaskListItem → TaskId → List ℕ → List MoveCandidate
  unfolding matches
  move_candidates_for_tasks items source_task_id query =
      map candidate (matches items source_task_id query)

  matches-Has :
      (items : List TaskListItem) (source : TaskId) (query : List ℕ) (item : TaskListItem)
      → Has item (matches items source query)
      → Has item items × (is_destination source query item ≡ true)
  unfolding matches
  matches-Has items source query item m =
      Has-keep (is_destination source query) items item
        (Has-sort _ (keep (is_destination source query) items) item m)

  passed :
      (source : TaskId) (query : List ℕ) (item : TaskListItem)
      → is_destination source query item ≡ true
      → (item.task.archived ≡ false)
        × (item.task.id ≢ source)
        × (fuzzy_match to_lowercase item.task.name.text query ≡ true)
  unfolding is_destination
  passed source query item h = (ground arith, λ e. ground arith, ground arith)

  -- What is offered is a task of the list, never an archived one and never the source, whose name
  -- matches the query.
  offered :
      (items : List TaskListItem) (source : TaskId) (query : List ℕ) (c : MoveCandidate)
      → Has c (move_candidates_for_tasks items source query)
      → (item : TaskListItem) × Has item items
        × (c ≡ candidate item)
        × (item.task.archived ≡ false)
        × (item.task.id ≢ source)
        × (fuzzy_match to_lowercase item.task.name.text query ≡ true)
  unfolding move_candidates_for_tasks
  offered items source query c m =
      let (item, h, e) = Has-map candidate (matches items source query) c m in
      let (k, p) = matches-Has items source query item h in
      let (a, b, f) = passed source query item p in (item, k, e, a, b, f)

  is_destination_of :
      (source : TaskId) (query : List ℕ) (item : TaskListItem)
      → item.task.archived ≡ false
      → (item.task.id == source) ≡ false
      → fuzzy_match to_lowercase item.task.name.text query ≡ true
      → is_destination source query item ≡ true
  unfolding is_destination
  is_destination_of source query item a b f = ground arith

  all_offered :
      (items : List TaskListItem) (source : TaskId) (query : List ℕ) (item : TaskListItem)
      → Has item items
      → item.task.archived ≡ false
      → item.task.id ≢ source
      → fuzzy_match to_lowercase item.task.name.text query ≡ true
      → Has (candidate item) (move_candidates_for_tasks items source query)
  unfolding move_candidates_for_tasks matches
  all_offered items source query item m a b f =
      map-Has candidate (matches items source query) item (
        sort-Has _ (keep (is_destination source query) items) item (
          keep-Has (is_destination source query) items item m
            (is_destination_of source query item a (ne→== _ _ b) f)))

  destination_offered :
      (items : List TaskListItem) (source : TaskId) (query : List ℕ) (c : MoveCandidate)
      → ((item : TaskListItem) × Has item items
          × (c ≡ candidate item)
          × (item.task.archived ≡ false)
          × (item.task.id ≢ source)
          × (fuzzy_match to_lowercase item.task.name.text query ≡ true))
      → Has c (move_candidates_for_tasks items source query)
  destination_offered items source query c (item, m, e, a, b, f) =
      subst (λ (x : MoveCandidate). Has x (move_candidates_for_tasks items source query)) (sym e)
        (all_offered items source query item m a b f)

  -- The candidates are exactly the tasks of the list that are not archived, are not the source and
  -- match the query; they are listed in the order of their search ranks.
  pub move_candidates_lem :
      (items : List TaskListItem) (source : TaskId) (query : List ℕ) (c : MoveCandidate)
      → (Has c (move_candidates_for_tasks items source query) ↔ (
          (item : TaskListItem) × Has item items
          × (c ≡ candidate item)
          × (item.task.archived ≡ false)
          × (item.task.id ≢ source)
          × (fuzzy_match to_lowercase item.task.name.text query ≡ true)))
        × (move_candidates_for_tasks items source query
            ≡ map candidate (matches items source query))
        × IsSorted (λ a b. is_less (compare_rank (rank a) (rank b))) (matches items source query)
  unfolding move_candidates_for_tasks matches
  move_candidates_lem items source query c = (
    (offered items source query c, destination_offered items source query c),
    refl,
    sort-IsSorted _ (comparison-IsOrder _ rank-IsComparison)
        (keep (is_destination source query) items),
  )
