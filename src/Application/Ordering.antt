-- ===== src/Application/Ordering.antt =====
-- `TaskOrdering` of crates/tracker-application/src/model.rs: how a task list is ordered.
pub mod Deterministic
use time_tracker.Prelude.{List}
use time_tracker.Prelude.Sort.{sort}
use time_tracker.Prelude.Compare.{Ordering, then_with, is_less, cmp, cmp_option}
use time_tracker.Application.Model.{TaskListItem}

pub data TaskOrdering : Type 0 where
  recently_worked recently_updated recently_created : TaskOrdering

-- Creation in descending order, then the identifier.
unfoldable pub compare_created : TaskListItem → TaskListItem → Ordering
unfolding cmp
compare_created a b = then_with (cmp b.task.created_at a.task.created_at) (cmp a.task.id b.task.id)

-- The closure passed to `sort_by`.
unfoldable pub compare : TaskOrdering → TaskListItem → TaskListItem → Ordering
unfolding compare_created cmp_option
compare recently_worked a b =
    then_with (cmp_option b.latest_work_start a.latest_work_start) (compare_created a b)
compare recently_updated a b =
    then_with (cmp b.task.updated_at a.task.updated_at) (compare_created a b)
compare recently_created a b = compare_created a b

unfoldable pub sort_items : TaskOrdering → List TaskListItem → List TaskListItem
unfolding compare sort
sort_items ordering items = sort (λ a b. is_less (compare ordering a b)) items
