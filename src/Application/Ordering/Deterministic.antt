-- ===== src/Application/Ordering/Deterministic.antt =====
-- The order of a task list against the order in which the storage returned it.
use time_tracker.Prelude.{
  ℕ, suc, ◌<◌, ◌≤◌, ◌≡◌, refl, ◌⊎◌, true, false, Option, none, some, List, [], ◌∷◌, map, arith, Has,
}
use mathlib.Core.List.{Perm}
use time_tracker.Prelude.Table.{Distinct}
use time_tracker.Prelude.Sort.{First, IsSorted, sort-perm, sort-IsSorted}
use time_tracker.Prelude.Sort.Unique.{sort_eq}
use time_tracker.Prelude.Compare.{
  Ordering, less, equal, greater, then_with, is_less, cmp, cmp_option, reverse, IsComparison,
  cmp-IsComparison, cmp_option-IsComparison, keyed-IsComparison, descending-IsComparison,
  lexicographic-IsComparison, comparison-IsOrder,
}
use time_tracker.Domain.Values.{TaskId}
use time_tracker.Application.Model.{TaskListItem}
use time_tracker.Application.Ordering.{
  TaskOrdering, recently_worked, recently_updated, recently_created, compare_created, compare,
  sort_items,
}

abbrev pub item_id : TaskListItem → TaskId
item_id item = item.task.id

created-IsComparison : IsComparison compare_created
unfolding compare_created
created-IsComparison =
    lexicographic-IsComparison _ _
      (descending-IsComparison _
        (keyed-IsComparison (λ (i : TaskListItem). i.task.created_at) cmp cmp-IsComparison))
      (keyed-IsComparison item_id cmp cmp-IsComparison)

compare-IsComparison : (ordering : TaskOrdering) → IsComparison (compare ordering)
unfolding compare
compare-IsComparison recently_worked =
    lexicographic-IsComparison _ _
      (descending-IsComparison _ (
        keyed-IsComparison (λ (i : TaskListItem). i.latest_work_start) cmp_option
          cmp_option-IsComparison))
      created-IsComparison
compare-IsComparison recently_updated =
    lexicographic-IsComparison _ _
      (descending-IsComparison _
        (keyed-IsComparison (λ (i : TaskListItem). i.task.updated_at) cmp cmp-IsComparison))
      created-IsComparison
compare-IsComparison recently_created = created-IsComparison

cmp-eq-equal : (a b : ℕ) → cmp a b ≡ equal → a ≡ b
unfolding cmp
cmp-eq-equal a b h = ground arith

second-equal : (x y : Ordering) → then_with x y ≡ equal → y ≡ equal
second-equal less y h = cc
second-equal equal y h = h
second-equal greater y h = cc

created-equal : (a b : TaskListItem) → compare_created a b ≡ equal → item_id a ≡ item_id b
unfolding compare_created
created-equal a b h = cmp-eq-equal _ _ (second-equal _ _ h)

compare-equal :
    (ordering : TaskOrdering) (a b : TaskListItem)
    → compare ordering a b ≡ equal
    → item_id a ≡ item_id b
unfolding compare
compare-equal recently_worked a b h = created-equal a b (second-equal _ _ h)
compare-equal recently_updated a b h = created-equal a b (second-equal _ _ h)
compare-equal recently_created a b h = created-equal a b h

tied : (ab ba : Ordering) → ba ≡ reverse ab → is_less ab ≡ false → is_less ba ≡ false → ab ≡ equal
tied less ba e p q = cc
tied equal ba e p q = refl
tied greater ba e p q = let k : is_less ba ≡ true = (rw e refl) in cc

-- What an ordering puts first: the later work, where none comes before any, the later change, or
-- the later creation.
abbrev pub recency : TaskOrdering → TaskListItem → ℕ
recency recently_worked item = elim item.latest_work_start [ none ↦ 0 | some start ↦ suc start ]
recency recently_updated item = item.task.updated_at
recency recently_created item = item.task.created_at

-- The more recent item, then the one created later, then the one with the smaller identifier.
abbrev pub MayPrecede : TaskOrdering → TaskListItem → TaskListItem → Type 0
MayPrecede ordering a b =
    (recency ordering b < recency ordering a)
    ⊎ ((recency ordering a ≡ recency ordering b)
        × ((b.task.created_at < a.task.created_at)
            ⊎ ((a.task.created_at ≡ b.task.created_at) × (item_id a ≤ item_id b))))

abbrev pub MayPrecedeAll : TaskOrdering → TaskListItem → List TaskListItem → Type 0
MayPrecedeAll ordering a [] = Unit {0}
MayPrecedeAll ordering a (b ∷ bs) = MayPrecede ordering a b × MayPrecedeAll ordering a bs

-- Each item may precede all that stand behind it.
abbrev pub IsOrdered : TaskOrdering → List TaskListItem → Type 0
IsOrdered ordering [] = Unit {0}
IsOrdered ordering (a ∷ as') = MayPrecedeAll ordering a as' × IsOrdered ordering as'

not-before :
    (ordering : TaskOrdering) (a b : TaskListItem)
    → is_less (compare ordering b a) ≡ false
    → MayPrecede ordering a b
unfolding compare compare_created cmp cmp_option
not-before recently_worked a b h =
    not-worked a b a.latest_work_start b.latest_work_start refl refl h
  where
    not-worked :
        (a b : TaskListItem) (x y : Option ℕ)
        → a.latest_work_start ≡ x
        → b.latest_work_start ≡ y
        → is_less (compare recently_worked b a) ≡ false
        → MayPrecede recently_worked a b
    not-worked a b none none p q h = ground arith
    not-worked a b none (some y) p q h = ground arith
    not-worked a b (some x) none p q h = ground arith
    not-worked a b (some x) (some y) p q h = ground arith
not-before recently_updated a b h = ground arith
not-before recently_created a b h = ground arith

First-MayPrecedeAll :
    (ordering : TaskOrdering) (a : TaskListItem) (bs : List TaskListItem)
    → First (λ x y. is_less (compare ordering x y)) a bs
    → MayPrecedeAll ordering a bs
First-MayPrecedeAll ordering a [] h = tt
First-MayPrecedeAll ordering a (b ∷ bs) (f, h) =
    (not-before ordering a b f, First-MayPrecedeAll ordering a bs h)

IsSorted-IsOrdered :
    (ordering : TaskOrdering) (items : List TaskListItem)
    → IsSorted (λ a b. is_less (compare ordering a b)) items
    → IsOrdered ordering items
IsSorted-IsOrdered ordering [] h = tt
IsSorted-IsOrdered ordering (a ∷ as') (f, h) =
    (First-MayPrecedeAll ordering a as' f, IsSorted-IsOrdered ordering as' h)

-- A sorted task list holds the items of the list, none lost, added or repeated, the most recent
-- first: by the latest start of work, where an item without any comes last, by the last change or
-- by creation, as chosen. Among equally recent items the one created later comes first, and
-- among those created together the one with the smaller identifier.
pub sort_items-IsOrdered :
    (ordering : TaskOrdering) (items : List TaskListItem)
    → IsOrdered ordering (sort_items ordering items) × Perm (sort_items ordering items) items
unfolding sort_items
sort_items-IsOrdered ordering items = (
  IsSorted-IsOrdered ordering _
      (sort-IsSorted _ (comparison-IsOrder _ (compare-IsComparison ordering)) items),
  sort-perm _ items,
)

-- Every ordering is deterministic: two lists of the same tasks, each without a repeated task, are
-- ordered alike whatever order they come in.
pub sort_items-eq :
    (ordering : TaskOrdering) (xs ys : List TaskListItem)
    → Distinct (map item_id xs)
    → Distinct (map item_id ys)
    → ((i : TaskListItem) → Has i xs → Has i ys)
    → ((i : TaskListItem) → Has i ys → Has i xs)
    → sort_items ordering xs ≡ sort_items ordering ys
unfolding sort_items
sort_items-eq ordering xs ys d e h k =
    let laws = compare-IsComparison ordering in
    sort_eq item_id _ (λ a b p q. compare-equal ordering a b (tied _ _ (laws.flips a b) p q))
      (comparison-IsOrder _ laws) xs ys d e h k
