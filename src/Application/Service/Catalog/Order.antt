-- ===== src/Application/Service/Catalog/Order.antt =====
-- The order of the cached task list: what adopting and reloading do to it.
use time_tracker.Prelude.{
  ℕ, ◌<◌, ◌≡◌, refl, ap, subst, sym, ◌⊎◌, inl, inr, Option, none, some, List, [], ◌∷◌, ◌++◌, map,
  Bool-cases, ◌==◌, ltb, arith, ==→eq, ==→ne,
}
use time_tracker.Prelude.Table.{Fresh, Distinct}
use time_tracker.Prelude.Sort.{sort, insert, Has-sort}
use time_tracker.Prelude.Sort.Unique.{Fresh-Has, Fresh-of_Has}
use time_tracker.Domain.Values.{TaskId, Instant}
use time_tracker.Domain.Task.{Task}
use time_tracker.Application.Model.{TaskListItem}
use time_tracker.Application.Service.{by_item_id, noted}
use time_tracker.Application.Service.Catalog.{
  set_latest, replaced, replace_task, replace_tasks, adopt_task_item, adopt_task_items,
  without_task,
}

abbrev pub item_key : TaskListItem → ℕ
item_key item = item.task.id

abbrev pub Above : ℕ → List ℕ → Type 0
Above n [] = Unit {0}
Above n (k ∷ ks) = (n < k) × Above n ks

abbrev pub Increasing : List ℕ → Type 0
Increasing [] = Unit {0}
Increasing (k ∷ ks) = Above k ks × Increasing ks

-- In the order of the identifiers, each task once.
abbrev pub IsCatalog : List TaskListItem → Type 0
IsCatalog items = Increasing (map item_key items)

Above-Fresh : (n : ℕ) (ks : List ℕ) → Above n ks → Fresh n ks
Above-Fresh n [] h = tt
Above-Fresh n (k ∷ ks) (l, h) = ((λ e. absurd (omega arith)), Above-Fresh n ks h)

Increasing-Distinct : (ks : List ℕ) → Increasing ks → Distinct ks
Increasing-Distinct [] h = tt
Increasing-Distinct (k ∷ ks) (a, h) = (Above-Fresh k ks a, Increasing-Distinct ks h)

Above-insert :
    (n : ℕ) (item : TaskListItem) (items : List TaskListItem)
    → n < item.task.id
    → Above n (map item_key items)
    → Above n (map item_key (insert by_item_id item items))
unfolding insert
Above-insert n item [] l h = (l, tt)
Above-insert n item (x ∷ xs) l h = ground (arith, Above-insert n item xs l h.1)

below : (n k : ℕ) (ks : List ℕ) → n < k → Above k ks → Above n ks
below n k [] l h = tt
below n k (j ∷ ks) l (m, h) = (omega arith, below n k ks l h)

insert-IsCatalog :
    (item : TaskListItem) (items : List TaskListItem)
    → Fresh item.task.id (map item_key items)
    → IsCatalog items
    → IsCatalog (insert by_item_id item items)
unfolding insert
insert-IsCatalog item [] f h = (tt, tt)
insert-IsCatalog item (x ∷ xs) (n, f) (a, h) = elim (Bool-cases (ltb x.task.id item.task.id)) [
  | inl e ↦ rw e (Above-insert x.task.id item xs (ground arith) a, insert-IsCatalog item xs f h)
  | inr e ↦
      let l : item.task.id < x.task.id = ground arith in
      rw e ((l, below item.task.id x.task.id (map item_key xs) l a), (a, h))
]

pub sort-IsCatalog :
    (items : List TaskListItem) → Distinct (map item_key items) → IsCatalog (sort by_item_id items)
unfolding sort
sort-IsCatalog [] d = tt
sort-IsCatalog (x ∷ xs) (f, d) =
    insert-IsCatalog x (sort by_item_id xs)
      (Fresh-of_Has item_key x.task.id (sort by_item_id xs)
        λ y m. Fresh-Has item_key x.task.id xs f y (Has-sort by_item_id xs y m))
      (sort-IsCatalog xs d)

-- The identifiers stay where only what stands beside them changes.
module _ (id : TaskId) where
  keys-set_latest :
      (latest : Option Instant) (items : List TaskListItem)
      → map item_key (set_latest id latest items) ≡ map item_key items
  unfolding set_latest
  keys-set_latest latest [] = refl
  keys-set_latest latest (x ∷ xs) = ground (arith, keys-set_latest latest xs)

  keys-noted :
      (at : Instant) (items : List TaskListItem)
      → map item_key (noted id at items) ≡ map item_key items
  unfolding noted
  keys-noted at [] = refl
  keys-noted at (x ∷ xs) = ground (arith, keys-noted at xs)

  pub set_latest-IsCatalog :
      (latest : Option Instant) (items : List TaskListItem)
      → IsCatalog items
      → IsCatalog (set_latest id latest items)
  set_latest-IsCatalog latest items h = subst Increasing (sym (keys-set_latest latest items)) h

  pub noted-IsCatalog :
      (at : Instant) (items : List TaskListItem) → IsCatalog items → IsCatalog (noted id at items)
  noted-IsCatalog at items h = subst Increasing (sym (keys-noted at items)) h

  without-Above :
      (n : ℕ) (items : List TaskListItem)
      → Above n (map item_key items)
      → Above n (map item_key (without_task id items))
  unfolding without_task
  without-Above n [] h = tt
  without-Above n (x ∷ xs) h = ground (arith, without-Above n xs h.1)

  pub without_task-IsCatalog :
      (items : List TaskListItem) → IsCatalog items → IsCatalog (without_task id items)
  unfolding without_task
  without_task-IsCatalog [] h = tt
  without_task-IsCatalog (x ∷ xs) (a, h) = elim (Bool-cases (x.task.id == id)) [
    | inl e ↦ rw e (without_task-IsCatalog xs h)
    | inr e ↦ rw e (without-Above x.task.id xs a, without_task-IsCatalog xs h)
  ]

replaced_cases :
    (changed : Task) (items : List TaskListItem)
    → ((items' : List TaskListItem) × (replaced changed items ≡ some items')
        × (map item_key items' ≡ map item_key items))
      ⊎ ((replaced changed items ≡ none) × Fresh changed.id (map item_key items))
unfolding replaced
replaced_cases changed [] = inr (refl, tt)
replaced_cases changed (x ∷ xs) = elim (Bool-cases (x.task.id == changed.id)) [
  | inl e ↦ inl (
    record x { task = changed } ∷ xs,
    rw e refl,
    ap (λ k. k ∷ map item_key xs) (sym (==→eq x.task.id changed.id e)),
  )
  | inr e ↦ elim (replaced_cases changed xs) [
    | inl (xs', q, k) ↦ inl (x ∷ xs', rw (e, q) refl, ap (◌∷◌ x.task.id) k)
    | inr (q, f) ↦ inr (rw (e, q) refl, ((λ p. ==→ne x.task.id changed.id e (sym p)), f))
  ]
]

append-Distinct :
    (item : TaskListItem) (items : List TaskListItem)
    → Fresh item.task.id (map item_key items)
    → Distinct (map item_key items)
    → Distinct (map item_key (items ++ item ∷ []))
append-Distinct item [] f d = (tt, tt)
append-Distinct item (x ∷ xs) (n, f) (g, d) = (fresh xs g, append-Distinct item xs f d)
  where
    fresh :
        (ys : List TaskListItem)
        → Fresh x.task.id (map item_key ys)
        → Fresh x.task.id (map item_key (ys ++ item ∷ []))
    fresh [] h = ((λ e. n (sym e)), tt)
    fresh (y ∷ ys) (m, h) = (m, fresh ys h)

pub replace_task-IsCatalog :
    (changed : Task) (items : List TaskListItem)
    → IsCatalog items
    → IsCatalog (replace_task changed items)
unfolding replace_task
replace_task-IsCatalog changed items h = elim (replaced_cases changed items) [
  | inl (items', q, k) ↦ rw (q, replace_task) (subst Increasing (sym k) h)
  | inr (q, f) ↦
      rw (q, replace_task)
        (sort-IsCatalog (items ++ record { task = changed; latest_work_start = none } ∷ []) (
          append-Distinct (record { task = changed; latest_work_start = none }) items f
            (Increasing-Distinct (map item_key items) h)))
]

pub replace_tasks-IsCatalog :
    (tasks : List Task) (items : List TaskListItem)
    → IsCatalog items
    → IsCatalog (replace_tasks tasks items)
unfolding replace_tasks
replace_tasks-IsCatalog [] items h = h
replace_tasks-IsCatalog (t ∷ ts) items h =
    replace_tasks-IsCatalog ts (replace_task t items) (replace_task-IsCatalog t items h)

pub adopt_task_item-IsCatalog :
    (item : TaskListItem) (items : List TaskListItem)
    → IsCatalog items
    → IsCatalog (adopt_task_item item items)
unfolding adopt_task_item
adopt_task_item-IsCatalog item items h =
    set_latest-IsCatalog item.task.id item.latest_work_start (replace_task item.task items)
      (replace_task-IsCatalog item.task items h)

pub adopt_task_items-IsCatalog :
    (more items : List TaskListItem) → IsCatalog items → IsCatalog (adopt_task_items more items)
unfolding adopt_task_items
adopt_task_items-IsCatalog [] items h = h
adopt_task_items-IsCatalog (x ∷ xs) items h =
    adopt_task_items-IsCatalog xs (adopt_task_item x items) (adopt_task_item-IsCatalog x items h)
