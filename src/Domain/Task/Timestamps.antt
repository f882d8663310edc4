-- ===== src/Domain/Task/Timestamps.antt =====
-- How the operations on a task move its metadata timestamp.
use Prim.Native.Nat.{max}
use time_tracker.Prelude.{
  ◌≤◌, ◌≡◌, ◌≢◌, refl, ap, sym, ◌⊎◌, inl, inr, Bool-cases, ℕ, list_eq, list_eq→eq, list_eq_refl,
  Bool, true, false, List, [], ◌∷◌, arith, ok,
}
use time_tracker.Domain.Values.{TaskId, Instant}
use time_tracker.Domain.TaskName.{TaskName, name_eq}
use time_tracker.Domain.Task.{Task, rehydrate, rename, archive, restore}

pub data Change : Type 0 where
  renames : TaskName → Instant → Change
  archives restores : Instant → Change

unfoldable pub change : Task → Change → Task × Bool
unfolding rename archive restore
change task (renames name at) = rename task name at
change task (archives at) = archive task at
change task (restores at) = restore task at

abbrev pub occurred : Change → Instant
occurred (renames name at) = at
occurred (archives at) = at
occurred (restores at) = at

unfoldable pub history : Task → List Change → Task
unfolding change
history task [] = task
history task (c ∷ cs) = history (change task c).0 cs

-- The task with what the change asks for, and nothing else changed.
abbrev pub requested : Change → Task → Task
requested (renames name at) task = record task { name = name }
requested (archives at) task = record task { archived = true }
requested (restores at) task = record task { archived = false }

-- What a change does to a task and what it says of it.
abbrev pub IsEffect : Task → Change → Task → Bool → Type 0
IsEffect task c after changed =
    ((changed ≡ true)
      × (requested c task ≢ task)
      × (after ≡ record (requested c task) { updated_at = max task.updated_at (occurred c) }))
    ⊎ ((changed ≡ false) × (requested c task ≡ task) × (after ≡ task))

differs : (a b : TaskName) → name_eq a b ≡ false → a ≢ b
unfolding name_eq
differs a b e h =
    let same : a.text ≡ b.text = ap (λ (n : TaskName). n.text) h in
    let equal : list_eq a.text b.text ≡ true = rw (sym same) (list_eq_refl a.text) in cc (e, equal)

-- A change of a task reports an effect exactly if what it asks for differs from what the task is.
-- Then the task becomes what is asked for, with `updated_at` the later of its old value and the
-- time of the change; else the whole task stays as it was.
pub change-IsEffect :
    (task : Task) (c : Change) → IsEffect task c (change task c).0 (change task c).1
unfolding change name_eq
change-IsEffect task (renames name at) = elim (Bool-cases (name_eq name task.name)) [
  | inl e ↦
      let same = ap (λ (t : List ℕ). record { text = t }) (list_eq→eq name.text task.name.text e) in
      rw e (inr (refl, ap (λ (n : TaskName). record task { name = n }) same, refl))
  | inr e ↦
      let other = differs name task.name e in
      rw e (inl (refl, (λ h. other (ap (λ (t : Task). t.name) h)), refl))
]
change-IsEffect task (archives at) = elim (Bool-cases task.archived) [
  | inl e ↦
      inr (ground arith, ap (λ (b : Bool). record task { archived = b }) (sym e), ground arith)
  | inr e ↦ inl (ground arith, (λ h. cc (ap (λ (t : Task). t.archived) h, e)), ground arith)
]
change-IsEffect task (restores at) = elim (Bool-cases task.archived) [
  | inl e ↦ inl (ground arith, (λ h. cc (ap (λ (t : Task). t.archived) h, e)), ground arith)
  | inr e ↦
      inr (ground arith, ap (λ (b : Bool). record task { archived = b }) (sym e), ground arith)
]

-- No change moves `created_at`, or `updated_at` back.
change_time :
    (task : Task) (c : Change)
    → ((change task c).0.created_at ≡ task.created_at)
      × (task.updated_at ≤ (change task c).0.updated_at)
unfolding change
change_time task (renames name at) = ground arith
change_time task (archives at) = ground arith
change_time task (restores at) = ground arith

-- Whatever a task lives through, `updated_at` never falls, `created_at` never changes, and
-- `updated_at` stays at or after `created_at` if it was so before.
pub history_monotone :
    (task : Task) (cs : List Change)
    → task.created_at ≤ task.updated_at
    → (task.updated_at ≤ (history task cs).updated_at)
      × ((history task cs).created_at ≡ task.created_at)
      × ((history task cs).created_at ≤ (history task cs).updated_at)
unfolding history
history_monotone task [] h = (omega arith, refl, h)
history_monotone task (c ∷ cs) h =
    ground (arith, change_time task c, history_monotone (change task c).0 cs)

-- A rehydrated task has the values it is built from.
pub rehydrate-eq-ok :
    (id : TaskId) (name : TaskName) (archived : Bool) (created_at updated_at : Instant)
    {task : Task}
    → rehydrate id name archived created_at updated_at ≡ ok task
    → (task.id ≡ id) × (task.name ≡ name) × (task.updated_at ≡ updated_at)
unfolding rehydrate
rehydrate-eq-ok id name archived created_at updated_at h = ground arith
