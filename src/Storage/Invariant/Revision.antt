-- ===== src/Storage/Invariant/Revision.antt =====
-- The tasks behind a write to a worklog: nothing but history revisions differ.
use time_tracker.Domain.TaskName.Accepted.{IsName}
use time_tracker.Prelude.{
  ℕ, ◌+◌, ◌≡◌, refl, subst, ap₂, sym, inl, inr, Bool, true, false, List, [], ◌∷◌, map, arith, Has,
  if◌then◌else◌,
}
use time_tracker.Domain.Values.{TaskId}
use time_tracker.Storage.Schema.{
  TaskRow, WorklogRow, Columns, task_key, bump_history, bump_order_revision,
}
use time_tracker.Storage.Invariant.{IsReadable}

-- Two task rows that differ in their history revision at most.
abbrev pub SameTask : TaskRow → TaskRow → Type 0
SameTask t t' =
    (t.id ≡ t'.id)
    × (t.name ≡ t'.name)
    × (t.archived ≡ t'.archived)
    × (t.created_at_us ≡ t'.created_at_us)
    × (t.updated_at_us ≡ t'.updated_at_us)

bumped-SameTask :
    (test : TaskId → Bool) (t : TaskRow)
    → SameTask t (
        if test t.id then record t { history_order_revision = t.history_order_revision + 1 } else t)
bumped-SameTask test t = ground arith

Has-bump_history :
    (test : TaskId → Bool) (ts : List TaskRow) (t' : TaskRow)
    → Has t' (bump_history test ts)
    → (t : TaskRow) × Has t ts × SameTask t t'
unfolding bump_history
Has-bump_history test [] t' m = absurd m
Has-bump_history test (t ∷ ts) t' (inl e) = (t, inl refl, rw e (bumped-SameTask test t))
Has-bump_history test (t ∷ ts) t' (inr m) =
    let (u, h, s) = Has-bump_history test ts t' m in (u, inr h, s)

bump_history-Has :
    (test : TaskId → Bool) (ts : List TaskRow) (t : TaskRow)
    → Has t ts
    → (t' : TaskRow) × Has t' (bump_history test ts) × SameTask t t'
unfolding bump_history
bump_history-Has test [] t m = absurd m
bump_history-Has test (u ∷ ts) t (inl e) = (_, inl refl, rw e (bumped-SameTask test u))
bump_history-Has test (u ∷ ts) t (inr m) =
    let (t', h, s) = bump_history-Has test ts t m in (t', inr h, s)

map_key-bump_history :
    (test : TaskId → Bool) (ts : List TaskRow)
    → map task_key (bump_history test ts) ≡ map task_key ts
unfolding bump_history
map_key-bump_history test [] = refl
map_key-bump_history test (t ∷ ts) =
    ap₂ ◌∷◌ (sym (bumped-SameTask test t).0) (map_key-bump_history test ts)

abbrev pub SameTasks : List TaskRow → List TaskRow → Type 0
SameTasks ts ts' =
    (map task_key ts' ≡ map task_key ts)
    × ((t' : TaskRow) → Has t' ts' → (t : TaskRow) × Has t ts × SameTask t t')
    × ((t : TaskRow) → Has t ts → (t' : TaskRow) × Has t' ts' × SameTask t t')

SameTask-refl : (t : TaskRow) → SameTask t t
SameTask-refl t = (refl, refl, refl, refl, refl)

SameTasks-if :
    (bumps : Bool) (test : TaskId → Bool) (ts : List TaskRow)
    → SameTasks ts (if bumps then bump_history test ts else ts)
SameTasks-if true test ts =
    (map_key-bump_history test ts, Has-bump_history test ts, bump_history-Has test ts)
SameTasks-if false test ts = (refl, λ t m. (t, m, SameTask-refl t), λ t m. (t, m, SameTask-refl t))

pub bump_order_revision-SameTasks :
    (columns : Columns) (old new : WorklogRow) (ts : List TaskRow)
    → SameTasks ts (bump_order_revision columns old new ts)
unfolding bump_order_revision
bump_order_revision-SameTasks columns old new ts = SameTasks-if _ _ ts

pub IsReadable-SameTask : (t t' : TaskRow) → SameTask t t' → IsReadable t → IsReadable t'
IsReadable-SameTask t t' (_, n, _, c, u) r = record {
  named = subst (λ (text : List ℕ). IsName (record { text = text })) n r.named;
  ordered = omega (arith, r.ordered);
}
