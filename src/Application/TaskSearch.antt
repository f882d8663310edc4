-- ===== src/Application/TaskSearch.antt =====
-- crates/tracker-application/src/task_search.rs: `char::to_lowercase` is a parameter, the standard
-- library's table of one to three characters for each.
use time_tracker.Prelude.{
  ℕ, ◌≡◌, refl, ◌↔◌, ◌⊎◌, inl, inr, Bool, true, false, Option, none, some, List, [], ◌∷◌, ◌++◌,
  arith, ◌==◌, if◌then◌else◌, Bool-cases, Option-cases, ==→eq,
}
use Prim.Native.Nat.{max}
use time_tracker.Prelude.Compare.{Ordering, then_with, cmp}
use time_tracker.Domain.Values.{TaskId, Instant}

pub record SearchRank : Type 0 where
  pub activity_at : Instant
  pub created_at : Instant
  pub id : TaskId

unfoldable pub from_task_activity : TaskId → Instant → Instant → Option Instant → SearchRank
from_task_activity id created_at updated_at latest_work_start = record {
  activity_at = elim latest_work_start [ none ↦ updated_at | some worked ↦ max worked updated_at ];
  created_at = created_at;
  id = id;
}

-- The derived order: `Reverse` puts the later instant first.
unfoldable pub compare_rank : SearchRank → SearchRank → Ordering
unfolding cmp
compare_rank a b =
    then_with (cmp b.activity_at a.activity_at)
      (then_with (cmp b.created_at a.created_at) (cmp a.id b.id))

-- `iterator.by_ref().any(|character| character == wanted)`: what is left after the match.
unfoldable pub advance : ℕ → List ℕ → Option (List ℕ)
advance wanted [] = none
advance wanted (c ∷ cs) = if c == wanted then some cs else advance wanted cs

unfoldable pub all_found : List ℕ → List ℕ → Bool
unfolding advance
all_found [] name = true
all_found (wanted ∷ query) name = elim (advance wanted name) [
  | none ↦ false
  | some rest ↦ all_found query rest
]

-- One character after the other, in order, with anything between them.
abbrev pub Within : List ℕ → List ℕ → Type 0
Within [] name = Unit {0}
Within (w ∷ query) [] = ⊥
Within (w ∷ query) (c ∷ name) = ((c ≡ w) × Within query name) ⊎ Within (w ∷ query) name

Within-tail : (w : ℕ) (query name : List ℕ) → Within (w ∷ query) name → Within query name
Within-tail w [] name h = tt
Within-tail w (v ∷ query) [] h = absurd h
Within-tail w (v ∷ query) (c ∷ name) (inl (e, h)) = inr h
Within-tail w (v ∷ query) (c ∷ name) (inr h) = inr (Within-tail w (v ∷ query) name h)

-- Taking the first match loses nothing.
advance-Within :
    (w : ℕ) (query name : List ℕ)
    → Within (w ∷ query) name
    → (rest : List ℕ) × (advance w name ≡ some rest) × Within query rest
unfolding advance
advance-Within w query [] h = absurd h
advance-Within w query (c ∷ name) h = elim (Bool-cases (c == w)) [
  | inl e ↦ rw e (name, refl, here h)
  | inr e ↦ rw e (advance-Within w query name (there e h))
]
  where
    here : Within (w ∷ query) (c ∷ name) → Within query name
    here (inl (q, k)) = k
    here (inr k) = Within-tail w query name k

    there : (c == w) ≡ false → Within (w ∷ query) (c ∷ name) → Within (w ∷ query) name
    there e (inl (q, k)) = absurd (ground arith)
    there e (inr k) = k

Within-advance :
    (w : ℕ) (query name rest : List ℕ)
    → advance w name ≡ some rest
    → Within query rest
    → Within (w ∷ query) name
unfolding advance
Within-advance w query [] rest e h = cc
Within-advance w query (c ∷ name) rest e h = elim (Bool-cases (c == w)) [
  | inl q ↦ let same : name ≡ rest = ground arith in inl (==→eq c w q, rw same h)
  | inr q ↦ inr (Within-advance w query name rest (rw q at e) h)
]

all_found-Within : (query name : List ℕ) → all_found query name ≡ true → Within query name
unfolding all_found
all_found-Within [] name h = tt
all_found-Within (w ∷ query) name h = elim (Option-cases (advance w name)) [
  | inl e ↦ let k = rw (e, all_found) at h in absurd (ground arith)
  | inr (rest, e) ↦
      Within-advance w query name rest e (all_found-Within query rest (rw (e, all_found) at h))
]

Within-all_found : (query name : List ℕ) → Within query name → all_found query name ≡ true
unfolding all_found
Within-all_found [] name h = refl
Within-all_found (w ∷ query) name h =
    let (rest, e, k) = advance-Within w query name h in
    rw (e, all_found) (Within-all_found query rest k)

module _ (to_lowercase : ℕ → List ℕ) where
  -- `chars().flat_map(char::to_lowercase)`
  unfoldable pub lowercase : List ℕ → List ℕ
  lowercase [] = []
  lowercase (c ∷ cs) = to_lowercase c ++ lowercase cs

  unfoldable pub fuzzy_match : List ℕ → List ℕ → Bool
  unfolding lowercase all_found
  fuzzy_match name query = all_found (lowercase query) (lowercase name)

  -- A query matches a name exactly if the characters of the lowercase query occur in the lowercase
  -- name in their order, with anything between them: taking each first match misses nothing.
  pub fuzzy_match_iff :
      (name query : List ℕ)
      → (fuzzy_match name query ≡ true) ↔ Within (lowercase query) (lowercase name)
  unfolding fuzzy_match
  fuzzy_match_iff name query = (
    all_found-Within (lowercase query) (lowercase name),
    Within-all_found (lowercase query) (lowercase name),
  )
