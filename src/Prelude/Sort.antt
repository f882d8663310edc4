-- ===== src/Prelude/Sort.antt =====
-- The stable sort of `slice::sort_by` and of ORDER BY, as insertion: the result of a stable sort
-- depends on the list and the comparison alone.
pub mod Unique
use Prim.Native.Nat.{ℕ, suc}
use mathlib.Core.Path.{◌≡◌, refl, ap}
use mathlib.Core.Logic.{◌⊎◌, inl, inr}
use mathlib.Core.Bool.{Bool, true, false}
use mathlib.Core.List.{List, [], ◌∷◌, Perm}
use mathlib.Core.List.Perm
use native.Mathlib.Omega.{arith}
use time_tracker.Prelude.Tests.{if◌then◌else◌, Bool-cases}
use time_tracker.Prelude.Lists.{Has, length}

module _ {A : Type 0} (before : A → A → Bool) where
  -- `before b a` says that b must precede a; ties keep their order.
  unfoldable pub insert : A → List A → List A
  insert a [] = a ∷ []
  insert a (b ∷ bs) = let rest = insert a bs in if before b a then b ∷ rest else a ∷ b ∷ bs

  unfoldable pub sort : List A → List A
  unfolding insert
  sort [] = []
  sort (a ∷ as') = insert a (sort as')

  -- No item of the list must precede `a`.
  abbrev pub First : A → List A → Type 0
  First a [] = Unit {0}
  First a (b ∷ bs) = (before b a ≡ false) × First a bs

  -- No item must precede one that stands before it.
  abbrev pub IsSorted : List A → Type 0
  IsSorted [] = Unit {0}
  IsSorted (a ∷ as') = First a as' × IsSorted as'

  insert-perm : (a : A) (bs : List A) → Perm (insert a bs) (a ∷ bs)
  unfolding insert
  insert-perm a [] = Perm.refl (a ∷ [])
  insert-perm a (b ∷ bs) = elim (Bool-cases (before b a)) [
    | inl e ↦ rw e (Perm.trans (Perm.cons b (insert-perm a bs)) (Perm.swap a b bs))
    | inr e ↦ rw e (Perm.refl (a ∷ b ∷ bs))
  ]

  pub sort-perm : (as' : List A) → Perm (sort as') as'
  unfolding sort
  sort-perm [] = Perm.refl []
  sort-perm (a ∷ as') = Perm.trans (insert-perm a (sort as')) (Perm.cons a (sort-perm as'))

  Has-insert : (a : A) (bs : List A) (x : A) → Has x (insert a bs) → (x ≡ a) ⊎ Has x bs
  unfolding insert
  Has-insert a [] x (inl e) = inl e
  Has-insert a [] x (inr m) = absurd m
  Has-insert a (b ∷ bs) x m = elim (Bool-cases (before b a)) [
    | inl e ↦ behind (Has-insert a bs x) (rw e at m)
    | inr e ↦ rw e at m
  ]
    where
      behind :
          (Has x (insert a bs) → (x ≡ a) ⊎ Has x bs)
          → Has x (b ∷ insert a bs)
          → (x ≡ a) ⊎ Has x (b ∷ bs)
      behind later (inl e) = inr (inl e)
      behind later (inr m) = elim (later m) [ inl e ↦ inl e | inr h ↦ inr (inr h) ]

  insert-Has : (a : A) (bs : List A) (x : A) → (x ≡ a) ⊎ Has x bs → Has x (insert a bs)
  unfolding insert
  insert-Has a [] x m = m
  insert-Has a (b ∷ bs) x m = elim (Bool-cases (before b a)) [
    | inl e ↦ rw e (ahead (insert-Has a bs x) m)
    | inr e ↦ rw e m
  ]
    where
      ahead :
          ((x ≡ a) ⊎ Has x bs → Has x (insert a bs))
          → (x ≡ a) ⊎ Has x (b ∷ bs)
          → Has x (b ∷ insert a bs)
      ahead later (inl e) = inr (later (inl e))
      ahead later (inr (inl e)) = inl e
      ahead later (inr (inr h)) = inr (later (inr h))

  pub Has-sort : (as' : List A) (x : A) → Has x (sort as') → Has x as'
  unfolding sort
  Has-sort [] x m = m
  Has-sort (a ∷ as') x m = elim (Has-insert a (sort as') x m) [
    | inl e ↦ inl e
    | inr h ↦ inr (Has-sort as' x h)
  ]

  pub sort-Has : (as' : List A) (x : A) → Has x as' → Has x (sort as')
  unfolding sort
  sort-Has [] x m = m
  sort-Has (a ∷ as') x (inl e) = insert-Has a (sort as') x (inl e)
  sort-Has (a ∷ as') x (inr m) = insert-Has a (sort as') x (inr (sort-Has as' x m))

  -- `before` is a strict weak order.
  pub record IsOrder : Type 0 where
    pub asym : (a b : A) → before a b ≡ true → before b a ≡ false
    pub through : (a b c : A) → before b a ≡ false → before c b ≡ false → before c a ≡ false

  module _ (order : IsOrder) where
    First-through : (a b : A) (bs : List A) → before b a ≡ false → First b bs → First a bs
    First-through a b [] h f = tt
    First-through a b (c ∷ bs) h f = (order.through a b c h f.0, First-through a b bs h f.1)

    First-insert : (a b : A) (bs : List A) → before b a ≡ false → First a bs → First a (insert b bs)
    unfolding insert
    First-insert a b [] h f = (h, tt)
    First-insert a b (c ∷ bs) h f = ground (arith, First-insert a b bs h f.1)

    insert-IsSorted : (a : A) (bs : List A) → IsSorted bs → IsSorted (insert a bs)
    unfolding insert
    insert-IsSorted a [] s = (tt, tt)
    insert-IsSorted a (b ∷ bs) s = elim (Bool-cases (before b a)) [
      | inl e ↦ rw e (First-insert b a bs (order.asym b a e) s.0, insert-IsSorted a bs s.1)
      | inr e ↦ rw e ((e, First-through a b bs e s.0), s)
    ]

    pub sort-IsSorted : (as' : List A) → IsSorted (sort as')
    unfolding sort
    sort-IsSorted [] = tt
    sort-IsSorted (a ∷ as') = insert-IsSorted a (sort as') (sort-IsSorted as')
