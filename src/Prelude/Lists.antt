-- ===== src/Prelude/Lists.antt =====
-- Lists over the native numbers, membership as a sum, and predicates by recursion.
use Prim.Native.Nat.{ℕ, zero, suc, ◌+◌}
use mathlib.Core.Path.{◌≡◌, refl, ap}
use mathlib.Core.Logic.{◌⊎◌, inl, inr}
use mathlib.Core.Bool.{Bool, true, false}
use mathlib.Core.List.{List, [], ◌∷◌, map}
use native.Mathlib.Omega.{arith}
use time_tracker.Prelude.Tests.{if◌then◌else◌, ◌==◌, Bool-cases}

module _ {ℓ} {A : Type ℓ} where
  abbrev pub length : List A → ℕ
  length [] = 0
  length (x ∷ xs) = suc (length xs)

  abbrev pub take : ℕ → List A → List A
  take zero xs = []
  take (suc n) [] = []
  take (suc n) (x ∷ xs) = x ∷ take n xs

  -- `filter` by a Boolean test.
  abbrev pub keep : (A → Bool) → List A → List A
  keep p [] = []
  keep p (x ∷ xs) = if p x then x ∷ keep p xs else keep p xs

  abbrev pub any : (A → Bool) → List A → Bool
  any p [] = false
  any p (x ∷ xs) = if p x then true else any p xs

-- The derived equality of two lists of numbers.
unfoldable pub list_eq : List ℕ → List ℕ → Bool
list_eq [] [] = true
list_eq (a ∷ as') (b ∷ bs) = let rest = list_eq as' bs in if a == b then rest else false
list_eq _ _ = false

pub list_eq_refl : (as' : List ℕ) → list_eq as' as' ≡ true
unfolding list_eq
list_eq_refl [] = refl
list_eq_refl (a ∷ as') = ground (arith, list_eq_refl as')

pub list_eq→eq : (as' bs : List ℕ) → list_eq as' bs ≡ true → as' ≡ bs
unfolding list_eq
list_eq→eq [] [] h = refl
list_eq→eq [] (b ∷ bs) h = cc
list_eq→eq (a ∷ as') [] h = cc
list_eq→eq (a ∷ as') (b ∷ bs) h = ground (arith, list_eq→eq as' bs)

pub list_eq_comm : (as' bs : List ℕ) → list_eq as' bs ≡ list_eq bs as'
unfolding list_eq
list_eq_comm [] [] = refl
list_eq_comm [] (b ∷ bs) = refl
list_eq_comm (a ∷ as') [] = refl
list_eq_comm (a ∷ as') (b ∷ bs) = ground (arith, list_eq_comm as' bs)

module _ {A : Type 0} where
  -- Where an item stands, as data: the library's `Mem` is truncated.
  abbrev pub Has : A → List A → Type 0
  Has a [] = ⊥
  Has a (x ∷ xs) = (a ≡ x) ⊎ Has a xs

  pub Has-any : (p : A → Bool) (xs : List A) → any p xs ≡ true → (a : A) × Has a xs × (p a ≡ true)
  Has-any p [] h = cc
  Has-any p (x ∷ xs) h = elim (Bool-cases (p x)) [
    | inl e ↦ (x, inl refl, e)
    | inr e ↦ let (a, m, q) = Has-any p xs (rw e at h) in (a, inr m, q)
  ]

  pub any-false : (p : A → Bool) (xs : List A) → any p xs ≡ false → (a : A) → Has a xs → p a ≡ false
  any-false p [] h a m = absurd m
  any-false p (x ∷ xs) h a (inl e) = rw e (ground arith)
  any-false p (x ∷ xs) h a (inr m) = any-false p xs (ground arith) a m

  pub any_of_Has : (p : A → Bool) (xs : List A) (a : A) → Has a xs → p a ≡ true → any p xs ≡ true
  any_of_Has p [] a m h = absurd m
  any_of_Has p (x ∷ xs) a (inl e) h = ground arith
  any_of_Has p (x ∷ xs) a (inr m) h = ground (arith, any_of_Has p xs a m h)

  pub any_eq_false :
      (p : A → Bool) (xs : List A) → ((a : A) → Has a xs → p a ≡ false) → any p xs ≡ false
  any_eq_false p [] h = refl
  any_eq_false p (x ∷ xs) h = ground (arith, h x (inl refl), any_eq_false p xs (λ a m. h a (inr m)))

  pub Has-keep : (p : A → Bool) (xs : List A) (a : A) → Has a (keep p xs) → Has a xs × (p a ≡ true)
  Has-keep p [] a m = absurd m
  Has-keep p (x ∷ xs) a m = elim (Bool-cases (p x)) [
    | inl e ↦ kept e (Has-keep p xs a) (rw e at m)
    | inr e ↦ let (h, q) = Has-keep p xs a (rw e at m) in (inr h, q)
  ]
    where
      kept :
          p x ≡ true
          → (Has a (keep p xs) → Has a xs × (p a ≡ true))
          → Has a (x ∷ keep p xs)
          → Has a (x ∷ xs) × (p a ≡ true)
      kept e later (inl q) = (inl q, rw q e)
      kept e later (inr m) = let (h, q) = later m in (inr h, q)

  pub keep-Has : (p : A → Bool) (xs : List A) (a : A) → Has a xs → p a ≡ true → Has a (keep p xs)
  keep-Has p [] a m h = m
  keep-Has p (x ∷ xs) a (inl e) h = let px : p x ≡ true = (rw (← e) h) in rw px (inl e)
  keep-Has p (x ∷ xs) a (inr m) h = elim (Bool-cases (p x)) [
    | inl e ↦ rw e (inr (keep-Has p xs a m h))
    | inr e ↦ rw e (keep-Has p xs a m h)
  ]

module _ {A B : Type 0} (f : A → B) where
  pub Has-map : (xs : List A) (b : B) → Has b (map f xs) → (a : A) × Has a xs × (b ≡ f a)
  Has-map [] b m = absurd m
  Has-map (x ∷ xs) b (inl e) = (x, inl refl, e)
  Has-map (x ∷ xs) b (inr m) = let (a, h, e) = Has-map xs b m in (a, inr h, e)

  pub map-Has : (xs : List A) (a : A) → Has a xs → Has (f a) (map f xs)
  map-Has [] a m = absurd m
  map-Has (x ∷ xs) a (inl e) = inl (ap f e)
  map-Has (x ∷ xs) a (inr m) = inr (map-Has xs a m)

-- The sum of a list by a measure.
abbrev pub total_of {ℓ} : {A : Type ℓ} → (A → ℕ) → List A → ℕ
total_of f [] = 0
total_of f (x ∷ xs) = f x + total_of f xs
