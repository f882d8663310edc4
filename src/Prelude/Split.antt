-- ===== src/Prelude/Split.antt =====
-- The first items of a sorted list and the rest: where one page of a listing ends.
use Prim.Native.Nat.{ℕ, zero, suc, ◌-◌, ◌≤◌, ◌<◌}
use mathlib.Core.Path.{◌≡◌, refl, ap}
use mathlib.Core.Logic.{◌⊎◌, inl, inr, ◌≢◌}
use mathlib.Core.Bool.{Bool, false}
use mathlib.Core.Option.{some}
use mathlib.Core.List.{List, [], ◌∷◌, ◌++◌, map, get_last?}
use native.Mathlib.Omega.{arith}
use time_tracker.Prelude.Lists.{Has, length, take}
use time_tracker.Prelude.Table.{Distinct}
use time_tracker.Prelude.Sort.{First, IsSorted}
use time_tracker.Prelude.Sort.Unique.{Fresh-Has, First-Has}

module _ {A : Type 0} where
  abbrev pub drop : ℕ → List A → List A
  drop zero xs = xs
  drop (suc n) [] = []
  drop (suc n) (x ∷ xs) = drop n xs

  pub take-take-suc : (n : ℕ) (xs : List A) → take n (take (suc n) xs) ≡ take n xs
  take-take-suc zero xs = refl
  take-take-suc (suc n) [] = refl
  take-take-suc (suc n) (x ∷ xs) = ap (◌∷◌ x) (take-take-suc n xs)

  pub take-id : (n : ℕ) (xs : List A) → length xs ≤ n → take n xs ≡ xs
  take-id zero [] h = refl
  take-id zero (x ∷ xs) h = absurd (omega arith)
  take-id (suc n) [] h = refl
  take-id (suc n) (x ∷ xs) h = ap (◌∷◌ x) (take-id n xs (omega arith))

  pub length-take : (n : ℕ) (xs : List A) → n ≤ length xs → length (take n xs) ≡ n
  length-take zero xs h = refl
  length-take (suc n) [] h = absurd (omega arith)
  length-take (suc n) (x ∷ xs) h = ap suc (length-take n xs (omega arith))

  pub length-drop : (n : ℕ) (xs : List A) → length (drop n xs) ≡ length xs - n
  length-drop zero xs = omega arith
  length-drop (suc n) [] = omega arith
  length-drop (suc n) (x ∷ xs) = ground (arith, length-drop n xs)

  pub map-take-drop :
      {B : Type 0} (f : A → B) (n : ℕ) (xs : List A)
      → map f (take n xs) ++ map f (drop n xs) ≡ map f xs
  map-take-drop f zero xs = refl
  map-take-drop f (suc n) [] = refl
  map-take-drop f (suc n) (x ∷ xs) = ap (◌∷◌ (f x)) (map-take-drop f n xs)

  pub Has-split : (n : ℕ) (xs : List A) (x : A) → Has x xs → Has x (take n xs) ⊎ Has x (drop n xs)
  Has-split zero xs x m = inr m
  Has-split (suc n) [] x m = absurd m
  Has-split (suc n) (y ∷ ys) x (inl e) = inl (inl e)
  Has-split (suc n) (y ∷ ys) x (inr m) = elim (Has-split n ys x m) [
    | inl h ↦ inl (inr h)
    | inr h ↦ inr h
  ]

  pub Has-drop : (n : ℕ) (xs : List A) (x : A) → Has x (drop n xs) → Has x xs
  Has-drop zero xs x m = m
  Has-drop (suc n) [] x m = m
  Has-drop (suc n) (y ∷ ys) x m = inr (Has-drop n ys x m)

  module _ (key : A → ℕ) where
    pub Distinct-drop :
        (n : ℕ) (xs : List A) → Distinct (map key xs) → Distinct (map key (drop n xs))
    Distinct-drop zero xs d = d
    Distinct-drop (suc n) [] d = d
    Distinct-drop (suc n) (x ∷ xs) d = Distinct-drop n xs d.1

  module _ (before : A → A → Bool) where
    pub IsSorted-drop : (n : ℕ) (xs : List A) → IsSorted before xs → IsSorted before (drop n xs)
    IsSorted-drop zero xs s = s
    IsSorted-drop (suc n) [] s = s
    IsSorted-drop (suc n) (x ∷ xs) s = IsSorted-drop n xs s.1

    -- The last item `b` of the first ones: it is not before any of them, none of the rest is before
    -- it, and none of the rest has its key.
    pub record IsLast {B : Type 0} (key : A → ℕ) (f : A → B) (n : ℕ) (xs : List A) (b : A)
        : Type 0 where
      pub last : get_last? (map f (take n xs)) ≡ some (f b)
      pub stored : Has b xs
      pub behind : (x : A) → Has x (take n xs) → before b x ≡ false
      pub ahead : (x : A) → Has x (drop n xs) → before x b ≡ false
      pub apart : (x : A) → Has x (drop n xs) → key b ≢ key x

    module _ {B : Type 0} (key : A → ℕ) (f : A → B)
        (irreflexive : (a : A) → before a a ≡ false) where
      first-IsLast :
          (x : A) (xs : List A)
          → IsSorted before (x ∷ xs)
          → Distinct (map key (x ∷ xs))
          → IsLast key f 1 (x ∷ xs) x
      first-IsLast x xs s d = record {
        last = refl;
        stored = inl refl;
        behind = behind;
        ahead = λ y m. First-Has key before x xs s.0 y m;
        apart = λ y m. Fresh-Has key (key x) xs d.0 y m;
      }
        where
          behind : (y : A) → Has y (x ∷ []) → before x y ≡ false
          behind y (inl e) = rw e (irreflexive x)
          behind y (inr m) = absurd m

      later-IsLast :
          (n : ℕ) (x y : A) (ys : List A) (b : A)
          → First before x (y ∷ ys)
          → IsLast key f (suc n) (y ∷ ys) b
          → IsLast key f (suc (suc n)) (x ∷ y ∷ ys) b
      later-IsLast n x y ys b s l = record {
        last = l.last;
        stored = inr l.stored;
        behind = behind;
        ahead = l.ahead;
        apart = l.apart;
      }
        where
          behind : (z : A) → Has z (x ∷ take (suc n) (y ∷ ys)) → before b z ≡ false
          behind z (inl e) = rw e (First-Has key before x (y ∷ ys) s b l.stored)
          behind z (inr m) = l.behind z m

      pub IsLast-item :
          (n : ℕ) (xs : List A)
          → IsSorted before xs
          → Distinct (map key xs)
          → n < length xs
          → (b : A) × IsLast key f (suc n) xs b
      IsLast-item n [] s d h = absurd (omega arith)
      IsLast-item zero (x ∷ xs) s d h = (x, first-IsLast x xs s d)
      IsLast-item (suc n) (x ∷ []) s d h = absurd (omega arith)
      IsLast-item (suc n) (x ∷ y ∷ ys) s d h =
          let (b, l) = IsLast-item n (y ∷ ys) s.1 d.1 (omega arith) in
          (b, later-IsLast n x y ys b s.0 l)
