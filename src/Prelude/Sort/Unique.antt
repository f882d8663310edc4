-- ===== src/Prelude/Sort/Unique.antt =====
-- Sorting by an order that only rows of the same key tie in.
use Prim.Native.Nat.{ℕ}
use mathlib.Core.Path.{◌≡◌, refl, ap, ap₂, sym, ◌∙◌}
use mathlib.Core.Logic.{◌⊎◌, inl, inr, ◌≢◌}
use mathlib.Core.Bool.{Bool, false}
use mathlib.Core.List.{List, [], ◌∷◌, map}
use time_tracker.Prelude.Tests.{Bool-cases}
use time_tracker.Prelude.Lists.{Has}
use time_tracker.Prelude.Table.{Fresh, Distinct}
use time_tracker.Prelude.Sort.{
  First, IsSorted, insert, sort, Has-sort, sort-Has, Has-insert, IsOrder, sort-IsSorted,
}

module _ {A : Type 0} (key : A → ℕ) where
  pub Fresh-Has : (k : ℕ) (xs : List A) → Fresh k (map key xs) → (x : A) → Has x xs → k ≢ key x
  Fresh-Has k [] f x m = absurd m
  Fresh-Has k (y ∷ ys) f x (inl e) = λ q. f.0 (q ∙ ap key e)
  Fresh-Has k (y ∷ ys) f x (inr m) = Fresh-Has k ys f.1 x m

  pub Fresh-of_Has : (k : ℕ) (xs : List A) → ((x : A) → Has x xs → k ≢ key x) → Fresh k (map key xs)
  Fresh-of_Has k [] h = tt
  Fresh-of_Has k (y ∷ ys) h = (h y (inl refl), Fresh-of_Has k ys (λ x m. h x (inr m)))

  module _ (before : A → A → Bool) where
    Distinct-insert :
        (a : A) (xs : List A)
        → Fresh (key a) (map key xs)
        → Distinct (map key xs)
        → Distinct (map key (insert before a xs))
    unfolding insert
    Distinct-insert a [] f d = (f, d)
    Distinct-insert a (b ∷ bs) f d = elim (Bool-cases (before b a)) [
      | inl e ↦ rw e (fresh, Distinct-insert a bs f.1 d.1)
      | inr e ↦ rw e (f, d)
    ]
      where
        member : (x : A) → (x ≡ a) ⊎ Has x bs → key b ≢ key x
        member x (inl e) = λ q. f.0 (sym (q ∙ ap key e))
        member x (inr m) = Fresh-Has (key b) bs d.0 x m

        fresh : Fresh (key b) (map key (insert before a bs))
        fresh =
            Fresh-of_Has (key b) (insert before a bs) λ x m. member x (Has-insert before a bs x m)

    pub Distinct-sort : (xs : List A) → Distinct (map key xs) → Distinct (map key (sort before xs))
    unfolding sort
    Distinct-sort [] d = tt
    Distinct-sort (a ∷ xs) d =
        Distinct-insert a (sort before xs)
          (Fresh-of_Has (key a) (sort before xs)
            λ x m. Fresh-Has (key a) xs d.0 x (Has-sort before xs x m))
          (Distinct-sort xs d.1)

    pub First-Has :
        (a : A) (xs : List A) → First before a xs → (x : A) → Has x xs → before x a ≡ false
    First-Has a [] f x m = absurd m
    First-Has a (b ∷ bs) f x (inl e) = rw e f.0
    First-Has a (b ∷ bs) f x (inr m) = First-Has a bs f.1 x m

    abbrev pub Same : List A → List A → Type 0
    Same xs ys = ((x : A) → Has x xs → Has x ys) × ((x : A) → Has x ys → Has x xs)

    module _ (ties : (a b : A) → before a b ≡ false → before b a ≡ false → key a ≡ key b) where
      -- The heads of two sorted lists of the same distinct rows are the same row.
      heads_eq :
          (a b : A) (as' bs : List A)
          → First before a as'
          → First before b bs
          → (a ≡ b) ⊎ Has a bs
          → (b ≡ a) ⊎ Has b as'
          → Fresh (key b) (map key bs)
          → a ≡ b
      heads_eq a b as' bs f g (inl e) n d = e
      heads_eq a b as' bs f g (inr m) (inl e) d = sym e
      heads_eq a b as' bs f g (inr m) (inr n) d =
          absurd
            (Fresh-Has (key b) bs d a m (ties b a (First-Has a as' f b n) (First-Has b bs g a m)))

      tail-Has :
          (a b : A) (as' bs : List A)
          → a ≡ b
          → Fresh (key a) (map key as')
          → ((x : A) → Has x (a ∷ as') → Has x (b ∷ bs))
          → (x : A) → Has x as'
          → Has x bs
      tail-Has a b as' bs e d h x m = elim (h x (inr m)) [
        | inl q ↦ absurd (Fresh-Has (key a) as' d x m (ap key (e ∙ sym q)))
        | inr n ↦ n
      ]

      pub sorted_eq :
          (xs ys : List A)
          → IsSorted before xs
          → IsSorted before ys
          → Distinct (map key xs)
          → Distinct (map key ys)
          → Same xs ys
          → xs ≡ ys
      sorted_eq [] [] s t d e h = refl
      sorted_eq [] (b ∷ bs) s t d e h = absurd (h.1 b (inl refl))
      sorted_eq (a ∷ as') [] s t d e h = absurd (h.0 a (inl refl))
      sorted_eq (a ∷ as') (b ∷ bs) s t d e h =
          let same = heads_eq a b as' bs s.0 t.0 (h.0 a (inl refl)) (h.1 b (inl refl)) e.0 in
          ap₂ ◌∷◌ same (
            sorted_eq as' bs s.1 t.1 d.1 e.1
              (tail-Has a b as' bs same d.0 h.0, tail-Has b a bs as' (sym same) e.0 h.1))

      -- Two lists of the same distinct rows are sorted alike.
      pub sort_eq :
          IsOrder before
          → (xs ys : List A) → Distinct (map key xs)
          → Distinct (map key ys)
          → ((x : A) → Has x xs → Has x ys)
          → ((x : A) → Has x ys → Has x xs)
          → sort before xs ≡ sort before ys
      sort_eq order xs ys d e h k =
          sorted_eq (sort before xs) (sort before ys) (sort-IsSorted before order xs)
            (sort-IsSorted before order ys) (Distinct-sort xs d) (Distinct-sort ys e)
            (
              (λ x m. sort-Has before ys x (h x (Has-sort before xs x m))),
              (λ x m. sort-Has before xs x (k x (Has-sort before ys x m))),
            )
