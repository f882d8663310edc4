-- ===== src/Prelude/Sums.antt =====
-- Sums over lists: what sorting, selecting and exchanging the order of two sums do to them.
use Prim.Native.Nat.{ℕ, ◌+◌}
use mathlib.Core.Path.{◌≡◌, refl, ap, ap₂, sym, ◌∙◌}
use mathlib.Core.Logic.{◌≢◌, inl, inr}
use mathlib.Core.Bool.{Bool, false}
use mathlib.Core.List.{List, [], ◌∷◌, map}
use native.Mathlib.Omega.{arith}
use time_tracker.Prelude.Tests.{◌==◌, if◌then◌else◌, Bool-cases, ne→==}
use time_tracker.Prelude.Lists.{Has, any, keep, total_of}
use time_tracker.Prelude.Table.{Fresh, Distinct}
use time_tracker.Prelude.Sort.{insert, sort}
use time_tracker.Prelude.Sort.Unique.{Fresh-Has}

module _ {A : Type 0} where
  total-insert :
      (before : A → A → Bool) (f : A → ℕ) (a : A) (xs : List A)
      → total_of f (insert before a xs) ≡ f a + total_of f xs
  unfolding insert
  total-insert before f a [] = refl
  total-insert before f a (b ∷ bs) = elim (Bool-cases (before b a)) [
    | inl e ↦ rw e (ground (arith, total-insert before f a bs))
    | inr e ↦ rw e refl
  ]

  pub total-sort :
      (before : A → A → Bool) (f : A → ℕ) (xs : List A)
      → total_of f (sort before xs) ≡ total_of f xs
  unfolding sort
  total-sort before f [] = refl
  total-sort before f (a ∷ xs) =
      total-insert before f a (sort before xs) ∙ ap (λ n. f a + n) (total-sort before f xs)

  -- What is left out adds nothing.
  pub total-keep :
      (p : A → Bool) (f : A → ℕ) (xs : List A)
      → ((x : A) → p x ≡ false → f x ≡ 0)
      → total_of f (keep p xs) ≡ total_of f xs
  total-keep p f [] h = refl
  total-keep p f (x ∷ xs) h = elim (Bool-cases (p x)) [
    | inl e ↦ rw e (ap (λ n. f x + n) (total-keep p f xs h))
    | inr e ↦ rw e (ground (arith, h x e, total-keep p f xs h))
  ]

  pub total-eq : (f g : A → ℕ) (xs : List A) → ((x : A) → f x ≡ g x) → total_of f xs ≡ total_of g xs
  total-eq f g [] h = refl
  total-eq f g (x ∷ xs) h = ground (arith, h x, total-eq f g xs h)

  pub total_zero :
      (f : A → ℕ) (p : A → Bool) (xs : List A)
      → any p xs ≡ false
      → ((x : A) → p x ≡ false → f x ≡ 0)
      → total_of f xs ≡ 0
  total_zero f p [] e h = refl
  total_zero f p (x ∷ xs) e h = ground (arith, h x, total_zero f p xs)

  total_add :
      (f g : A → ℕ) (xs : List A) → total_of (λ x. f x + g x) xs ≡ total_of f xs + total_of g xs
  total_add f g [] = omega arith
  total_add f g (x ∷ xs) = ground (arith, total_add f g xs)

  pub total_const_zero : (xs : List A) → total_of (λ x. 0) xs ≡ 0
  total_const_zero [] = refl
  total_const_zero (x ∷ xs) = ground (arith, total_const_zero xs)

-- Rows `B` that belong to rows `A` by a key.
module _ {A B : Type 0} (key : A → ℕ) (owner : B → ℕ) (f : B → ℕ) where
  abbrev pub share : A → B → ℕ
  share a b = if owner b == key a then f b else 0

  share-Fresh :
      (b : B) (xs : List A) → Fresh (owner b) (map key xs) → total_of (λ a. share a b) xs ≡ 0
  share-Fresh b [] h = refl
  share-Fresh b (x ∷ xs) h = ground (arith, share-Fresh b xs h.1)

  -- A row with exactly one owner counts once.
  share_once :
      (b : B) (xs : List A)
      → Distinct (map key xs)
      → (a : A) → Has a xs
      → key a ≡ owner b
      → total_of (λ a. share a b) xs ≡ f b
  share_once b [] d a m q = absurd m
  share_once b (x ∷ xs) d a (inl e) q =
      let k : key x ≡ owner b = ap key (sym e) ∙ q in ground (arith, share-Fresh b xs (rw k at d.0))
  share_once b (x ∷ xs) d a (inr m) q =
      let n : key x ≢ owner b = λ k. Fresh-Has key (key x) xs d.0 a m (k ∙ sym q) in
      ground (arith, share_once b xs d.1 a m q, ne→== _ _ n)

  -- Summing the rows of each owner is summing all rows.
  pub share_total :
      (xs : List A) (ys : List B)
      → Distinct (map key xs)
      → ((b : B) → Has b ys → (a : A) × Has a xs × (key a ≡ owner b))
      → total_of (λ a. total_of (share a) ys) xs ≡ total_of f ys
  share_total xs [] d owned = total_const_zero xs
  share_total xs (b ∷ ys) d owned =
      let (a, m, q) = owned b (inl refl) in
      total_add (λ a. share a b) (λ a. total_of (share a) ys) xs
      ∙ ap₂ ◌+◌ (share_once b xs d a m q) (share_total xs ys d (λ c n. owned c (inr n)))
