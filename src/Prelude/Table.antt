-- ===== src/Prelude/Table.antt =====
-- Tables whose rows carry a key: lookup, replacement and deletion of the row with a key.
use Prim.Native.Nat.{ℕ}
use mathlib.Core.Path.{◌≡◌, refl, ap, ap₂, sym, ◌∙◌}
use mathlib.Core.Logic.{◌⊎◌, inl, inr, ◌≢◌}
use mathlib.Core.Bool.{false}
use mathlib.Core.Option.{Option, none, some}
use mathlib.Core.List.{List, [], ◌∷◌, map}
use native.Mathlib.Omega.{arith}
use time_tracker.Prelude.Tests.{if◌then◌else◌, ◌==◌, Bool-cases, ==→eq, ==_refl, ne→==}
use time_tracker.Prelude.Lists.{Has}

-- No two rows share a key.
abbrev pub Fresh : ℕ → List ℕ → Type 0
Fresh k [] = Unit {0}
Fresh k (j ∷ ks) = (k ≢ j) × Fresh k ks

abbrev pub Distinct : List ℕ → Type 0
Distinct [] = Unit {0}
Distinct (k ∷ ks) = Fresh k ks × Distinct ks

module _ {R : Type 0} (key : R → ℕ) where
  -- SELECT .. WHERE id = k
  unfoldable pub find_row : ℕ → List R → Option R
  find_row k [] = none
  find_row k (r ∷ rs) = if key r == k then some r else find_row k rs

  -- UPDATE .. WHERE id = key row
  unfoldable pub set_row : R → List R → List R
  set_row n [] = []
  set_row n (r ∷ rs) = (if key r == key n then n else r) ∷ set_row n rs

  -- DELETE .. WHERE id = k
  unfoldable pub remove_row : ℕ → List R → List R
  remove_row k [] = []
  remove_row k (r ∷ rs) = let rest = remove_row k rs in if key r == k then rest else r ∷ rest

  pub Has-find_row : (k : ℕ) (rs : List R) (r : R) → find_row k rs ≡ some r → Has r rs × (key r ≡ k)
  unfolding find_row
  Has-find_row k [] r h = absurd (ground arith)
  Has-find_row k (x ∷ rs) r h = elim (Bool-cases (key x == k)) [
    | inl e ↦ (inl (ground arith), ground arith)
    | inr e ↦ let (m, q) = Has-find_row k rs r (rw e at h) in (inr m, q)
  ]

  pub find_row-none : (k : ℕ) (rs : List R) → find_row k rs ≡ none → (r : R) → Has r rs → key r ≢ k
  unfolding find_row
  find_row-none k [] h r m = absurd m
  find_row-none k (x ∷ rs) h r (inl e) = λ q. ground (arith, ap key e)
  find_row-none k (x ∷ rs) h r (inr m) = find_row-none k rs (ground arith) r m

  pub Has-set_row :
      (n : R) (rs : List R) (r : R) → Has r (set_row n rs) → (r ≡ n) ⊎ (Has r rs × (key r ≢ key n))
  unfolding set_row
  Has-set_row n [] r m = absurd m
  Has-set_row n (x ∷ rs) r (inl e) = elim (Bool-cases (key x == key n)) [
    | inl q ↦ inl (ground arith)
    | inr q ↦ inr (inl (ground arith), ground (arith, ap key e))
  ]
  Has-set_row n (x ∷ rs) r (inr m) = elim (Has-set_row n rs r m) [
    | inl e ↦ inl e
    | inr p ↦ inr (inr p.0, p.1)
  ]

  pub Has-remove_row :
      (k : ℕ) (rs : List R) (r : R) → Has r (remove_row k rs) → Has r rs × (key r ≢ k)
  unfolding remove_row
  Has-remove_row k [] r m = absurd m
  Has-remove_row k (x ∷ rs) r m = elim (Bool-cases (key x == k)) [
    | inl q ↦ let (h, d) = Has-remove_row k rs r (rw q at m) in (inr h, d)
    | inr q ↦ kept q (Has-remove_row k rs r) (rw q at m)
  ]
    where
      kept :
          (key x == k) ≡ false
          → (Has r (remove_row k rs) → Has r rs × (key r ≢ k))
          → Has r (x ∷ remove_row k rs)
          → Has r (x ∷ rs) × (key r ≢ k)
      kept q later (inl e) = (inl e, ground (arith, ap key e))
      kept q later (inr m) = let (h, d) = later m in (inr h, d)

  pub map_key-set_row : (n : R) (rs : List R) → map key (set_row n rs) ≡ map key rs
  unfolding set_row
  map_key-set_row n [] = refl
  map_key-set_row n (x ∷ rs) = elim (Bool-cases (key x == key n)) [
    | inl q ↦ rw q (ap₂ ◌∷◌ (sym (==→eq (key x) (key n) q)) (map_key-set_row n rs))
    | inr q ↦ rw q (ap (◌∷◌ (key x)) (map_key-set_row n rs))
  ]

  pub Fresh-remove_row :
      (j k : ℕ) (rs : List R) → Fresh j (map key rs) → Fresh j (map key (remove_row k rs))
  unfolding remove_row
  Fresh-remove_row j k [] h = tt
  Fresh-remove_row j k (x ∷ rs) h = ground (arith, Fresh-remove_row j k rs h.1)

  pub Distinct-remove_row :
      (k : ℕ) (rs : List R) → Distinct (map key rs) → Distinct (map key (remove_row k rs))
  unfolding remove_row
  Distinct-remove_row k [] h = tt
  Distinct-remove_row k (x ∷ rs) h =
      ground (arith, Distinct-remove_row k rs h.1, Fresh-remove_row (key x) k rs h.0)

  pub Fresh-of_find_row : (k : ℕ) (rs : List R) → find_row k rs ≡ none → Fresh k (map key rs)
  unfolding find_row
  Fresh-of_find_row k [] h = tt
  Fresh-of_find_row k (x ∷ rs) h = (λ e. ground arith, Fresh-of_find_row k rs (ground arith))

  pub find_row-set_row :
      (k : ℕ) (n : R) (rs : List R)
      → find_row k (set_row n rs) ≡ (
          if key n == k
          then (elim (find_row k rs) [ none ↦ none | some r ↦ some n ])
          else find_row k rs)
  unfolding find_row set_row
  find_row-set_row k n [] = ground arith
  find_row-set_row k n (x ∷ rs) = ground (arith, find_row-set_row k n rs)

  pub find_row-remove_row :
      (k j : ℕ) (rs : List R)
      → find_row j (remove_row k rs) ≡ (if j == k then none else find_row j rs)
  unfolding find_row remove_row
  find_row-remove_row k j [] = ground arith
  find_row-remove_row k j (x ∷ rs) = ground (arith, find_row-remove_row k j rs)

  -- With distinct keys a row of the table is the one that its key finds.
  pub find_row_of_Has :
      (rs : List R) (r : R) → Distinct (map key rs) → Has r rs → find_row (key r) rs ≡ some r
  unfolding find_row
  find_row_of_Has [] r d m = absurd m
  find_row_of_Has (x ∷ rs) r d (inl e) = rw (e, ==_refl)
  find_row_of_Has (x ∷ rs) r d (inr m) =
      rw (ne→== (key x) (key r) (Fresh-Has (key x) rs r d.0 m)) (find_row_of_Has rs r d.1 m)
    where
      Fresh-Has : (k : ℕ) (rs : List R) (r : R) → Fresh k (map key rs) → Has r rs → k ≢ key r
      Fresh-Has k [] r f m = absurd m
      Fresh-Has k (x ∷ rs) r f (inl e) = λ q. f.0 (q ∙ ap key e)
      Fresh-Has k (x ∷ rs) r f (inr m) = Fresh-Has k rs r f.1 m

  pub row_eq_of_key :
      (rs : List R) (v w : R) → Distinct (map key rs) → Has v rs → Has w rs → key v ≡ key w → v ≡ w
  row_eq_of_key rs v w d mv mw e = cc (find_row_of_Has rs v d mv, find_row_of_Has rs w d mw)

  -- Every row has a successor with its key.
  pub set_row-Has :
      (n : R) (rs : List R) (r : R) → Has r rs → (r' : R) × Has r' (set_row n rs) × (key r' ≡ key r)
  unfolding set_row
  set_row-Has n [] r m = absurd m
  set_row-Has n (x ∷ rs) r (inl e) = elim (Bool-cases (key x == key n)) [
    | inl q ↦ (n, inl (rw q), sym (==→eq _ _ q) ∙ sym (ap key e))
    | inr q ↦ (x, inl (rw q), sym (ap key e))
  ]
  set_row-Has n (x ∷ rs) r (inr m) = let (r', h, e) = set_row-Has n rs r m in (r', inr h, e)
