-- ===== src/Prelude/Compare.antt =====
-- Rust's three-way comparisons, and what makes one a total preorder.
use Prim.Native.Nat.{ℕ}
use mathlib.Core.Path.{◌≡◌, refl}
use mathlib.Core.Bool.{Bool, true, false}
use mathlib.Core.Option.{Option, none, some}
use native.Mathlib.Omega.{arith}
use time_tracker.Prelude.Tests.{ltb, ◌==◌, if◌then◌else◌}
use time_tracker.Prelude.Sort.{IsOrder}

pub data Ordering : Type 0 where
  less equal greater : Ordering

abbrev pub then_with : Ordering → Ordering → Ordering
then_with equal next = next
then_with order next = order

abbrev pub reverse : Ordering → Ordering
reverse less = greater
reverse equal = equal
reverse greater = less

abbrev pub is_less : Ordering → Bool
is_less less = true
is_less _ = false

abbrev pub is_le : Ordering → Bool
is_le greater = false
is_le _ = true

unfoldable pub cmp : ℕ → ℕ → Ordering
cmp a b = if ltb a b then less else if a == b then equal else greater

-- `None` comes before every `Some`.
unfoldable pub cmp_option : Option ℕ → Option ℕ → Ordering
unfolding cmp
cmp_option none none = equal
cmp_option none (some b) = less
cmp_option (some a) none = greater
cmp_option (some a) (some b) = cmp a b

-- Swapping the arguments reverses a comparison, and comparisons compose along a chain.
pub record IsComparison {A : Type 0} (compare : A → A → Ordering) : Type 0 where
  pub flips : (a b : A) → compare b a ≡ reverse (compare a b)
  pub chains :
      (a b c : A)
      → is_le (compare a b) ≡ true
      → is_le (compare b c) ≡ true
      → compare a c ≡ then_with (compare a b) (compare b c)

pub cmp-IsComparison : IsComparison cmp
unfolding cmp
cmp-IsComparison = record { flips = λ a b. ground arith; chains = λ a b c p q. ground arith }

pub cmp_option-IsComparison : IsComparison cmp_option
unfolding cmp_option
cmp_option-IsComparison = record { flips = flips; chains = chains }
  where
    flips : (a b : Option ℕ) → cmp_option b a ≡ reverse (cmp_option a b)
    flips none none = refl
    flips none (some b) = refl
    flips (some a) none = refl
    flips (some a) (some b) = cmp-IsComparison.flips a b

    chains :
        (a b c : Option ℕ)
        → is_le (cmp_option a b) ≡ true
        → is_le (cmp_option b c) ≡ true
        → cmp_option a c ≡ then_with (cmp_option a b) (cmp_option b c)
    chains none none c p q = refl
    chains none (some b) none p q = cc
    chains none (some b) (some c) p q = refl
    chains (some a) none c p q = cc
    chains (some a) (some b) none p q = cc
    chains (some a) (some b) (some c) p q = cmp-IsComparison.chains a b c p q

module _ {A : Type 0} where
  -- Comparing by a key keeps the laws.
  pub keyed-IsComparison :
      {B : Type 0} (key : A → B) (compare : B → B → Ordering)
      → IsComparison compare
      → IsComparison (λ (a b : A). compare (key a) (key b))
  keyed-IsComparison key compare laws = record {
    flips = λ a b. laws.flips (key a) (key b);
    chains = λ a b c p q. laws.chains (key a) (key b) (key c) p q;
  }

module _ {A : Type 0} (compare : A → A → Ordering) (laws : IsComparison compare) where
  -- The same comparison in descending order.
  pub descending-IsComparison : IsComparison (λ (a b : A). compare b a)
  descending-IsComparison = record {
    flips = λ a b. laws.flips b a;
    chains = λ a b c p q. swapped _ _ _ (laws.chains c b a q p) p q;
  }
    where
      swapped :
          (ba cb ca : Ordering)
          → ca ≡ then_with cb ba
          → is_le ba ≡ true
          → is_le cb ≡ true
          → ca ≡ then_with ba cb
      swapped less less ca h p q = h
      swapped less equal ca h p q = h
      swapped equal less ca h p q = h
      swapped equal equal ca h p q = h
      swapped greater _ ca h p q = cc
      swapped _ greater ca h p q = cc

  -- Sorting by a comparison is sorting by an order.
  pub comparison-IsOrder : IsOrder (λ (a b : A). is_less (compare a b))
  comparison-IsOrder = record {
    asym = λ a b h. asym _ _ (laws.flips a b) h;
    through = λ a b c p q.
        through _ _ _ _ _ _ (laws.flips a b) (laws.flips b c) (laws.flips a c) (laws.chains a b c) p
          q;
  }
    where
      asym : (ab ba : Ordering) → ba ≡ reverse ab → is_less ab ≡ true → is_less ba ≡ false
      asym less ba h p = rw h refl
      asym equal ba h p = cc
      asym greater ba h p = cc

      through :
          (ab bc ac ba cb ca : Ordering)
          → ba ≡ reverse ab
          → cb ≡ reverse bc
          → ca ≡ reverse ac
          → (is_le ab ≡ true → is_le bc ≡ true → ac ≡ then_with ab bc)
          → is_less ba ≡ false
          → is_less cb ≡ false
          → is_less ca ≡ false
      through ab bc ac ba cb ca e f g h p q = ground arith

module _ {A : Type 0} (first second : A → A → Ordering) (f : IsComparison first)
    (s : IsComparison second) where
  -- Breaking the ties of one comparison by another.
  pub lexicographic-IsComparison : IsComparison (λ (a b : A). then_with (first a b) (second a b))
  lexicographic-IsComparison = record {
    flips = λ a b. flips _ _ _ _ (f.flips a b) (s.flips a b);
    chains = λ a b c p q. chains _ _ _ _ _ _ (f.chains a b c) (s.chains a b c) p q;
  }
    where
      flips :
          (x x' y y' : Ordering)
          → x' ≡ reverse x
          → y' ≡ reverse y
          → then_with x' y' ≡ reverse (then_with x y)
      flips less x' y y' e g = rw e refl
      flips equal x' y y' e g = rw e g
      flips greater x' y y' e g = rw e refl

      chains :
          (ab bc ac ab' bc' ac' : Ordering)
          → (is_le ab ≡ true → is_le bc ≡ true → ac ≡ then_with ab bc)
          → (is_le ab' ≡ true → is_le bc' ≡ true → ac' ≡ then_with ab' bc')
          → is_le (then_with ab ab') ≡ true
          → is_le (then_with bc bc') ≡ true
          → then_with ac ac' ≡ then_with (then_with ab ab') (then_with bc bc')
      chains less less ac ab' bc' ac' h k p q = rw (h refl refl) refl
      chains less equal ac ab' bc' ac' h k p q = rw (h refl refl) refl
      chains equal less ac equal bc' ac' h k p q = rw (h refl refl) refl
      chains equal less ac less bc' ac' h k p q = rw (h refl refl) refl
      chains equal less ac greater bc' ac' h k p q = cc
      chains equal equal ac ab' bc' ac' h k p q = rw (h refl refl) (k p q)
      chains greater _ ac ab' bc' ac' h k p q = cc
      chains less greater ac ab' bc' ac' h k p q = cc
      chains equal greater ac ab' bc' ac' h k p q = cc
