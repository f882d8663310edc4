-- ===== src/Prelude/Results.antt =====
-- Rust's `Result`, its `?` as a bind, and the inversions of a bind that succeeded.
use mathlib.Core.Path.{◌≡◌, refl}
use mathlib.Core.Bool.{Bool, true, false}
use mathlib.Core.Option.{Option, none, some}
use mathlib.Core.List.{List, [], ◌∷◌}

pub data Result {ℓ} (E A : Type ℓ) : Type ℓ where
  ok : A → Result E A
  err : E → Result E A

infixl 5 ◌>>=◌ ◌>>◌
abbrev pub ◌>>=◌ {ℓ} : {E A B : Type ℓ} → Result E A → (A → Result E B) → Result E B
ok a >>= f = f a
err e >>= f = err e

abbrev pub ◌>>◌ {ℓ} : {E A B : Type ℓ} → Result E A → Result E B → Result E B
m >> k = m >>= λ _. k

-- `if test { return Err(e) }`.
abbrev pub reject : {E : Type 0} → Bool → E → Result E (Unit {0})
reject true e = err e
reject false e = ok tt

abbrev pub map_err {ℓ} : {E F A : Type ℓ} → (E → F) → Result E A → Result F A
map_err f (ok a) = ok a
map_err f (err e) = err (f e)

abbrev pub ok_or {ℓ} : {E A : Type ℓ} → Option A → E → Result E A
ok_or none e = err e
ok_or (some a) e = ok a

-- `option.map(f).transpose()`
abbrev pub transpose_map {ℓ} : {E A B : Type ℓ} → (A → Result E B) → Option A → Result E (Option B)
transpose_map f none = ok none
transpose_map f (some a) = f a >>= λ b. ok (some b)

-- A loop that collects results and stops at the first error.
abbrev pub collect {ℓ} : {E A B : Type ℓ} → (A → Result E B) → List A → Result E (List B)
collect f [] = ok []
collect f (a ∷ as') = f a >>= λ b. collect f as' >>= λ bs. ok (b ∷ bs)

pub bind-eq-ok {ℓ} :
    {E A B : Type ℓ} (m : Result E A) (f : A → Result E B) {b : B}
    → (m >>= f) ≡ ok b
    → (a : A) × (m ≡ ok a) × (f a ≡ ok b)
bind-eq-ok (ok a) f h = (a, refl, h)
bind-eq-ok (err e) f h = cc

pub ok-injective {ℓ} : {E A : Type ℓ} {a b : A} → ◌≡◌ {A = Result E A} (ok a) (ok b) → a ≡ b
ok-injective h = cc

pub map_err-eq-ok {ℓ} :
    {E F A : Type ℓ} (f : E → F) (m : Result E A) {a : A} → map_err f m ≡ ok a → m ≡ ok a
map_err-eq-ok f (ok b) h = cc
map_err-eq-ok f (err e) h = cc

pub reject-eq-ok : {E : Type 0} (t : Bool) (e : E) {u : Unit} → reject t e ≡ ok u → t ≡ false
reject-eq-ok true e h = cc
reject-eq-ok false e h = refl
