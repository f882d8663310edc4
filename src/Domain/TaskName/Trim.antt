-- ===== src/Domain/TaskName/Trim.antt =====
-- What trimming a raw name does.
use time_tracker.Prelude.{ℕ, ◌≡◌, refl, ap, ◌∙◌, inl, inr, false, List, [], ◌∷◌, Bool-cases}
use time_tracker.Domain.TaskName.{is_whitespace, trim_start, settle, trim_end, trim}

abbrev pub StartsPlain : List ℕ → Type 0
StartsPlain [] = Unit {0}
StartsPlain (c ∷ cs) = is_whitespace c ≡ false

abbrev pub EndsPlain : List ℕ → Type 0
EndsPlain [] = Unit {0}
EndsPlain (c ∷ []) = is_whitespace c ≡ false
EndsPlain (c ∷ d ∷ ds) = EndsPlain (d ∷ ds)

StartsPlain-trim_start : (cs : List ℕ) → StartsPlain (trim_start cs)
unfolding trim_start
StartsPlain-trim_start [] = tt
StartsPlain-trim_start (c ∷ cs) = elim (Bool-cases (is_whitespace c)) [
  | inl e ↦ rw e (StartsPlain-trim_start cs)
  | inr e ↦ rw e e
]

EndsPlain-settle : (c : ℕ) (cs : List ℕ) → EndsPlain cs → EndsPlain (settle c cs)
unfolding settle
EndsPlain-settle c [] h = elim (Bool-cases (is_whitespace c)) [ inl e ↦ rw e tt | inr e ↦ rw e e ]
EndsPlain-settle c (d ∷ ds) h = h

EndsPlain-trim_end : (cs : List ℕ) → EndsPlain (trim_end cs)
unfolding trim_end
EndsPlain-trim_end [] = tt
EndsPlain-trim_end (c ∷ cs) = EndsPlain-settle c (trim_end cs) (EndsPlain-trim_end cs)

StartsPlain-settle : (c : ℕ) (cs : List ℕ) → is_whitespace c ≡ false → StartsPlain (settle c cs)
unfolding settle
StartsPlain-settle c [] e = rw e e
StartsPlain-settle c (d ∷ ds) e = e

StartsPlain-trim_end : (cs : List ℕ) → StartsPlain cs → StartsPlain (trim_end cs)
unfolding trim_end
StartsPlain-trim_end [] h = tt
StartsPlain-trim_end (c ∷ cs) h = StartsPlain-settle c (trim_end cs) h

trim_start-id : (cs : List ℕ) → StartsPlain cs → trim_start cs ≡ cs
unfolding trim_start
trim_start-id [] h = refl
trim_start-id (c ∷ cs) h = rw h

trim_end-id : (cs : List ℕ) → EndsPlain cs → trim_end cs ≡ cs
unfolding trim_end
trim_end-id [] h = refl
trim_end-id (c ∷ []) h = rw h
trim_end-id (c ∷ d ∷ ds) h = ap (settle c) (trim_end-id (d ∷ ds) h)

pub StartsPlain-trim : (raw : List ℕ) → StartsPlain (trim raw)
unfolding trim
StartsPlain-trim raw = StartsPlain-trim_end (trim_start raw) (StartsPlain-trim_start raw)

pub EndsPlain-trim : (raw : List ℕ) → EndsPlain (trim raw)
unfolding trim
EndsPlain-trim raw = EndsPlain-trim_end (trim_start raw)

-- A trimmed text is left as it is.
pub trim-id : (cs : List ℕ) → StartsPlain cs → EndsPlain cs → trim cs ≡ cs
unfolding trim
trim-id cs s e = ap trim_end (trim_start-id cs s) ∙ trim_end-id cs e

pub trim-trim : (raw : List ℕ) → trim (trim raw) ≡ trim raw
trim-trim raw = trim-id (trim raw) (StartsPlain-trim raw) (EndsPlain-trim raw)
