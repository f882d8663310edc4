-- ===== src/Storage/Statements/Enforce.antt =====
-- The checks of a statement and its outcome.
use time_tracker.Prelude.{
  ◌≡◌, refl, subst, inl, inr, true, false, List, [], ◌∷◌, ok, err, Has, arith,
}
use time_tracker.Storage.Errors.{Sqlite, SqlError}
use time_tracker.Storage.Schema.{Check}
use time_tracker.Storage.Statements.{failures, report, enforce}

abbrev pub Passed : List Check → Type 0
Passed [] = Unit {0}
Passed ((failed, error) ∷ checks) = (failed ≡ false) × Passed checks

module _ ⦃sqlite : Sqlite⦄ where
  failures-nil : (checks : List Check) → failures checks ≡ [] → Passed checks
  failures-nil [] h = tt
  failures-nil ((true, error) ∷ checks) h = absurd (ground arith)
  failures-nil ((false, error) ∷ checks) h = (refl, failures-nil checks h)

  report-ok : (errors : List SqlError) {u : Unit} → report errors ≡ ok u → errors ≡ []
  report-ok [] h = refl
  report-ok (error ∷ errors) h = cc

  pub enforce-Passed : (checks : List Check) {u : Unit} → enforce checks ≡ ok u → Passed checks
  unfolding enforce
  enforce-Passed checks h = failures-nil checks (report-ok (failures checks) h)

  failures-Passed : (checks : List Check) → Passed checks → failures checks ≡ []
  failures-Passed [] p = refl
  failures-Passed ((failed, error) ∷ checks) p = rw p.0 (failures-Passed checks p.1)

  pub enforce-ok : (checks : List Check) → Passed checks → enforce checks ≡ ok tt
  unfolding enforce
  enforce-ok checks p = rw (failures-Passed checks p)

  Has-failures :
      (checks : List Check) (e : SqlError) → Has e (failures checks) → Has (true, e) checks
  Has-failures [] e m = absurd m
  Has-failures ((true, error) ∷ checks) e (inl q) = inl (rw q)
  Has-failures ((true, error) ∷ checks) e (inr m) = inr (Has-failures checks e m)
  Has-failures ((false, error) ∷ checks) e m = inr (Has-failures checks e m)

  Has-report : (errors : List SqlError) {e : SqlError} → report errors ≡ err e → Has e errors
  Has-report [] h = cc
  Has-report (error ∷ errors) {e} h =
      let same : sqlite.reported error errors ≡ e = cc in
      subst (λ (x : SqlError). Has x (error ∷ errors)) same (sqlite.reported_lem error errors)

  -- An error names a check that failed.
  pub enforce-err :
      (checks : List Check) (e : SqlError) → enforce checks ≡ err e → Has (true, e) checks
  unfolding enforce
  enforce-err checks e h = Has-failures checks e (Has-report (failures checks) h)
