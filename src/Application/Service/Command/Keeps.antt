-- ===== src/Application/Service/Command/Keeps.antt =====
-- Invariants of commands, one rule for each way to build a command.
use time_tracker.Prelude.{◌≡◌, refl, Result, ok, err}
use time_tracker.Application.Error.{ApplicationError}
use time_tracker.Application.Repository.{RepositoryError}
use time_tracker.Application.Service.{TrackerApplication}
use time_tracker.Application.Service.Command.{
  Command, pure, fail, modify, continue, ◌>>=◌, from_result, query, attempt,
}

-- The command keeps `P`, whether it succeeds or fails.
pub record Keeps {S A : Type 0} (P : TrackerApplication S → Type 0) (m : Command S A) : Type 0 where
  pub at : (self : TrackerApplication S) → P self → P (m self).1

module _ {S : Type 0} (P : TrackerApplication S → Type 0) where
  pub Keeps-pure : {A : Type 0} (a : A) → Keeps P (pure a)
  unfolding pure
  Keeps-pure a = record { at = λ self h. h }

  pub Keeps-fail : {A : Type 0} (error : ApplicationError) → Keeps P (fail {A = A} error)
  unfolding fail
  Keeps-fail error = record { at = λ self h. h }

  pub Keeps-modify :
      (f : TrackerApplication S → TrackerApplication S)
      → ((self : TrackerApplication S) → P self → P (f self))
      → Keeps P (modify f)
  unfolding modify
  Keeps-modify f k = record { at = k }

  pub Keeps-from_result :
      {E A : Type 0} (convert : E → ApplicationError) (r : Result E A)
      → Keeps P (from_result convert r)
  unfolding from_result
  Keeps-from_result convert (ok a) = Keeps-pure a
  Keeps-from_result convert (err error) = Keeps-fail (convert error)

  continue-kept :
      {A B : Type 0} (r : Result ApplicationError A × TrackerApplication S) (f : A → Command S B)
      → P r.1
      → ((a : A) → Keeps P (f a))
      → P (continue r f).1
  unfolding continue
  continue-kept (ok a, self) f h k = (k a).at self h
  continue-kept (err error, self) f h k = h

  pub Keeps-bind :
      {A B : Type 0} (m : Command S A) (f : A → Command S B)
      → Keeps P m
      → ((a : A) → Keeps P (f a))
      → Keeps P (m >>= f)
  unfolding ◌>>=◌
  Keeps-bind m f km kf = record { at = λ self h. continue-kept (m self) f (km.at self h) kf }

  pub Keeps-query :
      {A : Type 0} (call : S → Result RepositoryError A × S)
      → ((self : TrackerApplication S)
          → P self
          → P (record self { repository = (call self.repository).1 }))
      → Keeps P (query call)
  unfolding query
  Keeps-query call k = record { at = k }

  pub Keeps-attempt : {A : Type 0} (m : Command S A) → Keeps P m → Keeps P (attempt m)
  unfolding attempt
  Keeps-attempt m km = record { at = km.at }

  -- What a query returned may be used in the rest of the command.
  pub Keeps-read :
      {A B : Type 0} (Q : A → Type 0) (convert : RepositoryError → ApplicationError)
      (call : S → Result RepositoryError A × S) (f : A → Command S B)
      → ((self : TrackerApplication S)
          → P self
          → P (record self { repository = (call self.repository).1 }))
      → ((self : TrackerApplication S) → P self → (a : A) → (call self.repository).0 ≡ ok a → Q a)
      → ((a : A) → Q a → Keeps P (f a))
      → Keeps P (query call >>= λ r. from_result convert r >>= f)
  unfolding ◌>>=◌ query continue from_result pure fail
  Keeps-read {A = A} {B = B} Q convert call f k q kf = record {
    at = λ self h.
        after self (call self.repository).0 (call self.repository).1 (k self h) (q self h);
  }
    where
      after :
          (self : TrackerApplication S) (r : Result RepositoryError A) (s : S)
          → P (record self { repository = s })
          → ((a : A) → r ≡ ok a → Q a)
          → P (continue (from_result convert r (record self { repository = s })) f).1
      after self (ok a) s h q = (kf a (q a refl)).at (record self { repository = s }) h
      after self (err error) s h q = h
