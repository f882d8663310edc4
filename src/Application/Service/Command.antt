-- ===== src/Application/Service/Command.antt =====
-- The methods of `TrackerApplication` as commands: a command takes the application and returns its
-- result and the application behind it; `?` is a bind.
pub mod Keeps
use time_tracker.Prelude.{Result, ok, err}
use time_tracker.Application.Error.{ApplicationError}
use time_tracker.Application.Repository.{RepositoryError}
use time_tracker.Application.Service.{TrackerApplication}

abbrev pub Command : Type 0 → Type 0 → Type 0
Command S A = TrackerApplication S → Result ApplicationError A × TrackerApplication S

module _ {S : Type 0} where
  unfoldable pub pure : {A : Type 0} → A → Command S A
  pure a self = (ok a, self)

  unfoldable pub fail : {A : Type 0} → ApplicationError → Command S A
  fail error self = (err error, self)

  unfoldable pub modify : (TrackerApplication S → TrackerApplication S) → Command S (Unit {0})
  modify f self = (ok tt, f self)

  -- The rest of a method behind a step.
  unfoldable pub continue :
      {A B : Type 0}
      → Result ApplicationError A × TrackerApplication S
      → (A → Command S B)
      → Result ApplicationError B × TrackerApplication S
  continue (ok a, self) f = f a self
  continue (err error, self) f = (err error, self)

  infixl 5 ◌>>=◌ ◌>>◌
  unfoldable pub ◌>>=◌ : {A B : Type 0} → Command S A → (A → Command S B) → Command S B
  unfolding continue
  ◌>>=◌ m f self = continue (m self) f

  abbrev pub ◌>>◌ : {A B : Type 0} → Command S A → Command S B → Command S B
  m >> k = m >>= λ _. k

  -- `Result` with its `?` and the conversion of its error.
  unfoldable pub from_result : {E A : Type 0} → (E → ApplicationError) → Result E A → Command S A
  unfolding pure fail
  from_result convert (ok a) = pure a
  from_result convert (err error) = fail (convert error)

  -- A call of the repository, with its result as a value.
  unfoldable pub query :
      {A : Type 0} → (S → Result RepositoryError A × S) → Command S (Result RepositoryError A)
  query call self = let (r, s) = call self.repository in (ok r, record self { repository = s })

  -- A method with its result as a value.
  unfoldable pub attempt : {A : Type 0} → Command S A → Command S (Result ApplicationError A)
  attempt m self = let (r, after) = m self in (ok r, after)
