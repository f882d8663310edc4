-- ===== src/Server/Handler.antt =====
-- A handler's work on the application of crates/tracker-server: `?` is a bind, and an error of the
-- application is converted.
use time_tracker.Prelude.{Result, ok, err, map_err}
use time_tracker.Application.Error.Failure.{Display}
use time_tracker.Application.Service.{TrackerApplication}
use time_tracker.Application.Service.Command.{Command}
use time_tracker.Server.Errors.{ApiError, api_error}

abbrev pub Handler : Type 0 → Type 0 → Type 0
Handler S A = TrackerApplication S → Result ApiError A × TrackerApplication S

module _ {S : Type 0} where
  unfoldable pub pure : {A : Type 0} → A → Handler S A
  pure a app = (ok a, app)

  unfoldable pub from_result : {A : Type 0} → Result ApiError A → Handler S A
  from_result r app = (r, app)

  unfoldable pub continue :
      {A B : Type 0}
      → Result ApiError A × TrackerApplication S
      → (A → Handler S B)
      → Result ApiError B × TrackerApplication S
  continue (ok a, app) f = f a app
  continue (err error, app) f = (err error, app)

  infixl 5 ◌>>=◌ ◌>>◌
  unfoldable pub ◌>>=◌ : {A B : Type 0} → Handler S A → (A → Handler S B) → Handler S B
  unfolding continue
  ◌>>=◌ m f app = continue (m app) f

  abbrev pub ◌>>◌ : {A B : Type 0} → Handler S A → Handler S B → Handler S B
  m >> k = m >>= λ _. k

  -- A method of the application, with the conversion of its error.
  unfoldable pub call : {A : Type 0} → Display → Command S A → Handler S A
  unfolding api_error
  call display m app = let (r, after) = m app in (map_err (api_error display) r, after)
