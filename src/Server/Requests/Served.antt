-- ===== src/Server/Requests/Served.antt =====
-- What holds of a server after any sequence of requests.
use time_tracker.Prelude.{
  ℕ, ◌≡◌, refl, sym, subst, inl, inr, Bool-cases, Option, none, some, List, [], ◌∷◌, Result, ok,
  err, is_none, leb, length, arith,
}
use time_tracker.Prelude.Text.{Text}
use time_tracker.Domain.Values.{Instant}
use time_tracker.Domain.TaskName.{TaskNameError}
use time_tracker.Domain.Tracking.{Tracker}
use time_tracker.Application.Error.Failure.{Display}
use time_tracker.Application.Repository.{TrackerRepository}
use time_tracker.Application.Service.{TrackerApplication}
use time_tracker.Application.Service.Catalog.Order.{IsCatalog}
use time_tracker.Application.Service.Requests.Contract.{IsCatalogue}
use time_tracker.Application.Service.Requests.Reload.{Catalogued}
use time_tracker.Remote.Protocol.{Wire}
use time_tracker.Remote.Mutation.{MutationResultDto, MutationDto}
use time_tracker.Server.Errors.{ApiError}
use time_tracker.Server.Core.{
  Core, Receipt, get, evict, evict_front, remember, finish, respond, execute, new,
  idempotency_cache_size,
}
use time_tracker.Server.Core.Bounded.{IsBounded, execute-IsBounded}
use time_tracker.Server.Handler.{Handler}
use time_tracker.Server.Commands.{ServerRequest, guard_of}
use time_tracker.Server.Requests.{operation, handle, serve}
use time_tracker.Server.Requests.Operations.{Holds, operation-Holds}
use time_tracker.Storage.Errors.{Sqlite, StorageError, Field}
use time_tracker.Storage.Invariant.{IsConsistent, empty_database, empty_database-IsConsistent}
use time_tracker.Storage.Repository.{sqlite_repository}
use time_tracker.Storage.Repository.Catalogue.{sqlite_repository-IsCatalogue}

module _ {S : Type 0} where
  remember-app : (r : Receipt) (core : Core S) → (remember r core).app ≡ core.app
  unfolding remember evict evict_front
  remember-app r core = evicted _
    where
      front : (ids : List Text) (core : Core S) → (evict_front ids core).app ≡ core.app
      front [] core = refl
      front (id ∷ ids) core = refl

      evicted : (core : Core S) → (evict core).app ≡ core.app
      evicted core = elim (Bool-cases (leb (length core.completion_order) idempotency_cache_size)) [
        | inl e ↦ rw e refl
        | inr e ↦ rw e (front core.completion_order core)
      ]

module _ {S : Type 0} (repo : TrackerRepository S) (Valid : S → Type 0)
    (laws : IsCatalogue repo Valid) (display : Display) (wire : Wire)
    (name_error : TaskNameError → Text) (period_error : Text) where
  respond-Catalogued :
      (id fingerprint : Text) (closure : Handler S MutationResultDto) (core : Core S)
      → Holds (Catalogued Valid) closure
      → Catalogued Valid core.app
      → Catalogued Valid (respond id fingerprint closure core (get id core.completed)).1.app
  unfolding respond finish
  respond-Catalogued id fingerprint closure core k h =
      go (get id core.completed) (closure core.app) refl (k.at core.app h)
    where
      go :
          (o : Option Receipt) (done : Result ApiError MutationResultDto × TrackerApplication S)
          → closure core.app ≡ done
          → Catalogued Valid done.1
          → Catalogued Valid (respond id fingerprint closure core o).1.app
      go (some r) done e p = h
      go none (err error, app) e p = rw e p
      go none (ok result, app) e p = rw e (subst (Catalogued Valid) (sym (remember-app _ _)) p)

  execute-Catalogued :
      (id fingerprint : Text) (closure : Handler S MutationResultDto) (core : Core S)
      → Holds (Catalogued Valid) closure
      → Catalogued Valid core.app
      → Catalogued Valid (execute wire.parse id fingerprint closure core).1.app
  unfolding execute
  execute-Catalogued id fingerprint closure core k h = elim (Bool-cases (is_none (wire.parse id))) [
    | inl e ↦ rw e h
    | inr e ↦ rw e (respond-Catalogued id fingerprint closure core k h)
  ]

  abbrev pub IsServed : Core S → Type 0
  IsServed core = Catalogued Valid core.app × IsBounded core

  handle-IsServed :
      (fingerprint : ServerRequest → Text) (now : Instant) (request : ServerRequest) (core : Core S)
      → IsServed core
      → IsServed (handle repo display wire name_error period_error fingerprint now request core).1
  unfolding handle
  handle-IsServed fingerprint now request core (c, b) =
      go (operation repo display wire name_error period_error now request) refl
    where
      go :
          (o : Result ApiError (Handler S MutationResultDto))
          → operation repo display wire name_error period_error now request ≡ o
          → IsServed
              (elim o as (λ _. Result ApiError MutationDto × Core S) [
                | err error ↦ (err error, core)
                | ok closure ↦
                    execute wire.parse (guard_of request) (fingerprint request) closure core
              ]).1
      go (err error) e = (c, b)
      go (ok closure) e = (
        execute-Catalogued (guard_of request) (fingerprint request) closure core
            (operation-Holds repo Valid laws display wire name_error period_error now request
              closure e)
            c,
        execute-IsBounded wire.parse (guard_of request) (fingerprint request) closure core b,
      )

  serve-IsServed :
      (fingerprint : ServerRequest → Text) (requests : List (Instant × ServerRequest))
      (core : Core S)
      → IsServed core
      → IsServed (serve repo display wire name_error period_error fingerprint requests core)
  unfolding serve
  serve-IsServed fingerprint [] core h = h
  serve-IsServed fingerprint ((now, request) ∷ rest) core h =
      serve-IsServed fingerprint rest
        (handle repo display wire name_error period_error fingerprint now request core).1
        (handle-IsServed fingerprint now request core h)

module _ ⦃sqlite : Sqlite⦄ (describe : StorageError → List ℕ) (field_text : Field → List ℕ)
    (display : Display) (wire : Wire) (name_error : TaskNameError → Text)
    (period_error : Text) where
  -- A server that starts on an empty database and handles any requests of its command routes, well
  -- formed or not, repeated or not, successful or not: the database stays consistent, the cached task
  -- list has each task once, in the order of the identifiers, and the receipts stay bounded and in
  -- step with the queue.
  pub serve-keeps :
      (fingerprint : ServerRequest → Text) (requests : List (Instant × ServerRequest))
      (tracker : Tracker)
      → let after =
          serve
            (sqlite_repository describe field_text)
            display
            wire
            name_error
            period_error
            fingerprint
            requests
            (new (record { repository = empty_database; tasks = []; tracker = tracker })) in
        IsConsistent after.app.repository × IsCatalog after.app.tasks × IsBounded after
  unfolding new
  serve-keeps fingerprint requests tracker =
      let ((consistent, catalog), bounded) =
        serve-IsServed (sqlite_repository describe field_text) IsConsistent
          (sqlite_repository-IsCatalogue describe field_text) display wire name_error period_error
          fingerprint requests
          (new (record { repository = empty_database; tasks = []; tracker = tracker }))
          (
            (empty_database-IsConsistent, tt),
            record { ordered = refl; separate = tt; bounded = omega arith },
          ) in
      (consistent, catalog, bounded)
