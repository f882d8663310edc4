-- ===== src/Server/Core/Bounded.antt =====
-- What holds of the server's receipts after any sequence of commands.
use time_tracker.Prelude.{
  ℕ, suc, ◌≤◌, ◌≡◌, ◌⊎◌, refl, sym, ap, subst, inl, inr, true, false, Option, none, some, List, [],
  ◌∷◌, ◌++◌, Result, ok, err, leb, is_none, if◌then◌else◌, length, Bool-cases, arith,
}
use time_tracker.Prelude.Text.{Text}
use time_tracker.Application.Service.{TrackerApplication}
use time_tracker.Remote.Mutation.{MutationResultDto}
use time_tracker.Server.Errors.{ApiError}
use time_tracker.Server.Core.{
  Receipt, Core, Operation, get, new, evict, evict_front, remember, finish, respond, execute, run,
  idempotency_cache_size,
}
use time_tracker.Server.Core.Receipts.{
  Separate, ids_of, insert_fresh, remove-first, Separate-append, ids_of-append, length-ids_of,
  length-append,
}

-- The map and the queue agree, no request has two receipts, and there are at most 1024.
pub record IsBounded {S : Type 0} (core : Core S) : Type 0 where
  pub ordered : core.completion_order ≡ ids_of core.completed
  pub separate : Separate core.completed
  pub bounded : length core.completed ≤ idempotency_cache_size

-- What eviction leaves.
abbrev pub trim : List Receipt → List Receipt
trim [] = []
trim (r ∷ rs) = if leb (suc (length rs)) idempotency_cache_size then r ∷ rs else rs

trim-Separate : (rs : List Receipt) → Separate rs → Separate (trim rs)
trim-Separate [] s = tt
trim-Separate (r ∷ rs) (f, s) = elim (Bool-cases (leb (suc (length rs)) idempotency_cache_size)) [
  | inl e ↦ rw e (f, s)
  | inr e ↦ rw e s
]

trim-length :
    (rs : List Receipt)
    → length rs ≤ suc idempotency_cache_size
    → length (trim rs) ≤ idempotency_cache_size
trim-length [] h = omega arith
trim-length (r ∷ rs) h = ground arith

module _ {S : Type 0} where
  -- The core with these receipts, its queue in their order.
  abbrev pub holding : TrackerApplication S → List Receipt → Core S
  holding app rs = record { app = app; completed = rs; completion_order = ids_of rs }

  pub core_eq : (core : Core S) → IsBounded core → core ≡ holding core.app core.completed
  core_eq core b = ap (λ (ids : List Text). record core { completion_order = ids }) b.ordered

  evict_lem :
      (app : TrackerApplication S) (rs : List Receipt)
      → Separate rs
      → evict (holding app rs) ≡ holding app (trim rs)
  unfolding evict evict_front
  evict_lem app [] s = refl
  evict_lem app (r ∷ rs) (f, s) =
      rw (length-ids_of rs) (go (Bool-cases (leb (suc (length rs)) idempotency_cache_size)))
    where
      go :
          (leb (suc (length rs)) idempotency_cache_size ≡ true)
            ⊎ (leb (suc (length rs)) idempotency_cache_size ≡ false)
          → (if leb (suc (length rs)) idempotency_cache_size
              then holding app (r ∷ rs)
              else evict_front (ids_of (r ∷ rs)) (holding app (r ∷ rs)))
            ≡ holding app (trim (r ∷ rs))
      go (inl e) = rw e
      go (inr e) = rw (e, remove-first r rs f)

  pub remember_lem :
      (r : Receipt) (app : TrackerApplication S) (rs : List Receipt)
      → Separate rs
      → get r.request_id rs ≡ none
      → remember r (holding app rs) ≡ holding app (trim (rs ++ (r ∷ [])))
  unfolding remember
  remember_lem r app rs s f =
      rw (insert_fresh r rs f, sym (ids_of-append rs r))
        (evict_lem app (rs ++ (r ∷ [])) (Separate-append rs r s f))

  holding-IsBounded :
      (app : TrackerApplication S) (rs : List Receipt)
      → Separate rs
      → length rs ≤ idempotency_cache_size
      → IsBounded (holding app rs)
  holding-IsBounded app rs s b = record { ordered = refl; separate = s; bounded = b }

  pub remember-IsBounded :
      (r : Receipt) (app : TrackerApplication S) (rs : List Receipt)
      → Separate rs
      → length rs ≤ idempotency_cache_size
      → get r.request_id rs ≡ none
      → IsBounded (remember r (holding app rs))
  remember-IsBounded r app rs s b f = rw (remember_lem r app rs s f) (
      holding-IsBounded app (trim (rs ++ (r ∷ [])))
        (trim-Separate (rs ++ (r ∷ [])) (Separate-append rs r s f))
        (trim-length (rs ++ (r ∷ [])) (rw (length-append rs (r ∷ [])) (omega arith))))

  respond-IsBounded :
      (id fingerprint : Text) (operation : Operation S) (app : TrackerApplication S)
      (rs : List Receipt)
      → Separate rs
      → length rs ≤ idempotency_cache_size
      → IsBounded (respond id fingerprint operation (holding app rs) (get id rs)).1
  unfolding respond finish
  respond-IsBounded id fingerprint operation app rs s b = go (get id rs) refl (operation app) refl
    where
      go :
          (o : Option Receipt)
          → get id rs ≡ o
          → (done : Result ApiError MutationResultDto × TrackerApplication S) → operation app ≡ done
          → IsBounded (respond id fingerprint operation (holding app rs) o).1
      go (some r) e done q = holding-IsBounded app rs s b
      go none e (err error, after) q = rw q (holding-IsBounded after rs s b)
      go none e (ok result, after) q = rw q (remember-IsBounded _ after rs s b e)

module _ {S : Type 0} (parse : Text → Option ℕ) where
  pub execute-IsBounded :
      (id fingerprint : Text) (operation : Operation S) (core : Core S)
      → IsBounded core
      → IsBounded (execute parse id fingerprint operation core).1
  unfolding execute
  execute-IsBounded id fingerprint operation core b = elim (Bool-cases (is_none (parse id))) [
    | inl e ↦ rw e b
    | inr e ↦ rw e (
        subst
          (λ (c : Core S). IsBounded (respond id fingerprint operation c (get id core.completed)).1)
          (sym (core_eq core b))
          (respond-IsBounded id fingerprint operation core.app core.completed b.separate b.bounded))
  ]

  kept :
      (commands : List (Text × Text × Operation S)) (core : Core S)
      → IsBounded core
      → IsBounded (run parse commands core)
  unfolding run
  kept [] core b = b
  kept ((id, fingerprint, operation) ∷ rest) core b =
      kept rest (execute parse id fingerprint operation core).1
        (execute-IsBounded id fingerprint operation core b)

  -- From its start on, whatever commands a server runs, its receipts stay at most 1024, no request
  -- has two, and the queue of eviction lists exactly the requests that have one.
  pub run-IsBounded :
      (commands : List (Text × Text × Operation S)) (app : TrackerApplication S)
      → IsBounded (run parse commands (new app))
  unfolding new
  run-IsBounded commands app =
      kept commands (new app) (record { ordered = refl; separate = tt; bounded = omega arith })
