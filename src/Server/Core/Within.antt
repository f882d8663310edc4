-- ===== src/Server/Core/Within.antt =====
-- A receipt and how many newer ones there are: what a run of commands makes of them.
use time_tracker.Prelude.{
  ℕ, suc, ◌+◌, ◌≤◌, ◌<◌, ◌≡◌, refl, sym, ap, ◌∙◌, subst, inl, inr, Option, none, some, List, [],
  ◌∷◌, ◌++◌, Result, ok, err, leb, is_none, length, Bool-cases, arith,
}
use time_tracker.Prelude.Text.{Text}
use time_tracker.Application.Service.{TrackerApplication}
use time_tracker.Remote.Mutation.{MutationResultDto}
use time_tracker.Server.Errors.{ApiError}
use time_tracker.Server.Core.{
  Receipt, Core, Operation, receipt_of, get, finish, respond, execute, run, idempotency_cache_size,
}
use time_tracker.Server.Core.Receipts.{Separate, length-append, append_assoc}
use time_tracker.Server.Core.Bounded.{
  IsBounded, holding, core_eq, trim, remember_lem, execute-IsBounded,
}

-- The receipt is there, with at most so many newer ones.
pub record IsWithin (r : Receipt) (newer : ℕ) (rs : List Receipt) : Type 0 where
  pub before : List Receipt
  pub after : List Receipt
  pub split : rs ≡ before ++ (r ∷ after)
  pub few : length after ≤ newer

older : (r : Receipt) (n : ℕ) (rs : List Receipt) → IsWithin r n rs → IsWithin r (suc n) rs
older r n rs w = record {
  before = w.before;
  after = w.after;
  split = w.split;
  few = ground (arith, w.few);
}

trim-split :
    (x r : Receipt) (before after : List Receipt)
    → suc (length after) < idempotency_cache_size
    → (before' : List Receipt) × (trim (before ++ (r ∷ (after ++ (x ∷ []))))
        ≡ before' ++ (r ∷ (after ++ (x ∷ []))))
trim-split x r [] after h = ([], rw (length-append after (x ∷ [])) (ground arith))
trim-split x r (p ∷ ps) after h =
    elim (Bool-cases
      (leb (suc (length (ps ++ (r ∷ (after ++ (x ∷ [])))))) idempotency_cache_size)) [
        | inl e ↦ (p ∷ ps, rw e)
        | inr e ↦ (ps, rw e)
      ]

append-IsWithin :
    (x r : Receipt) (n : ℕ) (rs : List Receipt)
    → suc n < idempotency_cache_size
    → IsWithin r n rs
    → IsWithin r (suc n) (trim (rs ++ (x ∷ [])))
append-IsWithin x r n rs h w =
    let (before, e) = trim-split x r w.before w.after (ground (arith, w.few)) in
    record {
      before = before;
      after = w.after ++ (x ∷ []);
      split =
          ap (λ ss. trim (ss ++ (x ∷ []))) w.split
          ∙ ap trim (append_assoc w.before (r ∷ w.after) (x ∷ []))
          ∙ e;
      few = rw (length-append w.after (x ∷ [])) (ground (arith, w.few));
    }

module _ {S : Type 0} where
  respond-IsWithin :
      (r : Receipt) (n : ℕ) (id fingerprint : Text) (operation : Operation S)
      (app : TrackerApplication S) (rs : List Receipt)
      → Separate rs
      → suc n < idempotency_cache_size
      → IsWithin r n rs
      → IsWithin r
          (suc n)
          (respond id fingerprint operation (holding app rs) (get id rs)).1.completed
  unfolding respond finish
  respond-IsWithin r n id fingerprint operation app rs s h w =
      go (get id rs) refl (operation app) refl
    where
      go :
          (o : Option Receipt)
          → get id rs ≡ o
          → (done : Result ApiError MutationResultDto × TrackerApplication S) → operation app ≡ done
          → IsWithin r (suc n) (respond id fingerprint operation (holding app rs) o).1.completed
      go (some x) e done q = older r n rs w
      go none e (err error, after) q = rw q (older r n rs w)
      go none e (ok result, after) q =
          rw (q, remember_lem (receipt_of id fingerprint result) after rs s e)
            (append-IsWithin _ r n rs h w)

module _ {S : Type 0} (parse : Text → Option ℕ) where
  execute-IsWithin :
      (r : Receipt) (n : ℕ) (id fingerprint : Text) (operation : Operation S) (core : Core S)
      → IsBounded core
      → suc n < idempotency_cache_size
      → IsWithin r n core.completed
      → IsWithin r (suc n) (execute parse id fingerprint operation core).1.completed
  unfolding execute
  execute-IsWithin r n id fingerprint operation core b h w =
      elim (Bool-cases (is_none (parse id))) [
        | inl e ↦ rw e (older r n core.completed w)
        | inr e ↦ rw e (
            subst
              (λ (c : Core S).
                IsWithin r (suc n)
                  (respond id fingerprint operation c (get id core.completed)).1.completed)
              (sym (core_eq core b))
              (respond-IsWithin r n id fingerprint operation core.app core.completed b.separate h
                w))
      ]

  pub run-IsWithin :
      (r : Receipt) (n : ℕ) (commands : List (Text × Text × Operation S)) (core : Core S)
      → IsBounded core
      → n + length commands < idempotency_cache_size
      → IsWithin r n core.completed
      → IsBounded (run parse commands core)
        × IsWithin r (n + length commands) (run parse commands core).completed
  unfolding run
  run-IsWithin r n [] core b h w = (b, subst (λ m. IsWithin r m core.completed) (omega arith) w)
  run-IsWithin r n ((id, fingerprint, operation) ∷ rest) core b h w =
      let (b', w') =
        run-IsWithin r (suc n) rest (execute parse id fingerprint operation core).1
          (execute-IsBounded parse id fingerprint operation core b) (omega arith)
          (execute-IsWithin r n id fingerprint operation core b (omega arith) w) in
      (
        b',
        subst
            (λ m.
              IsWithin r m
                (run parse rest (execute parse id fingerprint operation core).1).completed)
            (omega arith) w',
      )

pub newest : (r : Receipt) (rs : List Receipt) → IsWithin r 0 (trim (rs ++ (r ∷ [])))
newest r [] = record { before = []; after = []; split = refl; few = omega arith }
newest r (p ∷ ps) = elim (Bool-cases (leb (suc (length (ps ++ (r ∷ [])))) idempotency_cache_size)) [
  | inl e ↦ record { before = p ∷ ps; after = []; split = rw e; few = omega arith }
  | inr e ↦ record { before = ps; after = []; split = rw e; few = omega arith }
]
