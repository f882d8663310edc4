-- ===== src/Server/Core/Replay.antt =====
-- A command that is sent again, because its answer was lost.
use time_tracker.Prelude.{
  ℕ, ◌<◌, ◌≡◌, refl, sym, ap, ◌∙◌, subst, inl, inr, true, false, Option, none, some, List, Result,
  ok, err, is_none, length, Bool-cases, arith, list_eq, list_eq_refl, ok-injective,
}
use time_tracker.Prelude.Text.{Text}
use time_tracker.Application.Service.{TrackerApplication}
use time_tracker.Remote.Mutation.{MutationResultDto, MutationDto}
use time_tracker.Server.Errors.{ApiError}
use time_tracker.Server.Core.{
  Receipt, Core, Operation, receipt_of, get, finish, respond, execute, run, replay,
  idempotency_cache_size,
}
use time_tracker.Server.Core.Receipts.{Separate, get_at}
use time_tracker.Server.Core.Bounded.{IsBounded, holding, core_eq, remember_lem, execute-IsBounded}
use time_tracker.Server.Core.Within.{IsWithin, newest, run-IsWithin}

module _ {S : Type 0} where
  accepted :
      (id fingerprint : Text) (operation : Operation S) (app : TrackerApplication S)
      (rs : List Receipt) (response : MutationDto) (after : Core S)
      → Separate rs
      → respond id fingerprint operation (holding app rs) (get id rs) ≡ (ok response, after)
      → response.replayed ≡ false
      → (r : Receipt) × (r.request_id ≡ id)
        × (r.fingerprint ≡ fingerprint)
        × (r.response ≡ response)
        × IsWithin r 0 after.completed
  unfolding respond finish replay
  accepted id fingerprint operation app rs response after s h p =
      go (get id rs) refl (operation app) refl h
    where
      go :
          (o : Option Receipt)
          → get id rs ≡ o
          → (done : Result ApiError MutationResultDto × TrackerApplication S) → operation app ≡ done
          → respond id fingerprint operation (holding app rs) o ≡ (ok response, after)
          → (r : Receipt) × (r.request_id ≡ id)
            × (r.fingerprint ≡ fingerprint)
            × (r.response ≡ response)
            × IsWithin r 0 after.completed
      go (some r) e done q h = elim (Bool-cases (list_eq r.fingerprint fingerprint)) [
        | inl t ↦
            let given : replay fingerprint r ≡ ok response = ap (λ x. x.0) h in
            let same = ok-injective {E = ApiError} (rw t at given) in
            absurd (cc (ap (λ (d : MutationDto). d.replayed) same, p))
        | inr t ↦
            let given : replay fingerprint r ≡ ok response = ap (λ x. x.0) h in
            absurd (cc (rw t at given))
      ]
      go none e (err error, later) q h =
          let failed : err error ≡ ok response = ap (λ x. x.0) (rw q at h) in absurd (cc failed)
      go none e (ok result, later) q h =
          let r = receipt_of id fingerprint result in
          let done = rw q at h in
          (
            r,
            refl,
            refl,
            ok-injective {E = ApiError} (ap (λ x. x.0) done),
            subst (λ (c : Core S). IsWithin r 0 c.completed)
                (sym (remember_lem r later rs s e) ∙ ap (λ x. x.1) done) (newest r rs),
          )

module _ {S : Type 0} (parse : Text → Option ℕ) where
  resent :
      (id fingerprint : Text) (operation : Operation S) (core : Core S) (r : Receipt)
      → is_none (parse id) ≡ false
      → get id core.completed ≡ some r
      → r.fingerprint ≡ fingerprint
      → execute parse id fingerprint operation core
        ≡ (ok (record r.response { replayed = true }), core)
  unfolding execute respond replay
  resent id fingerprint operation core r v g e = rw (v, g, e, list_eq_refl fingerprint)

  first :
      (id fingerprint : Text) (operation : Operation S) (core : Core S) (response : MutationDto)
      (after : Core S)
      → IsBounded core
      → execute parse id fingerprint operation core ≡ (ok response, after)
      → response.replayed ≡ false
      → (is_none (parse id) ≡ false)
        × ((r : Receipt) × (r.request_id ≡ id)
            × (r.fingerprint ≡ fingerprint)
            × (r.response ≡ response)
            × IsWithin r 0 after.completed)
  unfolding execute
  first id fingerprint operation core response after b h p =
      elim (Bool-cases (is_none (parse id))) [
        | inl e ↦ let failed : err _ ≡ ok response = ap (λ x. x.0) (rw e at h) in absurd (cc failed)
        | inr e ↦ (
          e,
          accepted id fingerprint operation core.app core.completed response after b.separate
              (subst
                (λ (c : Core S).
                  respond id fingerprint operation c (get id core.completed) ≡ (ok response, after))
                (core_eq core b) (rw e at h))
              p,
        )
      ]

  -- A command that a server has carried out and that is sent again, with fewer than 1024 commands
  -- in between, is answered as it was the first time, marked as a replay, and changes nothing: its
  -- operation is not run again.
  pub execute-replays :
      (id fingerprint : Text) (operation : Operation S) (core : Core S) (response : MutationDto)
      (after : Core S) (commands : List (Text × Text × Operation S))
      → IsBounded core
      → execute parse id fingerprint operation core ≡ (ok response, after)
      → response.replayed ≡ false
      → length commands < idempotency_cache_size
      → execute parse id fingerprint operation (run parse commands after)
        ≡ (ok (record response { replayed = true }), run parse commands after)
  execute-replays id fingerprint operation core response after commands b h p few =
      let (v, (r, same_id, same, answer, w)) =
        first id fingerprint operation core response after b h p in
      let kept =
        subst IsBounded (ap (λ x. x.1) h)
          (execute-IsBounded parse id fingerprint operation core b) in
      let (b', w') = run-IsWithin parse r 0 commands after kept (omega arith) w in
      let found : get r.request_id (run parse commands after).completed ≡ some r =
        rw w'.split (get_at w'.before r w'.after (subst Separate w'.split b'.separate)) in
      resent id fingerprint operation (run parse commands after) r v
        (subst (λ i. get i (run parse commands after).completed ≡ some r) same_id found) same
      ∙ replayed answer (run parse commands after)
    where
      pair : MutationDto → Core S → Result ApiError MutationDto × Core S
      pair d core = (ok (record d { replayed = true }), core)

      replayed :
          {d : MutationDto} → d ≡ response → (core : Core S) → pair d core ≡ pair response core
      replayed e core = ap (λ d. pair d core) e
