-- ===== src/Remote/Creation/Kept.antt =====
-- The request that a failed creation leaves behind.
use time_tracker.Prelude.{
  subst, ◌≡◌, refl, sym, ap, ◌∙◌, ◌⊎◌, inl, inr, Bool, true, false, Option, none, some, Result, ok,
  err,
}
use time_tracker.Prelude.Text.{Text}
use time_tracker.Domain.Values.{TaskId, Instant}
use time_tracker.Domain.TaskName.{TaskName}
use time_tracker.Domain.Task.{Task}
use time_tracker.Application.Timestamps.{canonical_timestamp}
use time_tracker.Application.Error.{ApplicationError}
use time_tracker.Application.Error.Failure.{Display, failure}
use time_tracker.Remote.Protocol.{Wire}
use time_tracker.Remote.Errors.{RemoteError, ErrorDto, map_application_error}
use time_tracker.Remote.Client.{
  CreateTaskRequest, Network, RemoteApplication, Client, ◌>>=◌, ◌>>◌, continue, gets, modify,
  attempt, from_result,
}
use time_tracker.Remote.Session.{begin_command, checked, ensure_version}
use time_tracker.Remote.Creation.{
  create_task, recover_creation, send_creation, is_remote, pending_after, creation_needs_recovery,
  parse_task_id, post_task, finish_task_mutation, set_pending, is_ok,
}
use time_tracker.Remote.Creation.Pending.{begun}
use time_tracker.Remote.Session.Keeps.{
  SameCommand, Keeps, ensure_version-Keeps, checked-Keeps, bind-err,
}

-- A failed creation keeps its request if it may have reached the server, and nothing otherwise.
abbrev pub IsKept : {W : Type 0} → CreateTaskRequest → RemoteApplication W → Type 0
IsKept body after =
    ((after.session.last_write_attempted ≡ true) × (after.pending_create ≡ some body))
    ⊎ ((after.session.last_write_attempted ≡ false) × (after.pending_create ≡ none))

module _ {W : Type 0} (network : Network W) (wire : Wire) (display : Display)
    (describe : RemoteError → Text) (read_error : Text → Option ErrorDto) where
  remembered :
      (body : CreateTaskRequest) (receipt : Bool) (failed : ApplicationError)
      → is_remote (failure display failed).source ≡ true
      → pending_after network wire display describe read_error none body true receipt (err failed)
        ≡ some body
  unfolding pending_after creation_needs_recovery
  remembered body true failed r = refl
  remembered body false failed r = rw r refl

  settled-IsKept :
      (body : CreateTaskRequest) (receipt : Bool) (result : Result ApplicationError Task)
      (before : RemoteApplication W) (attempted : Bool) {after : RemoteApplication W}
      {error : ApplicationError}
      → before.session.last_write_attempted ≡ attempted
      → result ≡ err error
      → record before {
        pending_create =
            pending_after network wire display describe read_error none body attempted receipt
              result;
      }
        ≡ after
      → is_remote (failure display error).source ≡ true
      → IsKept body after
  unfolding pending_after creation_needs_recovery
  settled-IsKept body receipt (ok task) before attempted l h k r = absurd (cc h)
  settled-IsKept body receipt (err failed) before true {error = error} l h k r =
      let same : failed ≡ error = cc in
      inl (
        ap (λ (s : RemoteApplication W). s.session.last_write_attempted) (sym k) ∙ l,
        ap (λ (s : RemoteApplication W). s.pending_create) (sym k)
            ∙ remembered body receipt failed (rw same r),
      )
  settled-IsKept body receipt (err failed) before false l h k r = inr (
    ap (λ (s : RemoteApplication W). s.session.last_write_attempted) (sym k) ∙ l,
    ap (λ (s : RemoteApplication W). s.pending_create) (sym k),
  )

  fresh :
      (self : RemoteApplication W) (name : TaskName) (at : Instant) (generated : TaskId)
      (request_id : Text)
      → self.pending_create ≡ none
      → create_task network wire display describe read_error name at generated request_id self
        ≡ send_creation network wire display describe read_error none
            (record {
              task_id = wire.print generated;
              name = name.text;
              occurred_at = canonical_timestamp at;
              request_id = request_id;
            })
            (begun self)
  unfolding create_task begin_command ◌>>=◌ continue gets modify
  fresh self name at generated request_id p = ap (λ o. command o (begun self)) p
    where
      command : Option CreateTaskRequest → Client W ApplicationError Task
      command pending = elim pending [
        | some body ↦ recover_creation network wire display describe read_error body name
        | none ↦ send_creation network wire display describe read_error none (record {
          task_id = wire.print generated;
          name = name.text;
          occurred_at = canonical_timestamp at;
          request_id = request_id;
        })
      ]

  untouched :
      {A : Type 0} (m : Client W ApplicationError A) (body : CreateTaskRequest)
      (self after : RemoteApplication W) {error : ApplicationError}
      → Keeps m
      → self.session.last_write_attempted ≡ false
      → self.pending_create ≡ none
      → m self ≡ (err error, after)
      → IsKept body after
  untouched m body self after k l p e =
      let (same, kept) = subst (λ q. SameCommand self q.1) e (k self) in inr (same ∙ l, kept ∙ p)

  finished-IsKept :
      (self after : RemoteApplication W) (body : CreateTaskRequest) (id : TaskId)
      {error : ApplicationError}
      → (set_pending (some body)
            >> (attempt (post_task network wire display describe read_error id body) >>= λ sent.
                attempt (finish_task_mutation network wire display describe read_error sent)
                >>= λ finished. gets (λ self. self.session.last_write_attempted) >>= λ attempted.
                    set_pending (
                      pending_after network wire display describe read_error none body attempted
                        (is_ok sent)
                        finished)
                    >> from_result finished))
          self
        ≡ (err error, after)
      → is_remote (failure display error).source ≡ true
      → IsKept body after
  unfolding ◌>>=◌ continue attempt gets modify from_result
  finished-IsKept self after body id h r =
      let sent =
        post_task network wire display describe read_error id body
          (record self { pending_create = some body }) in
      let finished = finish_task_mutation network wire display describe read_error sent.0 sent.1 in
      settled-IsKept body (is_ok sent.0) finished.0 finished.1
        finished.1.session.last_write_attempted refl
        (ap (λ (q : Result ApplicationError Task × RemoteApplication W). q.0) h)
        (ap (λ (q : Result ApplicationError Task × RemoteApplication W). q.1) h) r

  sent-IsKept :
      (self after : RemoteApplication W) (body : CreateTaskRequest) {error : ApplicationError}
      → self.session.last_write_attempted ≡ false
      → self.pending_create ≡ none
      → send_creation network wire display describe read_error none body self ≡ (err error, after)
      → is_remote (failure display error).source ≡ true
      → IsKept body after
  unfolding send_creation
  sent-IsKept self after body l p h r =
      let parse =
        from_result (parse_task_id network wire display describe read_error body.task_id) in
      let check =
        checked (λ error. map_application_error describe read_error error none)
          (ensure_version network) in
      elim (bind-err parse _ h) [
        | inl e ↦ untouched parse body self after (λ self. unfold from_result in (refl, refl)) l p e
        | inr (id, start, e, rest) ↦ elim (bind-err check _ rest) [
          | inl c ↦
              untouched check body start after
                (checked-Keeps network _ _ (ensure_version-Keeps network))
                (ap (λ q. q.1.session.last_write_attempted) (sym e) ∙ unfold from_result in l)
                (ap (λ q. q.1.pending_create) (sym e) ∙ unfold from_result in p) c
          | inr (u, between, c, tail) ↦ finished-IsKept between after body id tail r
        ]
      ]

  -- A creation that starts without a kept request and fails because of the connection or the
  -- protocol keeps its own request if, in the end, it counts as one that may have reached the
  -- server, and keeps none otherwise.
  pub create_task-IsKept :
      (self after : RemoteApplication W) (name : TaskName) (at : Instant) (generated : TaskId)
      (request_id : Text) (error : ApplicationError)
      → self.pending_create ≡ none
      → create_task network wire display describe read_error name at generated request_id self
        ≡ (err error, after)
      → is_remote (failure display error).source ≡ true
      → IsKept
          (record {
            task_id = wire.print generated;
            name = name.text;
            occurred_at = canonical_timestamp at;
            request_id = request_id;
          })
          after
  create_task-IsKept self after name at generated request_id error p h r =
      sent-IsKept (begun self) after _ refl p (sym (fresh self name at generated request_id p) ∙ h)
        r
