-- ===== src/Server/Requests/Operations.antt =====
-- What the handlers' closures keep of the application, rule by rule.
use time_tracker.Prelude.{
  ◌≡◌, refl, subst, inl, inr, Bool-cases, Option, none, some, Result, ok, err, is_none, differ,
  map_err-eq-ok, bind-eq-ok, ok-injective, transpose_map,
}
use time_tracker.Prelude.Text.{Text}
use time_tracker.Domain.Values.{TaskId, WorklogId, Instant}
use time_tracker.Domain.TaskName.{TaskName, TaskNameError}
use time_tracker.Domain.TaskName.Accepted.{IsName, new-IsName}
use time_tracker.Application.Error.Failure.{Display}
use time_tracker.Application.Repository.{TrackerRepository}
use time_tracker.Application.Service.{TrackerApplication}
use time_tracker.Application.Service.Command.{Command}
use time_tracker.Application.Service.Command.Keeps.{Keeps}
use time_tracker.Application.Service.Requests.Contract.{IsCatalogue}
use time_tracker.Application.Service.Requests.Reload.{Catalogued}
use time_tracker.Application.Service.Requests.TaskCommands.{
  create_task-Keeps, rename_task-Keeps, archive_task-Keeps, compare_and_rename-Keeps,
  compare_and_archive-Keeps, unarchive_task-Keeps, preview-Keeps, archive_inactive-Keeps,
}
use time_tracker.Application.Service.Requests.WorklogCommands.{
  move_worklog-Keeps, correct_worklog-Keeps, delete_worklog-Keeps,
}
use time_tracker.Application.Service.Tracking.Catalogued.{set_active-Keeps, clear_active-Keeps}
use time_tracker.Remote.Protocol.{Wire}
use time_tracker.Remote.Mutation.{MutationResultDto}
use time_tracker.Server.Errors.{ApiError}
use time_tracker.Server.Handler.{Handler, pure, from_result, continue, ◌>>=◌, call}
use time_tracker.Server.Commands.{
  TaskChangeRequest, rename, archive, restore, ArchiveInactiveTasksRequest, WorklogChangeRequest,
  move, correct, DeleteWorklogRequest, ServerRequest, create_task, change_task,
  archive_inactive_tasks, set_tracking, change_worklog, delete_worklog,
}
use time_tracker.Server.Requests.{
  task_id, worklog_id, task_name, inactivity_period, changed_task, change_by, create, change,
  archive_inactive, track, change_worklog_by, delete_by, operation,
}

-- The handler keeps `P`, whether it succeeds or fails.
pub record Holds {S A : Type 0} (P : TrackerApplication S → Type 0) (m : Handler S A) : Type 0 where
  pub at : (app : TrackerApplication S) → P app → P (m app).1

module _ {S : Type 0} (P : TrackerApplication S → Type 0) where
  Holds-result : {A : Type 0} (r : Result ApiError A) → Holds P (from_result r)
  unfolding from_result
  Holds-result r = record { at = λ app h. h }

  Holds-pure : {A : Type 0} (a : A) → Holds P (pure a)
  unfolding pure
  Holds-pure a = record { at = λ app h. h }

  Holds-call :
      {A : Type 0} (display : Display) (m : Command S A) → Keeps P m → Holds P (call display m)
  unfolding call
  Holds-call display m k = record { at = λ app h. k.at app h }

  Holds-bind :
      {A B : Type 0} (m : Handler S A) (f : A → Handler S B)
      → Holds P m
      → ((a : A) → Holds P (f a))
      → Holds P (m >>= f)
  unfolding ◌>>=◌ continue
  Holds-bind {A = A} m f k l = record { at = λ app h. go (m app) (k.at app h) }
    where
      go : (r : Result ApiError A × TrackerApplication S) → P r.1 → P (continue r f).1
      go (ok a, app) h = (l a).at app h
      go (err error, app) h = h

  -- A step behind a value that was parsed may use that it was.
  Holds-parsed :
      {A B : Type 0} (r : Result ApiError A) (f : A → Handler S B)
      → ((a : A) → r ≡ ok a → Holds P (f a))
      → Holds P (from_result r >>= f)
  unfolding from_result ◌>>=◌ continue
  Holds-parsed (ok a) f l = record { at = λ app h. (l a refl).at app h }
  Holds-parsed (err error) f l = record { at = λ app h. h }

module _ {S : Type 0} (repo : TrackerRepository S) (Valid : S → Type 0)
    (laws : IsCatalogue repo Valid) (display : Display) (wire : Wire)
    (name_error : TaskNameError → Text) (period_error : Text) where
  abbrev pub P : TrackerApplication S → Type 0
  P app = Catalogued Valid app

  abbrev pub operate : Instant → ServerRequest → Result ApiError (Handler S MutationResultDto)
  operate = operation repo display wire name_error period_error

  parsed-IsName :
      (raw : Text) (name : TaskName)
      → task_name repo display wire name_error period_error raw ≡ ok name
      → IsName name
  unfolding task_name
  parsed-IsName raw name e = (new-IsName raw name (map_err-eq-ok _ _ e)).0

  changed-Holds :
      (id : TaskId) → Holds P (changed_task repo display wire name_error period_error id)
  unfolding changed_task
  changed-Holds id = record { at = λ app h. h }

  change_by-Holds :
      (id : TaskId) (request : TaskChangeRequest)
      → Holds P (change_by repo display wire name_error period_error id request)
  unfolding change_by
  change_by-Holds id (rename (some expected) name at request_id) =
      Holds-bind P _ _ (Holds-result P _) λ reviewed. Holds-parsed P _ _ λ chosen e.
        Holds-call P display _ (
          compare_and_rename-Keeps repo Valid laws id reviewed chosen at
            (parsed-IsName name chosen e))
  change_by-Holds id (rename none name at request_id) = Holds-parsed P _ _ λ chosen e.
      Holds-call P display _
        (rename_task-Keeps repo Valid laws id chosen at (parsed-IsName name chosen e))
  change_by-Holds id (archive (some expected) at request_id) =
      Holds-bind P _ _ (Holds-result P _) λ reviewed.
        Holds-call P display _ (compare_and_archive-Keeps repo Valid laws id reviewed at)
  change_by-Holds id (archive none at request_id) =
      Holds-call P display _ (archive_task-Keeps repo Valid laws id at)
  change_by-Holds id (restore at request_id) =
      Holds-call P display _ (unarchive_task-Keeps repo Valid laws id at)

  archive_inactive-Holds :
      (now : Instant) (request : ArchiveInactiveTasksRequest)
      → Holds P (archive_inactive repo display wire name_error period_error now request)
  unfolding archive_inactive inactivity_period
  archive_inactive-Holds now request =
      Holds-bind P _ _ (Holds-bind P _ _ (Holds-result P _) λ _. Holds-result P _) λ period.
        Holds-bind P _ _
          (Holds-call P display _ (preview-Keeps repo Valid laws request.as_of period))
          λ candidates.
            Holds-bind P _ _
              (Holds-call P display _
                (archive_inactive-Keeps repo Valid laws _ request.as_of period))
              λ archived. Holds-pure P _

  track-Holds :
      (at : Instant) (desired : Option TaskId) (new_id expected : Option WorklogId)
      → Holds P (track repo display wire name_error period_error at desired new_id expected)
  unfolding track
  track-Holds at (some desired) (some new_id) expected =
      Holds-bind P _ _
        (Holds-call P display _
          (set_active-Keeps repo Valid laws desired new_id (some expected) at))
        λ outcome. Holds-pure P _
  track-Holds at none none (some active) =
      Holds-bind P _ _ (Holds-call P display _ (clear_active-Keeps repo Valid laws active at))
        λ outcome. Holds-pure P _
  track-Holds at (some desired) none expected = Holds-result P _
  track-Holds at none (some new_id) expected = Holds-result P _
  track-Holds at none none none = Holds-result P _

  change_worklog-Holds :
      (id : WorklogId) (request : WorklogChangeRequest)
      → Holds P (change_worklog_by repo display wire name_error period_error id request)
  unfolding change_worklog_by
  change_worklog-Holds id (move source expected destination request_id) =
      Holds-bind P _ _ (Holds-result P _) λ from_id. Holds-bind P _ _ (Holds-result P _) λ to_id.
        Holds-bind P _ _
          (Holds-call P display _ (move_worklog-Keeps repo Valid laws id from_id expected to_id))
          λ worklog. Holds-pure P _
  change_worklog-Holds id (correct expected replacement at request_id) =
      Holds-bind P _ _
        (Holds-call P display _ (correct_worklog-Keeps repo Valid laws id expected replacement at))
        λ worklog. Holds-pure P _

  delete-Holds :
      (id : WorklogId) (request : DeleteWorklogRequest)
      → Holds P (delete_by repo display wire name_error period_error id request)
  unfolding delete_by
  delete-Holds id request = Holds-bind P _ _ (Holds-result P _) λ expected.
      Holds-bind P _ _
        (Holds-call P display _ (
          delete_worklog-Keeps repo Valid laws id expected
            (record { start = request.expected_start; end = some request.expected_end })))
        λ worklog. Holds-pure P _

  pub operation-Holds :
      (now : Instant) (request : ServerRequest) (closure : Handler S MutationResultDto)
      → operate now request ≡ ok closure
      → Holds P closure
  unfolding operation create change
  operation-Holds now (create_task body) closure h =
      let (id, _, r) =
        bind-eq-ok (task_id repo display wire name_error period_error body.task_id) _ h in
      let (name, e, r') =
        bind-eq-ok (task_name repo display wire name_error period_error body.name) _ r in
      subst (Holds P) (ok-injective r') (
        Holds-bind P _ _
          (Holds-call P display _ (
            create_task-Keeps repo Valid laws id name body.occurred_at
              (parsed-IsName body.name name e)))
          λ task. changed-Holds id)
  operation-Holds now (change_task raw request) closure h =
      let (id, _, r) = bind-eq-ok (task_id repo display wire name_error period_error raw) _ h in
      subst (Holds P) (ok-injective r)
        (Holds-bind P _ _ (change_by-Holds id request) λ task. changed-Holds task.id)
  operation-Holds now (archive_inactive_tasks request) closure h =
      subst (Holds P) (ok-injective h) (archive_inactive-Holds now request)
  operation-Holds now (set_tracking request) closure h =
      let (desired, _, r) =
        bind-eq-ok
          (transpose_map (task_id repo display wire name_error period_error) request.task_id) _ h in
      let (new_id, _, r') =
        bind-eq-ok
          (transpose_map (worklog_id repo display wire name_error period_error) request.worklog_id)
          _ r in
      let (expected, _, r'') =
        bind-eq-ok
          (transpose_map (worklog_id repo display wire name_error period_error)
            request.expected_active)
          _ r' in
      elim (Bool-cases (differ (is_none desired) (is_none new_id))) [
        | inl e ↦ absurd (cc (rw e at r''))
        | inr e ↦
            subst (Holds P) (ok-injective (rw e at r''))
              (track-Holds request.occurred_at desired new_id expected)
      ]
  operation-Holds now (change_worklog raw request) closure h =
      let (id, _, r) = bind-eq-ok (worklog_id repo display wire name_error period_error raw) _ h in
      subst (Holds P) (ok-injective r) (change_worklog-Holds id request)
  operation-Holds now (delete_worklog raw request) closure h =
      let (id, _, r) = bind-eq-ok (worklog_id repo display wire name_error period_error raw) _ h in
      subst (Holds P) (ok-injective r) (delete-Holds id request)
