-- ===== src/Application/Service/Requests/TaskCommands.antt =====
-- The commands on tasks keep the cached task list in order.
use time_tracker.Prelude.{Option, none, some, List, Result, ok, err}
use time_tracker.Domain.Values.{TaskId, Instant}
use time_tracker.Domain.TaskName.{TaskName}
use time_tracker.Domain.TaskName.Accepted.{IsName}
use time_tracker.Domain.Task.{Task}
use time_tracker.Domain.Inactivity.{InactivityPeriod}
use time_tracker.Application.Timestamps.{canonical_timestamp}
use time_tracker.Application.Model.{TaskListItem, InactiveTaskArchive}
use time_tracker.Application.Error.{ApplicationError, domain, repository}
use time_tracker.Application.Repository.{RepositoryError, TrackerRepository}
use time_tracker.Application.Service.Command.{Command, pure, query, ◌>>=◌, ◌>>◌}
use time_tracker.Application.Service.Command.Keeps.{
  Keeps, Keeps-pure, Keeps-from_result, Keeps-bind, Keeps-query, Keeps-read,
}
use time_tracker.Application.Service.Catalog.{
  replace_task, replace_tasks, adopt_task_item, without_task, update_tasks, adopt_tracking_read,
  task_failure_with_recovery,
}
use time_tracker.Application.Service.Catalog.Order.{
  IsCatalog, sort-IsCatalog, replace_task-IsCatalog, replace_tasks-IsCatalog,
  adopt_task_item-IsCatalog, without_task-IsCatalog,
}
use time_tracker.Application.Service.Tasks.{
  archive_error, read_task_item, refresh_task_catalog, refresh_tracking_resource,
  create_task_with_id, rename_task, finish_archive, archive_task, rename_task_with_expected_name,
  archive_task_with_expected_name, unarchive_task, preview_inactive_tasks_with_period,
  archive_inactive_tasks_with_period,
}
use time_tracker.Application.Service.Requests.Contract.{Preserves, Lists, IsCatalogue}
use time_tracker.Application.Service.Requests.Reload.{
  Catalogued, update-Keeps, tracker-Keeps, query-Keeps, read-Keeps, refresh-Keeps, after_task-Keeps,
  task_failure-Keeps,
}

module _ {S : Type 0} (repo : TrackerRepository S) (Valid : S → Type 0)
    (laws : IsCatalogue repo Valid) where
  -- A command that begins with a call of the repository.
  pub call-Keeps :
      {A B : Type 0} (call : S → Result RepositoryError A × S)
      (f : Result RepositoryError A → Command S B)
      → Preserves Valid call
      → ((r : Result RepositoryError A) → Keeps (Catalogued Valid) (f r))
      → Keeps (Catalogued Valid) (query call >>= f)
  call-Keeps call f k kf =
      Keeps-bind (Catalogued Valid) _ _
        (Keeps-query (Catalogued Valid) call (query-Keeps Valid call k)) kf

  stored-Keeps :
      (task : Task) → Keeps (Catalogued Valid) (update_tasks (replace_task task) >> pure task)
  stored-Keeps task =
      Keeps-bind (Catalogued Valid) _ _
        (update-Keeps Valid (replace_task task) (replace_task-IsCatalog task))
        λ _. Keeps-pure (Catalogued Valid) task

  pub read_task_item-Keeps : (id : TaskId) → Keeps (Catalogued Valid) (read_task_item repo id)
  unfolding read_task_item
  read_task_item-Keeps id = call-Keeps (repo.load_task_item id) _ (laws.load_task_item id) λ found.
      Keeps-bind (Catalogued Valid) _ _ (Keeps-from_result (Catalogued Valid) repository found)
        λ item.
          Keeps-bind (Catalogued Valid) _ _ (update-Keeps Valid _ (λ items c. adopted item items c))
            λ _. Keeps-pure (Catalogued Valid) item
    where
      adopted :
          (o : Option TaskListItem) (items : List TaskListItem)
          → IsCatalog items
          → IsCatalog
              (elim o [ some one ↦ adopt_task_item one items | none ↦ without_task id items ])
      adopted none items c = without_task-IsCatalog id items c
      adopted (some one) items c = adopt_task_item-IsCatalog one items c

  pub refresh_task_catalog-Keeps : Keeps (Catalogued Valid) (refresh_task_catalog repo)
  unfolding refresh_task_catalog
  refresh_task_catalog-Keeps =
      Keeps-read (Catalogued Valid) Lists repository repo.load_task_catalog _
        (query-Keeps Valid repo.load_task_catalog laws.load_task_catalog)
        (λ self h. laws.catalog_lists self.repository h.0)
        λ items d. update-Keeps Valid _ (λ _ _. sort-IsCatalog items d)

  pub refresh_tracking-Keeps : Keeps (Catalogued Valid) (refresh_tracking_resource repo)
  unfolding refresh_tracking_resource
  refresh_tracking-Keeps = call-Keeps repo.active_worklog _ laws.active_worklog λ r.
      Keeps-bind (Catalogued Valid) _ _ (Keeps-from_result (Catalogued Valid) repository r) λ w.
        Keeps-bind (Catalogued Valid) _ _ (Keeps-from_result (Catalogued Valid) domain _)
          λ tracker. tracker-Keeps Valid tracker

  pub create_task-Keeps :
      (id : TaskId) (name : TaskName) (at : Instant)
      → IsName name
      → Keeps (Catalogued Valid) (create_task_with_id repo id name at)
  unfolding create_task_with_id
  create_task-Keeps id name at n =
      call-Keeps _ _ (laws.create_task id name (canonical_timestamp at) n) λ r.
        Keeps-bind (Catalogued Valid) _ _ (Keeps-from_result (Catalogued Valid) repository r)
          λ _. stored-Keeps _

  pub rename_task-Keeps :
      (id : TaskId) (name : TaskName) (at : Instant)
      → IsName name
      → Keeps (Catalogued Valid) (rename_task repo id name at)
  unfolding rename_task
  rename_task-Keeps id name at n =
      call-Keeps _ _ (laws.rename_task id name (canonical_timestamp at) n) λ r.
        Keeps-bind (Catalogued Valid) _ _ (Keeps-from_result (Catalogued Valid) repository r)
          λ task. stored-Keeps task

  finish-Keeps :
      (convert : RepositoryError → ApplicationError) (r : Result RepositoryError Task)
      → Keeps (Catalogued Valid) (finish_archive repo convert r)
  unfolding finish_archive
  finish-Keeps convert (ok task) =
      Keeps-bind (Catalogued Valid) _ _
        (update-Keeps Valid (replace_task task) (replace_task-IsCatalog task))
        λ _.
          Keeps-bind (Catalogued Valid) _ _ (after_task-Keeps Valid repo laws)
            λ _. Keeps-pure (Catalogued Valid) task
  finish-Keeps convert (err error) = task_failure-Keeps Valid repo laws (convert error)

  pub archive_task-Keeps :
      (id : TaskId) (at : Instant) → Keeps (Catalogued Valid) (archive_task repo id at)
  unfolding archive_task
  archive_task-Keeps id at = Keeps-bind (Catalogued Valid) _ _ (refresh-Keeps Valid repo laws) λ _.
      Keeps-bind (Catalogued Valid) _ _
        (record { at = λ self. (Keeps-from_result (Catalogued Valid) domain _).at self })
        λ _.
          call-Keeps _ _ (laws.archive_task id (canonical_timestamp at))
            (finish-Keeps archive_error)

  pub compare_and_rename-Keeps :
      (id : TaskId) (expected name : TaskName) (at : Instant)
      → IsName name
      → Keeps (Catalogued Valid) (rename_task_with_expected_name repo id expected name at)
  unfolding rename_task_with_expected_name
  compare_and_rename-Keeps id expected name at n =
      call-Keeps _ _ (laws.compare_and_rename_task id expected name (canonical_timestamp at) n) both
    where
      both :
          (r : Result RepositoryError Task)
          → Keeps (Catalogued Valid) (elim r as (λ _. Command S Task) [
            | ok task ↦ update_tasks (replace_task task) >> pure task
            | err error ↦ task_failure_with_recovery repo (repository error)
          ])
      both (ok task) = stored-Keeps task
      both (err error) = task_failure-Keeps Valid repo laws (repository error)

  pub compare_and_archive-Keeps :
      (id : TaskId) (expected : TaskName) (at : Instant)
      → Keeps (Catalogued Valid) (archive_task_with_expected_name repo id expected at)
  unfolding archive_task_with_expected_name
  compare_and_archive-Keeps id expected at =
      Keeps-bind (Catalogued Valid) _ _ (refresh-Keeps Valid repo laws) λ _.
        call-Keeps _ _ (laws.compare_and_archive_task id expected (canonical_timestamp at))
          (finish-Keeps archive_error)

  pub unarchive_task-Keeps :
      (id : TaskId) (at : Instant) → Keeps (Catalogued Valid) (unarchive_task repo id at)
  unfolding unarchive_task
  unarchive_task-Keeps id at =
      Keeps-bind (Catalogued Valid) _ _ (refresh-Keeps Valid repo laws) λ _.
        call-Keeps _ _ (laws.unarchive_task id (canonical_timestamp at)) (finish-Keeps repository)

  pub preview-Keeps :
      (as_of : Instant) (period : InactivityPeriod)
      → Keeps (Catalogued Valid) (preview_inactive_tasks_with_period repo as_of period)
  unfolding preview_inactive_tasks_with_period
  preview-Keeps as_of period =
      call-Keeps _ _ (laws.preview_inactive_tasks_with_period (canonical_timestamp as_of) period)
        λ r.
          Keeps-bind (Catalogued Valid) _ _ (Keeps-from_result (Catalogued Valid) repository r)
            λ preview. Keeps-bind (Catalogued Valid) _ _ (read-Keeps Valid preview.tracking) λ _.
              Keeps-bind (Catalogued Valid) _ _
                (update-Keeps Valid (replace_tasks preview.tasks)
                  (replace_tasks-IsCatalog preview.tasks))
                λ _. Keeps-pure (Catalogued Valid) _

  pub archive_inactive-Keeps :
      (ids : List TaskId) (as_of : Instant) (period : InactivityPeriod)
      → Keeps (Catalogued Valid) (archive_inactive_tasks_with_period repo ids as_of period)
  unfolding archive_inactive_tasks_with_period
  archive_inactive-Keeps ids as_of period =
      call-Keeps _ _
        (laws.archive_inactive_tasks_with_period ids (canonical_timestamp as_of) period) both
    where
      archived-Keeps :
          (archive : InactiveTaskArchive)
          → Keeps (Catalogued Valid) (do
            adopt_tracking_read archive.tracking
            update_tasks (replace_tasks archive.tasks)
            pure archive.tasks)
      archived-Keeps archive =
          Keeps-bind (Catalogued Valid) _ _ (read-Keeps Valid archive.tracking) λ _.
            Keeps-bind (Catalogued Valid) _ _
              (update-Keeps Valid (replace_tasks archive.tasks)
                (replace_tasks-IsCatalog archive.tasks))
              λ _. Keeps-pure (Catalogued Valid) _

      both :
          (r : Result RepositoryError InactiveTaskArchive)
          → Keeps (Catalogued Valid) (elim r as (λ _. Command S (List Task)) [
            | ok archive ↦ do
              adopt_tracking_read archive.tracking
              update_tasks (replace_tasks archive.tasks)
              pure archive.tasks
            | err error ↦ task_failure_with_recovery repo (repository error)
          ])
      both (ok archive) = archived-Keeps archive
      both (err error) = task_failure-Keeps Valid repo laws (repository error)
