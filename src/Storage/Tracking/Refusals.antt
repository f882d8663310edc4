-- ===== src/Storage/Tracking/Refusals.antt =====
-- Why the insert of a worklog fails.
use time_tracker.Prelude.{
  ℕ, ◌≤◌, ◌≡◌, ◌≢◌, refl, sym, ap, subst, ◌⊎◌, inl, inr, Bool, true, not, ◌&&◌, some, List, arith,
  Result, ok, err, ◌>>=◌, map_err, Has, Has-any, Option-cases, is_none, ◌==◌, and-left, and-right,
}
use time_tracker.Prelude.Table.{find_row, Has-find_row, find_row-none}
use time_tracker.Domain.Values.{TaskId, WorklogId}
use time_tracker.Domain.Worklog.{Worklog}
use time_tracker.Storage.Errors.{
  Sqlite, SqlError, StorageError, task_archived, worklog_already_exists, active_worklog_exists,
  task_not_found, constraint, insert_worklog_error, classify_write_error, is_unique_violation,
  is_check_violation, is_foreign_key_violation, is_trigger_violation,
}
use time_tracker.Storage.Schema.{
  TaskRow, WorklogRow, Database, Check, task_key, worklog_key, is_archived_task, is_candidate,
  ends_after_start, overlaps_predecessor, is_nonpositive, ends_before_start, is_second_active,
}
use time_tracker.Storage.Statements.{enforce, insert_worklog_checks}
use time_tracker.Storage.Statements
use time_tracker.Storage.Statements.Enforce.{enforce-err}
use time_tracker.Storage.Schema.Predecessor.{meets, hits, scan_of_predecessor, scan-parts}
use time_tracker.Storage.Mapping.{worklog_row}
use time_tracker.Storage.Tracking.{insert_worklog_on}

-- What the error of a refused insert claims about the database.
abbrev pub IsReason : Database → WorklogRow → StorageError → Type 0
IsReason db new e =
    ((e ≡ task_archived new.task_id)
      × ((t : TaskRow) × Has t db.tasks × (t.id ≡ new.task_id) × (t.archived ≡ true)))
    ⊎ ((e ≡ StorageError.same_task_worklog_overlap new.id)
        × ((s : WorklogRow) × Has s db.worklogs × (s.id ≢ new.id) × (meets new s ≡ true)))
    ⊎ (((error : SqlError) × (e ≡ constraint error))
        × ((end : ℕ) × (new.end_us ≡ some end) × (end ≤ new.start_us)))
    ⊎ ((e ≡ worklog_already_exists new.id)
        × ((s : WorklogRow) × Has s db.worklogs × (s.id ≡ new.id)))
    ⊎ ((e ≡ active_worklog_exists)
        × (is_none new.end_us ≡ true)
        × ((s : WorklogRow) × Has s db.worklogs × (s.id ≢ new.id) × (is_none s.end_us ≡ true)))
    ⊎ ((e ≡ task_not_found new.task_id) × ((t : TaskRow) → Has t db.tasks → t.id ≢ new.task_id))

archived_task :
    (ts : List TaskRow) (id : TaskId)
    → is_archived_task ts id ≡ true
    → (t : TaskRow) × Has t ts × (t.id ≡ id) × (t.archived ≡ true)
unfolding is_archived_task
archived_task ts id h = elim (Option-cases (find_row task_key id ts)) [
  | inl e ↦ let k = rw e at h in absurd (ground arith)
  | inr (t, e) ↦ let (m, q) = Has-find_row task_key id ts t e in (t, m, q, rw e at h)
]

hit_meets : (new s : WorklogRow) → hits new s ≡ true → (s.id ≢ new.id) × (meets new s ≡ true)
unfolding is_candidate ends_after_start meets
hit_meets new s h = ((λ q. ground arith), ground arith)

overlapping :
    (ws : List WorklogRow) (new : WorklogRow)
    → overlaps_predecessor new ws ≡ true
    → (s : WorklogRow) × Has s ws × (s.id ≢ new.id) × (meets new s ≡ true)
overlapping ws new h =
    let (_, found) = scan-parts new ws (scan_of_predecessor new ws h) in
    let (s, m, hit) = Has-any (hits new) ws found in
    let (n, k) = hit_meets new s hit in (s, m, n, k)

nonpositive :
    (new : WorklogRow)
    → is_nonpositive new ≡ true
    → (end : ℕ) × (new.end_us ≡ some end) × (end ≤ new.start_us)
unfolding is_nonpositive
nonpositive new h = elim (Option-cases new.end_us) [
  | inl e ↦ let k = rw e at h in absurd (ground arith)
  | inr (end, e) ↦ let k = rw e at h in (end, e, ground arith)
]

early :
    (new : WorklogRow)
    → ends_before_start new ≡ true
    → (end : ℕ) × (new.end_us ≡ some end) × (end ≤ new.start_us)
unfolding ends_before_start
early new h = elim (Option-cases new.end_us) [
  | inl e ↦ let k = rw e at h in absurd (ground arith)
  | inr (end, e) ↦ let k = rw e at h in (end, e, ground arith)
]

existing :
    (ws : List WorklogRow) (id : WorklogId)
    → not (is_none (find_row worklog_key id ws)) ≡ true
    → (s : WorklogRow) × Has s ws × (s.id ≡ id)
existing ws id h = elim (Option-cases (find_row worklog_key id ws)) [
  | inl e ↦ absurd (ground arith)
  | inr (s, e) ↦ let (m, q) = Has-find_row worklog_key id ws s e in (s, m, q)
]

other_id : (s new : WorklogRow) → not (s.id == new.id) ≡ true → s.id ≢ new.id
other_id s new h = λ q. ground arith

second :
    (ws : List WorklogRow) (new : WorklogRow)
    → is_second_active new ws ≡ true
    → (is_none new.end_us ≡ true)
      × ((s : WorklogRow) × Has s ws × (s.id ≢ new.id) × (is_none s.end_us ≡ true))
unfolding is_second_active
second ws new h =
    let (s, m, k) =
      Has-any (λ (s : WorklogRow). not (s.id == new.id) && is_none s.end_us) ws (and-right _ _ h) in
    (and-left _ _ h, (s, m, other_id s new (and-left _ _ k), and-right _ _ k))

missing :
    (ts : List TaskRow) (id : TaskId)
    → is_none (find_row task_key id ts) ≡ true
    → (t : TaskRow) → Has t ts
    → t.id ≢ id
missing ts id h = find_row-none task_key id ts (ground arith)

map_err-eq-err :
    {E F A : Type 0} (f : E → F) (m : Result E A) {e : F}
    → map_err f m ≡ err e
    → (x : E) × (m ≡ err x) × (f x ≡ e)
map_err-eq-err f (ok a) h = cc
map_err-eq-err f (err x) h = (x, refl, cc)

bind-eq-err :
    {E A B : Type 0} (m : Result E A) (f : A → B) {e : E}
    → (m >>= λ a. ok (f a)) ≡ err e
    → m ≡ err e
bind-eq-err (ok a) f h = cc
bind-eq-err (err x) f h = cc

module _ ⦃sqlite : Sqlite⦄ where
  -- The error that a failed check leads to, with what the check found.
  reason :
      (db : Database) (worklog : Worklog) (x : SqlError)
      → Has (true, x) (insert_worklog_checks db (worklog_row worklog))
      → IsReason db (worklog_row worklog) (insert_worklog_error x worklog)
  unfolding insert_worklog_checks worklog_row insert_worklog_error classify_write_error
      is_unique_violation is_check_violation is_foreign_key_violation is_trigger_violation
  reason db worklog x m = cases m
    where
      new : WorklogRow
      new = worklog_row worklog

      told :
          (y : SqlError)
          → IsReason db (worklog_row worklog) (insert_worklog_error y worklog)
          → x ≡ y
          → IsReason db (worklog_row worklog) (insert_worklog_error x worklog)
      told y r e =
          subst (λ z. IsReason db (worklog_row worklog) (insert_worklog_error z worklog)) (sym e) r

      failed : {b : Bool} {y : SqlError} → ◌≡◌ {A = Check} (true, x) (b, y) → b ≡ true
      failed q = sym (ap (λ (c : Check). c.0) q)

      named : {b : Bool} {y : SqlError} → ◌≡◌ {A = Check} (true, x) (b, y) → x ≡ y
      named q = ap (λ (c : Check). c.1) q

      cases :
          Has (true, x) (insert_worklog_checks db (worklog_row worklog))
          → IsReason db (worklog_row worklog) (insert_worklog_error x worklog)
      cases (inl q) =
          told _ (inl (refl, archived_task db.tasks worklog.task_id (failed q))) (named q)
      cases (inr (inl q)) =
          told _ (inr (inl (refl, overlapping db.worklogs new (failed q)))) (named q)
      cases (inr (inr (inl q))) =
          told _ (inr (inr (inl ((_, refl), nonpositive new (failed q))))) (named q)
      cases (inr (inr (inr (inl q)))) =
          told _ (inr (inr (inl ((_, refl), early new (failed q))))) (named q)
      cases (inr (inr (inr (inr (inl q))))) =
          told _ (inr (inr (inr (inl (refl, existing db.worklogs worklog.id (failed q))))))
            (named q)
      cases (inr (inr (inr (inr (inr (inl q)))))) =
          told _
            (inr (
              inr (
                inr (
                  inr (
                    inl (
                      refl,
                      (second db.worklogs new (failed q)).0,
                      (second db.worklogs new (failed q)).1,
                    ))))))
            (named q)
      cases (inr (inr (inr (inr (inr (inr (inl q))))))) =
          told _ (inr (inr (inr (inr (inr (refl, missing db.tasks worklog.task_id (failed q)))))))
            (named q)
      cases (inr (inr (inr (inr (inr (inr (inr none_left))))))) = absurd none_left

  -- The error of a refused insert is true: its task is archived or missing, another worklog of the
  -- task meets it, it does not end after it starts, its identifier is taken, or it is active like
  -- another one.
  pub insert_worklog_on-IsReason :
      (db : Database) (worklog : Worklog) (e : StorageError)
      → insert_worklog_on db worklog ≡ err e
      → IsReason db (worklog_row worklog) e
  unfolding insert_worklog_on Statements.insert_worklog
  insert_worklog_on-IsReason db worklog e h =
      let (x, refused, same) =
        map_err-eq-err (λ error. insert_worklog_error error worklog)
          (Statements.insert_worklog db (worklog_row worklog)) h in
      let failed =
        bind-eq-err (enforce (insert_worklog_checks db (worklog_row worklog))) _ refused in
      subst (IsReason db (worklog_row worklog)) same (
        reason db worklog x (enforce-err (insert_worklog_checks db (worklog_row worklog)) x failed))
