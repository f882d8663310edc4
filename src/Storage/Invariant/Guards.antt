-- ===== src/Storage/Invariant/Guards.antt =====
-- What the checks of a statement on worklogs say once they have passed.
use time_tracker.Prelude.{
  ◌≡◌, ◌≢◌, sym, ap, ◌∙◌, ◌⊎◌, inl, inr, true, false, not, ◌&&◌, none, List, map, arith, Has,
  any-false, Option-cases, is_none, ◌==◌, any,
}
use time_tracker.Prelude.Table.{Distinct, find_row, find_row_of_Has, Has-find_row}
use time_tracker.Domain.Values.{TaskId}
use time_tracker.Domain.Worklog.Overlap.{EndsAfter}
use time_tracker.Storage.Schema.{
  TaskRow, WorklogRow, task_key, worklog_key, is_archived_task, is_nonzero, is_candidate,
  ends_after_start, overlaps_predecessor, overlaps_scan, is_nonpositive, is_second_active,
}
use time_tracker.Storage.Schema.Predecessor.{IsDisjoint, meets, overlaps_predecessor-eq-scan}

pub EndsAfter-of_check : (w : WorklogRow) → is_nonpositive w ≡ false → EndsAfter w.start_us w.end_us
unfolding is_nonpositive
EndsAfter-of_check w h = elim (Option-cases w.end_us) [
  | inl e ↦ rw e tt
  | inr (end, e) ↦ rw e (ground arith)
]

-- A row that the triggers let pass meets no row of its task.
meets_of_hit :
    (new s : WorklogRow)
    → (is_candidate new s && ends_after_start new s) ≡ false
    → EndsAfter s.start_us s.end_us
    → s.id ≢ new.id
    → (meets new s ≡ false) × (meets s new ≡ false)
unfolding is_candidate ends_after_start meets
meets_of_hit new s h p n = (ground arith, ground arith)

nonzero : (w : WorklogRow) → EndsAfter w.start_us w.end_us → is_nonzero w ≡ true
unfolding is_nonzero
nonzero w h = ground arith

module _ (new : WorklogRow) (ws : List WorklogRow) (distinct : Distinct (map worklog_key ws))
    (d : IsDisjoint ws) (positive : EndsAfter new.start_us new.end_us)
    (free : overlaps_predecessor new ws ≡ false) where
  scan_free : any (λ s. is_candidate new s && ends_after_start new s) ws ≡ false
  unfolding overlaps_scan
  scan_free =
      let e = sym (overlaps_predecessor-eq-scan ws distinct d new) ∙ free in
      ground (arith, nonzero new positive)

  clear :
      (s : WorklogRow) → Has s ws → s.id ≢ new.id → (meets new s ≡ false) × (meets s new ≡ false)
  clear s m n = meets_of_hit new s (any-false _ ws scan_free s m) (d.positive s m) n

  -- The rows with `new` among them, in place of the row of its identifier if there is one.
  pub clear_rows :
      (rows : List WorklogRow)
      → ((r : WorklogRow) → Has r rows → (r ≡ new) ⊎ (Has r ws × (r.id ≢ new.id)))
      → IsDisjoint rows
  clear_rows rows origin = record {
    positive = λ w m. elim (origin w m) [ inl e ↦ rw e positive | inr (h, n) ↦ d.positive w h ];
    apart = λ v w mv mw n. apart v w n (origin v mv) (origin w mw);
  }
    where
      apart :
          (v w : WorklogRow)
          → v.id ≢ w.id
          → (v ≡ new) ⊎ (Has v ws × (v.id ≢ new.id))
          → (w ≡ new) ⊎ (Has w ws × (w.id ≢ new.id))
          → meets v w ≡ false
      apart v w n (inl e) (inl q) = absurd (n (ap worklog_key (e ∙ sym q)))
      apart v w n (inl e) (inr (h, k)) = rw e (clear w h k).0
      apart v w n (inr (h, k)) (inl q) = rw q (clear v h k).1
      apart v w n (inr (h, k)) (inr (j, l)) = d.apart v w h j n

pub archived_of_check :
    (ts : List TaskRow) (t : TaskRow) (id : TaskId)
    → Distinct (map task_key ts)
    → Has t ts
    → t.id ≡ id
    → is_archived_task ts id ≡ false
    → t.archived ≡ false
unfolding is_archived_task
archived_of_check ts t id d m e h =
    let found = (rw e at (find_row_of_Has task_key ts t d m)) in rw found at h

pub task_of_check :
    (ts : List TaskRow) (id : TaskId)
    → is_none (find_row task_key id ts) ≡ false
    → (t : TaskRow) × Has t ts × (t.id ≡ id)
task_of_check ts id h = elim (Option-cases (find_row task_key id ts)) [
  | inl e ↦ absurd (ground arith)
  | inr (t, e) ↦ let (m, q) = Has-find_row task_key id ts t e in (t, m, q)
]

-- No other row is active next to an active `new`.
pub second_of_check :
    (new s : WorklogRow) (ws : List WorklogRow)
    → is_second_active new ws ≡ false
    → is_none new.end_us ≡ true
    → Has s ws
    → is_none s.end_us ≡ true
    → s.id ≡ new.id
unfolding is_second_active
second_of_check new s ws h a m b =
    let other =
      any-false (λ (s : WorklogRow). not (s.id == new.id) && is_none s.end_us) ws (ground arith) s
        m in
    ground arith

pub fresh_of_check :
    (rows : List WorklogRow) (new : WorklogRow)
    → not (is_none (find_row worklog_key new.id rows)) ≡ false
    → find_row worklog_key new.id rows ≡ none
fresh_of_check rows new h = ground arith
