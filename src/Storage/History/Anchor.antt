-- ===== src/Storage/History/Anchor.antt =====
-- What follows the anchor of a page in the history of a task.
use time_tracker.Prelude.{
  ℕ, suc, ◌<◌, ◌≡◌, refl, sym, ◌∙◌, inl, inr, Bool, true, false, ◌&&◌, Option, none, some, List, [],
  ◌∷◌, map, arith, Has, Has-keep, keep-Has, keep, length, ◌==◌, Bool-cases, and-left, and-right,
}
use time_tracker.Prelude.Table.{Distinct}
use time_tracker.Prelude.Sort.{sort, IsOrder, IsSorted, Has-sort, sort-Has, sort-IsSorted}
use time_tracker.Prelude.Sort.Unique.{sorted_eq, Distinct-sort, Fresh-Has, Fresh-of_Has}
use time_tracker.Prelude.Split.{
  drop, Has-split, Has-drop, Distinct-drop, IsSorted-drop, IsLast, IsLast-item,
}
use time_tracker.Domain.Values.{TaskId, WorklogId}
use time_tracker.Storage.Schema.{WorklogRow, Database, worklog_key}
use time_tracker.Storage.History.{in_history_order, follows}

history-IsOrder : IsOrder in_history_order
history-IsOrder = record { asym = λ a b h. ground arith; through = λ a b c p q. ground arith }

history_irreflexive : (a : WorklogRow) → in_history_order a a ≡ false
history_irreflexive a = ground arith

history_ties :
    (a b : WorklogRow)
    → in_history_order a b ≡ false
    → in_history_order b a ≡ false
    → worklog_key a ≡ worklog_key b
history_ties a b p q = ground arith

contradiction : {b : Bool} → b ≡ true → b ≡ false → ⊥
contradiction p q = cc

-- The history of a task from an anchor on, without a limit.
unfoldable pub remaining : Database → TaskId → Option (ℕ × WorklogId) → List WorklogRow
unfolding follows sort
remaining db task_id after =
    sort in_history_order (keep (λ row. (row.task_id == task_id) && follows after row) db.worklogs)

abbrev pub anchor_of : WorklogRow → Option (ℕ × WorklogId)
anchor_of b = some (b.start_us, b.id)

follows-order : (b x : WorklogRow) → follows (anchor_of b) x ≡ in_history_order b x
unfolding follows
follows-order b x = ground arith

follows_through :
    (after : Option (ℕ × WorklogId)) (b x : WorklogRow)
    → follows after b ≡ true
    → in_history_order b x ≡ true
    → follows after x ≡ true
unfolding follows
follows_through none b x h k = refl
follows_through (some (start_us, id)) b x h k = ground arith

Distinct-keep :
    (p : WorklogRow → Bool) (ws : List WorklogRow)
    → Distinct (map worklog_key ws)
    → Distinct (map worklog_key (keep p ws))
Distinct-keep p [] d = tt
Distinct-keep p (w ∷ ws) d = elim (Bool-cases (p w)) [
  | inl e ↦ rw e (
    Fresh-of_Has worklog_key (worklog_key w) (keep p ws)
        (λ x m. Fresh-Has worklog_key (worklog_key w) ws d.0 x (Has-keep p ws x m).0),
    Distinct-keep p ws d.1,
  )
  | inr e ↦ rw e (Distinct-keep p ws d.1)
]

module _ (db : Database) (distinct : Distinct (map worklog_key db.worklogs))
    (task_id : TaskId) where
  pub remaining-stored :
      (after : Option (ℕ × WorklogId)) (x : WorklogRow)
      → Has x (remaining db task_id after)
      → Has x db.worklogs × ((x.task_id == task_id) ≡ true) × (follows after x ≡ true)
  unfolding remaining
  remaining-stored after x m =
      let (h, t) = Has-keep _ db.worklogs x (Has-sort in_history_order _ x m) in
      (h, and-left _ _ t, and-right _ _ t)

  stored-remaining :
      (after : Option (ℕ × WorklogId)) (x : WorklogRow)
      → Has x db.worklogs
      → (x.task_id == task_id) ≡ true
      → follows after x ≡ true
      → Has x (remaining db task_id after)
  unfolding remaining
  stored-remaining after x m t f =
      sort-Has in_history_order _ x (keep-Has _ db.worklogs x m (ground arith))

  Distinct-remaining :
      (after : Option (ℕ × WorklogId)) → Distinct (map worklog_key (remaining db task_id after))
  unfolding remaining
  Distinct-remaining after =
      Distinct-sort worklog_key in_history_order _ (Distinct-keep _ db.worklogs distinct)

  IsSorted-remaining :
      (after : Option (ℕ × WorklogId)) → IsSorted in_history_order (remaining db task_id after)
  unfolding remaining
  IsSorted-remaining after =
      sort-IsSorted in_history_order history-IsOrder
        (keep (λ row. (row.task_id == task_id) && follows after row) db.worklogs)

  -- A full page has a last row.
  pub page_end :
      {B : Type 0} (f : WorklogRow → B) (n : ℕ) (after : Option (ℕ × WorklogId))
      → n < length (remaining db task_id after)
      → (b : WorklogRow) × IsLast in_history_order worklog_key f
          (suc n)
          (remaining db task_id after)
          b
        × Has b db.worklogs
        × ((b.task_id == task_id) ≡ true)
  page_end f n after h =
      let (b, l) =
        IsLast-item in_history_order worklog_key f history_irreflexive n
          (remaining db task_id after) (IsSorted-remaining after) (Distinct-remaining after) h in
      let (m, t, g) = remaining-stored after b l.stored in (b, l, m, t)

  -- What follows the last row of a page is the rest of the history, no more and no less.
  pub remaining-anchor :
      {B : Type 0} (f : WorklogRow → B) (n : ℕ) (after : Option (ℕ × WorklogId)) (b : WorklogRow)
      → IsLast in_history_order worklog_key f n (remaining db task_id after) b
      → remaining db task_id (anchor_of b) ≡ drop n (remaining db task_id after)
  remaining-anchor f n after b l =
      sorted_eq worklog_key in_history_order history_ties (remaining db task_id (anchor_of b))
        (drop n (remaining db task_id after)) (IsSorted-remaining (anchor_of b))
        (IsSorted-drop in_history_order n _ (IsSorted-remaining after))
        (Distinct-remaining (anchor_of b))
        (Distinct-drop worklog_key n _ (Distinct-remaining after)) (forth, back)
    where
      reached : follows after b ≡ true
      reached = (remaining-stored after b l.stored).2

      forth :
          (x : WorklogRow)
          → Has x (remaining db task_id (anchor_of b))
          → Has x (drop n (remaining db task_id after))
      forth x m =
          let (h, t, g) = remaining-stored (anchor_of b) x m in
          let later : in_history_order b x ≡ true = (sym (follows-order b x) ∙ g) in
          let k = stored-remaining after x h t (follows_through after b x reached later) in
          elim (Has-split n (remaining db task_id after) x k) [
            | inl q ↦ absurd (contradiction later (l.behind x q))
            | inr q ↦ q
          ]

      back :
          (x : WorklogRow)
          → Has x (drop n (remaining db task_id after))
          → Has x (remaining db task_id (anchor_of b))
      back x m =
          let (h, t, g) = remaining-stored after x (Has-drop n _ x m) in
          elim (Bool-cases (in_history_order b x)) [
            | inl e ↦ stored-remaining (anchor_of b) x h t (follows-order b x ∙ e)
            | inr e ↦ absurd (l.apart x m (history_ties b x e (l.ahead x m)))
          ]
