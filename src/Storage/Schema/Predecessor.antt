-- ===== src/Storage/Schema/Predecessor.antt =====
-- The overlap trigger of schema version 4 against the one of version 3.
use time_tracker.Prelude.{
  ◌≤◌, ◌≡◌, ◌≢◌, refl, ap, sym, ◌∙◌, inl, inr, Bool, true, false, ◌&&◌, some, List, [], ◌∷◌, map,
  arith, ltb, ◌==◌, is_none_or, keep, any, Has, Has-any, any_of_Has, Has-keep, keep-Has, Bool-cases,
  Option-cases, ==→eq, ==→ne, and-left, and-right,
}
use time_tracker.Prelude.Table.{Distinct, row_eq_of_key}
use time_tracker.Domain.Worklog.Overlap.{EndsAfter}
use time_tracker.Storage.Schema.{
  WorklogRow, worklog_key, is_nonzero, is_candidate, latest, ends_after_start, overlaps_predecessor,
  overlaps_scan,
}

-- Two rows of one task whose half-open intervals meet.
unfoldable pub meets : WorklogRow → WorklogRow → Bool
meets v w =
    (v.task_id == w.task_id)
    && is_none_or w.end_us (λ end. ltb v.start_us end)
    && is_none_or v.end_us (λ end. ltb w.start_us end)

-- Stored intervals are not empty, and those of one task do not meet.
pub record IsDisjoint (ws : List WorklogRow) : Type 0 where
  pub positive : (w : WorklogRow) → Has w ws → EndsAfter w.start_us w.end_us
  pub apart : (v w : WorklogRow) → Has v ws → Has w ws → v.id ≢ w.id → meets v w ≡ false

Has-latest : (ws : List WorklogRow) (p : WorklogRow) → latest ws ≡ some p → Has p ws
unfolding latest
Has-latest [] p h = cc
Has-latest (r ∷ rs) p h = elim (Option-cases (latest rs)) [
  | inl e ↦ inl (ground arith)
  | inr (q, e) ↦ elim (Bool-cases (ltb r.start_us q.start_us)) [
    | inl t ↦ inr (Has-latest rs p (ground arith))
    | inr t ↦ inl (ground arith)
  ]
]

latest_ge :
    (ws : List WorklogRow) (s : WorklogRow)
    → Has s ws
    → (p : WorklogRow) × (latest ws ≡ some p) × (s.start_us ≤ p.start_us)
unfolding latest
latest_ge [] s m = absurd m
latest_ge (r ∷ rs) s (inl e) = elim (Option-cases (latest rs)) [
  | inl n ↦ (r, ground arith, ground (arith, ap (λ (w : WorklogRow). w.start_us) e))
  | inr (q, n) ↦ elim (Bool-cases (ltb r.start_us q.start_us)) [
    | inl t ↦ (q, ground arith, ground (arith, ap (λ (w : WorklogRow). w.start_us) e))
    | inr t ↦ (r, ground arith, ground (arith, ap (λ (w : WorklogRow). w.start_us) e))
  ]
]
latest_ge (r ∷ rs) s (inr m) =
    let (q, n, le) = latest_ge rs s m in
    elim (Bool-cases (ltb r.start_us q.start_us)) [
      | inl t ↦ (q, ground arith, le)
      | inr t ↦ (r, ground arith, ground arith)
    ]

abbrev pub hits : WorklogRow → WorklogRow → Bool
hits new s = is_candidate new s && ends_after_start new s

-- An overlap with the predecessor is an overlap with a row.
pub scan_of_predecessor :
    (new : WorklogRow) (ws : List WorklogRow)
    → overlaps_predecessor new ws ≡ true
    → overlaps_scan new ws ≡ true
unfolding overlaps_predecessor overlaps_scan
scan_of_predecessor new ws h = elim (Option-cases (latest (keep (is_candidate new) ws))) [
  | inl e ↦ let k = rw e at h in absurd (ground arith)
  | inr (p, e) ↦
      let k = rw e at h in
      let (m, c) = Has-keep (is_candidate new) ws p (Has-latest _ p e) in
      let found = any_of_Has (hits new) ws p m (ground arith) in ground arith
]

-- A row that starts last among those of its task hides what it does not meet.
covers_later :
    (new s p : WorklogRow)
    → s.start_us ≤ p.start_us
    → EndsAfter p.start_us p.end_us
    → s.task_id ≡ p.task_id
    → meets s p ≡ false
    → ends_after_start new s ≡ true
    → ends_after_start new p ≡ true
unfolding meets ends_after_start
covers_later new s p le pos t apart h = ground arith

task_of_candidate : (new s : WorklogRow) → is_candidate new s ≡ true → s.task_id ≡ new.task_id
unfolding is_candidate
task_of_candidate new s h = ground arith

pub scan-parts :
    (new : WorklogRow) (ws : List WorklogRow)
    → overlaps_scan new ws ≡ true
    → (is_nonzero new ≡ true) × (any (hits new) ws ≡ true)
unfolding overlaps_scan
scan-parts new ws h = (and-left _ _ h, and-right _ _ h)

predecessor-parts :
    (new p : WorklogRow) (ws : List WorklogRow)
    → is_nonzero new ≡ true
    → latest (keep (is_candidate new) ws) ≡ some p
    → ends_after_start new p ≡ true
    → overlaps_predecessor new ws ≡ true
unfolding overlaps_predecessor
predecessor-parts new p ws n e k = rw (n, e) k

module _ (ws : List WorklogRow) (distinct : Distinct (map worklog_key ws)) (d : IsDisjoint ws) where
  predecessor_reaches :
      (new s p : WorklogRow)
      → Has s ws
      → Has p ws
      → hits new s ≡ true
      → is_candidate new p ≡ true
      → s.start_us ≤ p.start_us
      → ends_after_start new p ≡ true
  predecessor_reaches new s p ms mp hit cp le = elim (Bool-cases (s.id == p.id)) [
    | inl same ↦
        let e = row_eq_of_key worklog_key ws s p distinct ms mp (==→eq _ _ same) in
        rw (← e) (ground arith)
    | inr other ↦
        covers_later new s p le (d.positive p mp)
          (task_of_candidate new s (ground arith) ∙ sym (task_of_candidate new p cp))
          (d.apart s p ms mp (==→ne _ _ other)) (ground arith)
  ]

  predecessor_of_scan :
      (new : WorklogRow) → overlaps_scan new ws ≡ true → overlaps_predecessor new ws ≡ true
  predecessor_of_scan new h =
      let (nonzero, found) = scan-parts new ws h in
      let (s, ms, hit) = Has-any (hits new) ws found in
      let (p, e, le) =
        latest_ge (keep (is_candidate new) ws) s
          (keep-Has (is_candidate new) ws s ms (and-left _ _ hit)) in
      let (mp, cp) = Has-keep (is_candidate new) ws p (Has-latest _ p e) in
      predecessor-parts new p ws nonzero e (predecessor_reaches new s p ms mp hit cp le)

  -- With disjoint rows stored, the predecessor check and the full scan agree.
  pub overlaps_predecessor-eq-scan :
      (new : WorklogRow) → overlaps_predecessor new ws ≡ overlaps_scan new ws
  overlaps_predecessor-eq-scan new = bool_eq (scan_of_predecessor new ws) (predecessor_of_scan new)
    where
      bool_eq : {a b : Bool} → (a ≡ true → b ≡ true) → (b ≡ true → a ≡ true) → a ≡ b
      bool_eq {a = true} {b} f g = sym (f refl)
      bool_eq {a = false} {b = true} f g = g refl
      bool_eq {a = false} {b = false} f g = refl
