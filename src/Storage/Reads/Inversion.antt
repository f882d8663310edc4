-- ===== src/Storage/Reads/Inversion.antt =====
-- What a selected row and a committed transaction say.
use time_tracker.Prelude.{
  ◌≡◌, refl, inl, inr, Bool, true, false, none, some, List, Result, ok, err, ◌>>=◌, map_err, subst,
  sym, arith, Has, Option-cases, if◌then◌else◌,
}
use time_tracker.Prelude.Table.{find_row, Has-find_row}
use time_tracker.Domain.Values.{WorklogId}
use time_tracker.Storage.Errors.{StorageError, SqlError}
use time_tracker.Storage.Schema.{WorklogRow, Database, worklog_key}
use time_tracker.Storage.Reads.{transact, select_worklog}

pub Has-select_worklog :
    (id : WorklogId) (test : WorklogRow → Bool) (rows : List WorklogRow) (row : WorklogRow)
    → select_worklog id test rows ≡ some row
    → Has row rows × (row.id ≡ id) × (test row ≡ true)
unfolding select_worklog
Has-select_worklog id test rows row h = elim (Option-cases (find_row worklog_key id rows)) [
  | inl e ↦ let k = rw (e, select_worklog) at h in absurd (ground arith)
  | inr (r, e) ↦ passed r e (test r) refl (rw (e, select_worklog) at h)
]
  where
    passed :
        (r : WorklogRow)
        → find_row worklog_key id rows ≡ some r
        → (b : Bool) → test r ≡ b
        → (if b then some r else none) ≡ some row
        → Has row rows × (row.id ≡ id) × (test row ≡ true)
    passed r e true t k =
        let (m, q) = Has-find_row worklog_key id rows r e in
        let same : r ≡ row = cc in rw (← same) (m, q, t)
    passed r e false t k = absurd (ground arith)

-- A property of the database survives a transaction whose commit keeps it.
pub transact_keeps :
    {A : Type 0} (P : Database → Type 0) (db : Database) (m : Result StorageError (A × Database))
    → P db
    → ((a : A) (db' : Database) → m ≡ ok (a, db') → P db')
    → P (transact db m).1
unfolding transact
transact_keeps P db (ok (a, db')) p k = k a db' refl
transact_keeps P db (err e) p k = p

-- A statement whose result is read afterwards: the reads change nothing.
pub written_keeps :
    {A : Type 0} (P : Database → Type 0) (db : Database) (m : Result SqlError Database)
    (f : SqlError → StorageError) (k : Database → Result StorageError (A × Database))
    → P db
    → ((db' : Database) → m ≡ ok db' → P db')
    → ((db' : Database) (a : A) (db'' : Database) → k db' ≡ ok (a, db'') → db'' ≡ db')
    → P (transact db (map_err f m >>= k)).1
unfolding transact
written_keeps P db (err e) f k p written reads = p
written_keeps P db (ok db') f k p written reads =
    transact_keeps P db (k db') p λ a db'' h. subst P (sym (reads db' a db'' h)) (written db' refl)
