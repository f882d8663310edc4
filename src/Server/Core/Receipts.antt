-- ===== src/Server/Core/Receipts.antt =====
-- The receipts of the server as a list in the order of their insertion.
use time_tracker.Prelude.{
  suc, ◌+◌, ◌≡◌, refl, ap, ◌∙◌, inl, inr, false, none, some, List, [], ◌∷◌, ◌++◌, map, list_eq,
  list_eq_refl, list_eq_comm, length, Bool-cases, arith,
}
use time_tracker.Prelude.Text.{Text}
use time_tracker.Server.Core.{Receipt, get, insert, remove}

-- No receipt has the identifier of a later one.
abbrev pub Separate : List Receipt → Type 0
Separate [] = Unit {0}
Separate (r ∷ rs) = (get r.request_id rs ≡ none) × Separate rs

abbrev pub ids_of : List Receipt → List Text
ids_of rs = map (λ (r : Receipt). r.request_id) rs

pub insert_fresh :
    (n : Receipt) (rs : List Receipt) → get n.request_id rs ≡ none → insert n rs ≡ rs ++ (n ∷ [])
unfolding insert get
insert_fresh n [] h = refl
insert_fresh n (r ∷ rs) h = elim (Bool-cases (list_eq r.request_id n.request_id)) [
  | inl e ↦ absurd (ground arith)
  | inr e ↦ rw e (ap (◌∷◌ r) (insert_fresh n rs (rw e at h)))
]

pub remove_fresh : (id : Text) (rs : List Receipt) → get id rs ≡ none → remove id rs ≡ rs
unfolding remove get
remove_fresh id [] h = refl
remove_fresh id (r ∷ rs) h = elim (Bool-cases (list_eq r.request_id id)) [
  | inl e ↦ absurd (ground arith)
  | inr e ↦ rw e (ap (◌∷◌ r) (remove_fresh id rs (rw e at h)))
]

pub remove-first :
    (r : Receipt) (rs : List Receipt)
    → get r.request_id rs ≡ none
    → remove r.request_id (r ∷ rs) ≡ rs
unfolding remove
remove-first r rs h = rw (list_eq_refl r.request_id) (remove_fresh r.request_id rs h)

-- A missing identifier is that of no receipt, wherever it stands.
get-none_at :
    (id : Text) (before : List Receipt) (r : Receipt) (after : List Receipt)
    → get id (before ++ (r ∷ after)) ≡ none
    → list_eq r.request_id id ≡ false
unfolding get
get-none_at id [] r after h = elim (Bool-cases (list_eq r.request_id id)) [
  | inl e ↦ absurd (ground arith)
  | inr e ↦ e
]
get-none_at id (x ∷ before) r after h = elim (Bool-cases (list_eq x.request_id id)) [
  | inl e ↦ absurd (ground arith)
  | inr e ↦ get-none_at id before r after (rw e at h)
]

pub get_at :
    (before : List Receipt) (r : Receipt) (after : List Receipt)
    → Separate (before ++ (r ∷ after))
    → get r.request_id (before ++ (r ∷ after)) ≡ some r
unfolding get
get_at [] r after s = rw (list_eq_refl r.request_id)
get_at (x ∷ before) r after (n, s) =
    rw (list_eq_comm x.request_id r.request_id ∙ get-none_at x.request_id before r after n)
      (get_at before r after s)

get_append :
    (id : Text) (rs : List Receipt) (n : Receipt)
    → get id rs ≡ none
    → list_eq n.request_id id ≡ false
    → get id (rs ++ (n ∷ [])) ≡ none
unfolding get
get_append id [] n h e = rw e
get_append id (r ∷ rs) n h e = elim (Bool-cases (list_eq r.request_id id)) [
  | inl q ↦ absurd (ground arith)
  | inr q ↦ rw q (get_append id rs n (rw q at h) e)
]

pub Separate-append :
    (rs : List Receipt) (n : Receipt)
    → Separate rs
    → get n.request_id rs ≡ none
    → Separate (rs ++ (n ∷ []))
unfolding get
Separate-append [] n s h = (refl, tt)
Separate-append (r ∷ rs) n (f, s) h = elim (Bool-cases (list_eq r.request_id n.request_id)) [
  | inl q ↦ absurd (ground arith)
  | inr q ↦ (
    get_append r.request_id rs n f (list_eq_comm n.request_id r.request_id ∙ q),
    Separate-append rs n s (rw q at h),
  )
]

pub ids_of-append :
    (rs : List Receipt) (n : Receipt) → ids_of (rs ++ (n ∷ [])) ≡ ids_of rs ++ (n.request_id ∷ [])
ids_of-append [] n = refl
ids_of-append (r ∷ rs) n = ap (◌∷◌ r.request_id) (ids_of-append rs n)

pub length-ids_of : (rs : List Receipt) → length (ids_of rs) ≡ length rs
length-ids_of [] = refl
length-ids_of (r ∷ rs) = ap suc (length-ids_of rs)

pub length-append : (rs after : List Receipt) → length (rs ++ after) ≡ length rs + length after
length-append [] after = omega arith
length-append (r ∷ rs) after = ground (arith, length-append rs after)

pub append_assoc : (rs ss ts : List Receipt) → (rs ++ ss) ++ ts ≡ rs ++ (ss ++ ts)
append_assoc [] ss ts = refl
append_assoc (r ∷ rs) ss ts = ap (◌∷◌ r) (append_assoc rs ss ts)
