-- ===== src/Domain/TaskName/Accepted.antt =====
-- Which names `TaskName::new` accepts.
use time_tracker.Prelude.{
  ℕ, ◌≤◌, ◌<◌, ◌≡◌, refl, sym, ◌≢◌, ◌⊎◌, inl, inr, Bool, true, false, List, [], ◌∷◌, arith, Result,
  ok, err, subst, ltb→lt, ltb→le, list_eq_refl, list_eq→eq, any, length, ltb, if◌then◌else◌,
}
use time_tracker.Domain.TaskName.{
  TaskName, TaskNameError, empty, control, too_long, is_control, trim, is_empty, max_len, new,
  name_eq,
}
use time_tracker.Domain.TaskName.Trim.{trim-trim}

-- What every stored name satisfies.
pub record IsName (n : TaskName) : Type 0 where
  pub trimmed : trim n.text ≡ n.text
  pub nonempty : is_empty n.text ≡ false
  pub printable : any is_control n.text ≡ false
  pub short : length n.text ≤ max_len

new-eq-ok :
    (raw : List ℕ) (n : TaskName)
    → new raw ≡ ok n
    → (trim raw ≡ n.text)
      × (is_empty (trim raw) ≡ false)
      × (any is_control (trim raw) ≡ false)
      × (length (trim raw) ≤ max_len)
unfolding new
new-eq-ok raw n h = ground arith

-- An accepted name is the trimmed text, and it is trimmed, not empty, free of control characters
-- and at most 256 characters long.
pub new-IsName : (raw : List ℕ) (n : TaskName) → new raw ≡ ok n → IsName n × (n.text ≡ trim raw)
new-IsName raw n h =
    let (e, a, b, c) = new-eq-ok raw n h in
    (
      record {
        trimmed = rw (← e) (trim-trim raw);
        nonempty = rw (← e) a;
        printable = rw (← e) b;
        short = rw (← e) c;
      },
      sym e,
    )

-- A name with these properties is accepted and kept as it is.
pub new-eq_of_IsName : (n : TaskName) → IsName n → new n.text ≡ ok n
unfolding new
new-eq_of_IsName n v = rw (v.trimmed, v.nonempty, v.printable, short_test n v.short)
  where
    short_test : (n : TaskName) → length n.text ≤ max_len → ltb max_len (length n.text) ≡ false
    short_test n h = ground arith

-- The verdict on a trimmed text.
abbrev pub Verdict : List ℕ → Result TaskNameError TaskName → Type 0
Verdict cs r =
    ((cs ≡ []) × (r ≡ err empty))
    ⊎ ((cs ≢ []) × (any is_control cs ≡ true) × (r ≡ err control))
    ⊎ ((cs ≢ []) × (any is_control cs ≡ false) × (max_len < length cs) × (r ≡ err too_long))
    ⊎ (IsName (record { text = cs }) × (r ≡ ok (record { text = cs })))

ladder :
    (cs : List ℕ) (p t : Bool)
    → trim cs ≡ cs
    → cs ≢ []
    → is_empty cs ≡ false
    → any is_control cs ≡ p
    → ltb max_len (length cs) ≡ t
    → Verdict cs (if p then err control else if t then err too_long else ok (record { text = cs }))
ladder cs true t e n m q l = inr (inl (n, q, refl))
ladder cs false true e n m q l = inr (inr (inl (n, q, ltb→lt _ _ l, refl)))
ladder cs false false e n m q l =
    inr
      (inr (inr (record { trimmed = e; nonempty = m; printable = q; short = ltb→le _ _ l }, refl)))

verdict : (cs : List ℕ) → trim cs ≡ cs → Verdict cs (new cs)
unfolding new
verdict [] e = inl (refl, rw e)
verdict (c ∷ cs) e = rw e (ladder (c ∷ cs) _ _ e (λ q. cc) refl refl refl)

new-trim : (raw : List ℕ) → new (trim raw) ≡ new raw
unfolding new
new-trim raw = rw trim-trim

-- A raw name is accepted exactly if its trimmed text is not empty, has no control character and
-- has at most 256 characters; otherwise the first of these three that fails names the error.
pub new-Verdict : (raw : List ℕ) → Verdict (trim raw) (new raw)
new-Verdict raw = subst (Verdict (trim raw)) (new-trim raw) (verdict (trim raw) (trim-trim raw))

pub name_eq_refl : (n : TaskName) → name_eq n n ≡ true
unfolding name_eq
name_eq_refl n = list_eq_refl n.text

pub name_eq→eq : (a b : TaskName) → name_eq a b ≡ true → a ≡ b
unfolding name_eq
name_eq→eq a b h = ground (arith, list_eq→eq a.text b.text h)
