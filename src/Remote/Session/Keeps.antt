-- ===== src/Remote/Session/Keeps.antt =====
-- What the version check of a session leaves alone, and how a client's command fails.
use time_tracker.Prelude.{
  ◌≡◌, refl, ◌∙◌, ◌⊎◌, inl, inr, Bool, true, false, not, ◌||◌, Result, ok, err, ◌==◌, if◌then◌else◌,
  list_eq, Bool-cases,
}
use time_tracker.Prelude.Text.{codes}
use time_tracker.Remote.Errors.{RemoteError}
use time_tracker.Remote.Client.{
  Network, RemoteApplication, Client, ◌>>=◌, continue, gets, modify, pure, fail, attempt, exchange,
}
use time_tracker.Remote.Session.{
  checked, ensure_version, check_connection, read, recorded, record_error, confirmed, version,
}

-- What the version check leaves alone.
abbrev pub SameCommand : {W : Type 0} → RemoteApplication W → RemoteApplication W → Type 0
SameCommand self after =
    (after.session.last_write_attempted ≡ self.session.last_write_attempted)
    × (after.pending_create ≡ self.pending_create)

abbrev pub Keeps : {W E A : Type 0} → Client W E A → Type 0
Keeps {W = W} m = (self : RemoteApplication W) → SameCommand self (m self).1

module _ {W E A B : Type 0} where
  continue-SameCommand :
      (self : RemoteApplication W) (r : Result E A × RemoteApplication W) (f : A → Client W E B)
      → SameCommand self r.1
      → ((a : A) → Keeps (f a))
      → SameCommand self (continue r f).1
  unfolding continue
  continue-SameCommand self (ok a, after) f h k = let (l, p) = k a after in (l ∙ h.0, p ∙ h.1)
  continue-SameCommand self (err error, after) f h k = h

  >>=-Keeps :
      (m : Client W E A) (f : A → Client W E B)
      → Keeps m
      → ((a : A) → Keeps (f a))
      → Keeps (m >>= f)
  unfolding ◌>>=◌
  >>=-Keeps m f h k self = continue-SameCommand self (m self) f (h self) k

module _ {W : Type 0} (network : Network W) where
  recorded-Keeps : {A : Type 0} (r : Result RemoteError A) → Keeps (recorded network r)
  unfolding recorded record_error ◌>>=◌ continue modify fail pure
  recorded-Keeps (ok a) self = (refl, refl)
  recorded-Keeps (err error) self = (refl, refl)

  health-Keeps : Keeps (read network network.health)
  unfolding read
  health-Keeps =
      >>=-Keeps (exchange network.health) (recorded network)
        (λ self. unfold exchange in (refl, refl)) recorded-Keeps

  check_connection-Keeps : Keeps (check_connection network)
  unfolding check_connection
  check_connection-Keeps = >>=-Keeps (read network network.health) _ health-Keeps λ health.
      elim (Bool-cases
        (not (health.protocol_version == version) || not (list_eq health.status (codes "ok")))) [
          | inl e ↦ rw e (
              recorded-Keeps {A = Unit {0}}
                (err (RemoteError.protocol (codes "server protocol version does not match"))))
          | inr e ↦ rw e λ self. unfold ◌>>=◌ continue modify confirmed in (refl, refl)
        ]

  chosen-SameCommand :
      (checked_before : Bool) (self : RemoteApplication W)
      → SameCommand self ((if checked_before then pure tt else check_connection network) self).1
  unfolding pure
  chosen-SameCommand true self = (refl, refl)
  chosen-SameCommand false self = check_connection-Keeps self

  pub ensure_version-Keeps : Keeps (ensure_version network)
  unfolding ensure_version ◌>>=◌ continue gets
  ensure_version-Keeps self = chosen-SameCommand self.session.version_checked self

  converted-Keeps :
      {A B E : Type 0} (convert : E → B) (r : Result E A)
      → Keeps {W = W}
          (elim r as (λ _. Client W B A) [ ok a ↦ pure a | err error ↦ fail (convert error) ])
  unfolding pure fail
  converted-Keeps convert (ok a) self = (refl, refl)
  converted-Keeps convert (err error) self = (refl, refl)

  pub checked-Keeps :
      {A B E : Type 0} (convert : E → B) (m : Client W E A) → Keeps m → Keeps (checked convert m)
  unfolding checked
  checked-Keeps convert m k =
      >>=-Keeps (attempt m) _ (λ self. unfold attempt in k self) (converted-Keeps convert)

joined :
    {W E A B : Type 0} (r : Result E A × RemoteApplication W) (failed : E)
    (between : RemoteApplication W) {error : E} {after : RemoteApplication W}
    → r ≡ (err failed, between)
    → ◌≡◌ {A = Result E B × RemoteApplication W} (err failed, between) (err error, after)
    → r ≡ (err error, after)
joined r failed between e k = cc

pub bind-err :
    {W E A B : Type 0} (m : Client W E A) (f : A → Client W E B) {self after : RemoteApplication W}
    {error : E}
    → (m >>= f) self ≡ (err error, after)
    → (m self ≡ (err error, after))
      ⊎ ((a : A) × (between : RemoteApplication W) × (m self ≡ (ok a, between))
          × (f a between ≡ (err error, after)))
unfolding ◌>>=◌
bind-err {W = W} {E = E} {A = A} {B = B} m f {self = self} {after = after} {error = error} h =
    split (m self) refl h
  where
    split :
        (r : Result E A × RemoteApplication W)
        → m self ≡ r
        → continue r f ≡ (err error, after)
        → (m self ≡ (err error, after))
          ⊎ ((a : A) × (between : RemoteApplication W) × (m self ≡ (ok a, between))
              × (f a between ≡ (err error, after)))
    split (ok a, between) e k = inr (a, between, e, unfold continue in k)
    split (err failed, between) e k = inl (joined (m self) failed between e (unfold continue in k))
