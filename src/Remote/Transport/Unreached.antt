-- ===== src/Remote/Transport/Unreached.antt =====
-- A write that is said not to have reached the server.
use time_tracker.Prelude.{◌≡◌, refl, ◌∙◌, inl, inr, Bool, false, Bool-cases, Result, ok, err, arith}
use time_tracker.Remote.Errors.{RemoteError}
use time_tracker.Remote.Transport.{
  SendFailure, Exchange, is_connection_failure, delivered, repeated, write,
}

module _ {W A R : Type 0} (reached : W → R) (send : Exchange W A) where
  -- A failure before delivery leaves the server as it was: what HTTP promises of a refused
  -- connection.
  abbrev pub IsHonest : Type 0
  IsHonest =
      (w : W) (failure : SendFailure) (after : W)
      → send w ≡ (err failure, after)
      → failure.may_have_reached_server ≡ false
      → reached after ≡ reached w

  once :
      (w : W) (r : Result SendFailure (Result RemoteError A)) (after : W) (before : Bool)
      → IsHonest
      → send w ≡ (r, after)
      → (delivered before r).may_have_reached_server ≡ false
      → (before ≡ false) × (reached after ≡ reached w)
  unfolding delivered
  once w (ok result) after before honest e h = cc
  once w (err failure) after before honest e h =
      (ground arith, honest w failure after e (ground arith))

  -- If no exchange changes the server and says that it did not reach it, then a write that reports
  -- that it did not reach the server, after one attempt or two, has left the server as it was.
  pub write-unreached :
      (w : W)
      → IsHonest
      → (write send w).0.may_have_reached_server ≡ false
      → reached (write send w).1 ≡ reached w
  unfolding write repeated
  write-unreached w honest h = first (send w) refl h
    where
      second :
          (failure : SendFailure) (middle : W)
          → send w ≡ (err failure, middle)
          → (done : Result SendFailure (Result RemoteError A) × W) → send middle ≡ done
          → (delivered failure.may_have_reached_server done.0).may_have_reached_server ≡ false
          → reached done.1 ≡ reached w
      second failure middle e (r, after) f h =
          let (early, late) = once middle r after failure.may_have_reached_server honest f h in
          late ∙ honest w failure middle e early

      first :
          (done : Result SendFailure (Result RemoteError A) × W)
          → send w ≡ done
          → (repeated send done).0.may_have_reached_server ≡ false
          → reached (repeated send done).1 ≡ reached w
      first (ok result, after) e h = (once w (ok result) after false honest e h).1
      first (err failure, after) e h = elim (Bool-cases (is_connection_failure failure.error)) [
        | inl c ↦ rw c (second failure after e (send after) refl (rw c at h))
        | inr c ↦ rw c ((once w (err failure) after false honest e (rw c at h)).1)
      ]
