-- ===== src/Application/CalendarReports/DayStart.antt =====
-- The first instant of a local day.
use time_tracker.Prelude.{
  ℕ, zero, suc, ◌+◌, ◌-◌, ◌*◌, ◌/◌, ◌≤◌, ◌<◌, ◌≡◌, ◌≢◌, ◌⊎◌, refl, sym, subst, inl, inr, Option,
  none, some, Result, ok, err, ltb, ◌==◌, Bool-cases, Option-cases, arith, ==→eq, ==→ne,
}
use time_tracker.Domain.Values.{Instant}
use time_tracker.Application.CalendarReports.{
  CalendarRangeError, missing_day, boundary_out_of_range, reversed_dates, dates_out_of_range,
  LocalResult, earliest, day_seconds, backtrack, search, minute_rounds, day_start,
}

module _ (zone : ℕ → LocalResult) (date : ℕ) where
  abbrev minute_of : ℕ → ℕ
  minute_of i = date * day_seconds + 60 * i

  -- The second before is of another day or does not exist.
  abbrev pub Begins : ℕ → Type 0
  Begins t = (t ≡ 0) ⊎ (((t - 1) / day_seconds ≢ date) ⊎ (earliest (zone (t - 1)) ≡ none))

  -- The local time of a result: it is of the day and exists, the second before is not or does not,
  -- and no whole minute of the day before it exists.
  pub record IsDayStart (at : Instant) : Type 0 where
    pub time : ℕ
    pub of_day : time / day_seconds ≡ date
    pub exists : earliest (zone time) ≡ some at
    pub begins : Begins time
    pub minutes : (i : ℕ) → minute_of i < time → earliest (zone (minute_of i)) ≡ none

  backtrack-IsDayStart :
      (rounds local : ℕ) (first : Instant)
      → local / day_seconds ≡ date
      → earliest (zone local) ≡ some first
      → ((t : ℕ) → t + rounds ≡ local → Begins t)
      → ((i : ℕ) → minute_of i < local → earliest (zone (minute_of i)) ≡ none)
      → IsDayStart (backtrack zone rounds date local first)
  unfolding backtrack
  backtrack-IsDayStart zero local first d e edge m = record {
    time = local;
    of_day = d;
    exists = e;
    begins = edge local (omega arith);
    minutes = m;
  }
  backtrack-IsDayStart (suc rounds) local first d e edge m = elim (Bool-cases (local == 0)) [
    | inl z ↦ rw (z, backtrack) (here (inl (==→eq local 0 z)))
    | inr z ↦ elim (Bool-cases ((local - 1) / day_seconds == date)) [
      | inr o ↦ rw (z, backtrack, o) (here (inr (inl (==→ne _ _ o))))
      | inl o ↦ elim (Option-cases (earliest (zone (local - 1)))) [
        | inl g ↦ rw (z, backtrack, o, g) (here (inr (inr g)))
        | inr (at, g) ↦
            rw (z, backtrack, o, g)
              (backtrack-IsDayStart rounds (local - 1) at (==→eq _ _ o) g
                (λ t q. edge t (ground (arith, ==→ne local 0 z))) (λ i l. m i (omega arith)))
      ]
    ]
  ]
    where
      here : Begins local → IsDayStart first
      here b = record { time = local; of_day = d; exists = e; begins = b; minutes = m }

  -- What the loop can end with at the local time of a minute.
  abbrev Ends : ℕ → Option (Result CalendarRangeError Instant) → Type 0
  Ends max_local none = ⊥
  Ends max_local (some (ok at)) = IsDayStart at
  Ends max_local (some (err missing_day)) =
      (i : ℕ) → i < 1_440 → earliest (zone (minute_of i)) ≡ none
  Ends max_local (some (err boundary_out_of_range)) =
      (i : ℕ) → minute_of i ≤ max_local → i < 1_440 → earliest (zone (minute_of i)) ≡ none
  Ends max_local (some (err _)) = ⊥

  search-Ends :
      (fuel max_local i : ℕ)
      → i + fuel ≡ minute_rounds
      → i ≤ 1_440
      → ((j : ℕ) → j < i → earliest (zone (minute_of j)) ≡ none)
      → Ends max_local (search zone fuel max_local date (minute_of i))
  unfolding search
  search-Ends zero max_local i f b m = absurd (omega arith)
  search-Ends (suc fuel) max_local i f b m = elim (Bool-cases (minute_of i / day_seconds == date)) [
    | inr o ↦ rw (o, search) (λ j l. m j (ground (arith, ==→ne _ _ o)))
    | inl o ↦ elim (Option-cases (earliest (zone (minute_of i)))) [
      | inr (at, g) ↦
          rw (o, g, search)
            (backtrack-IsDayStart 59 (minute_of i) at (==→eq _ _ o) g (edge i m)
              (λ j l. m j (omega arith)))
      | inl g ↦ elim (Bool-cases (ltb max_local (minute_of i + 60))) [
        | inl e ↦ rw (o, g, e, search) (λ j l q. before j (ground arith) g)
        | inr e ↦
            rw (o, g, e, search)
              (let p : minute_of i + 60 ≡ minute_of (i + 1) = omega arith in
                rw p (
                  search-Ends fuel max_local (i + 1) (omega arith) (ground (arith, ==→eq _ _ o))
                    (λ j l. before j (omega arith) g)))
      ]
    ]
  ]
    where
      edge :
          (k : ℕ)
          → ((j : ℕ) → j < k → earliest (zone (minute_of j)) ≡ none)
          → (t : ℕ) → t + 59 ≡ minute_of k
          → Begins t
      edge zero n t q = elim (Bool-cases (t == 0)) [
        | inl z ↦ inl (==→eq t 0 z)
        | inr z ↦ inr (inl (λ p. absurd (ground (arith, ==→ne t 0 z))))
      ]
      edge (suc k) n t q =
          let p : t - 1 ≡ minute_of k = omega arith in inr (inr (rw p (n k (omega arith))))

      before :
          (j : ℕ)
          → j ≤ i
          → earliest (zone (minute_of i)) ≡ none
          → earliest (zone (minute_of j)) ≡ none
      before j l g = elim (Bool-cases (j == i)) [
        | inl e ↦ let p = ==→eq j i e in rw p g
        | inr e ↦ m j (ground (arith, ==→ne j i e))
      ]

  abbrev pub IsStart : Option (Result CalendarRangeError Instant) → Type 0
  IsStart r =
      ((at : Instant) × (r ≡ some (ok at)) × IsDayStart at)
      ⊎ ((error : CalendarRangeError) × (r ≡ some (err error))
          × ((i : ℕ) → i < 1_440 → earliest (zone (minute_of i)) ≡ none))

  -- The search for the start of a day ends. It succeeds with a local time of the day that exists,
  -- while the second before is of another day or does not exist, and no whole minute of the day
  -- before it exists; or it fails, and then no whole minute of the day exists.
  pub day_start_lem : (max_date : ℕ) → date ≤ max_date → IsStart (day_start zone max_date date)
  unfolding day_start
  day_start_lem max_date l =
      let p : date * day_seconds ≡ minute_of 0 = omega arith in
      subst (λ l. IsStart (search zone minute_rounds (max_date * day_seconds + 86_399) date l))
        (sym p)
        (ended (search zone minute_rounds (max_date * day_seconds + 86_399) date (minute_of 0)) (
          search-Ends minute_rounds (max_date * day_seconds + 86_399) 0 (omega arith) (omega arith)
            (λ j h. absurd (omega arith))))
    where
      ended :
          (r : Option (Result CalendarRangeError Instant))
          → Ends (max_date * day_seconds + 86_399) r
          → IsStart r
      ended none h = absurd h
      ended (some (ok at)) h = inl (at, refl, h)
      ended (some (err missing_day)) h = inr (missing_day, refl, h)
      ended (some (err boundary_out_of_range)) h =
          inr (boundary_out_of_range, refl, λ i b. h i (omega arith) b)
      ended (some (err reversed_dates)) h = absurd h
      ended (some (err dates_out_of_range)) h = absurd h
