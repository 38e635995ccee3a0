-- ===== src/Evaluation/Calendar/Horizon.antt =====
-- A horizon counts sessions, not days.
use asymmetric_committee.Base.{
  ℕ, zero, suc, ◌+◌, ◌≡◌, refl, arith, subst, false, ◌∙◌, and_then-ok, Result, ok, err, and_then,
  ltb,
}
use asymmetric_committee.Evaluation.Calendar.{
  TradingCalendar, TradingSession, SessionStatus, open_day, closed_day, uncovered, status, session,
  after, arrive, walk, step, next_session, iterate, horizon_session, max_walk_days, CalendarError,
}

abbrev pub opens_on : SessionStatus → ℕ
opens_on open_day = 1
opens_on _ = 0

-- The number of sessions in the `k` days after `day`.
pub opens : TradingCalendar → ℕ → ℕ → ℕ
unfolding status
opens cal day zero = 0
opens cal day (suc k) = opens_on (status cal (suc day)) + opens cal (suc day) k

-- `d` comes `k` days after `day`, and the sessions from there up to `d` are `n`.
abbrev pub Counts : TradingCalendar → ℕ → ℕ → ℕ → Type 0
Counts cal day n d = (k : ℕ) × (d ≡ day + k) × (opens cal day k ≡ n)

module _ (cal : TradingCalendar) where
  arrive-Counts :
      (day d : ℕ) (st : SessionStatus) (rest : Result CalendarError ℕ)
      → status cal (suc day) ≡ st
      → (rest ≡ ok d → Counts cal (suc day) 1 d)
      → arrive st (suc day) rest ≡ ok d
      → Counts cal day 1 d
  unfolding opens
  arrive-Counts day d open_day rest e further h = (1, ground arith, rw e (refl))
  arrive-Counts day d closed_day rest e further h =
      let (k, gap, n) = further h in (suc k, omega arith, rw e (omega arith))
  arrive-Counts day d uncovered rest e further h = absurd (cc)

  walk-Counts : (n day d : ℕ) → walk n after cal day ≡ ok d → Counts cal day 1 d
  unfolding walk
  walk-Counts zero day d h = absurd (cc)
  walk-Counts (suc n) day d h =
      arrive-Counts day d (status cal (suc day)) _ refl (walk-Counts n (suc day) d) h

  -- A step ends on a day of the calendar that is open.
  arrive-open :
      (day d : ℕ) (st : SessionStatus) (rest : Result CalendarError ℕ)
      → status cal day ≡ st
      → (rest ≡ ok d → status cal d ≡ open_day)
      → arrive st day rest ≡ ok d
      → status cal d ≡ open_day
  arrive-open day d open_day rest e further h =
      let same : day ≡ d = cc (h) in subst (λ x. status cal x ≡ open_day) same e
  arrive-open day d closed_day rest e further h = further h
  arrive-open day d uncovered rest e further h = absurd (cc)

  walk-open : (n day d : ℕ) → walk n after cal day ≡ ok d → status cal d ≡ open_day
  unfolding walk
  walk-open zero day d h = absurd (cc)
  walk-open (suc n) day d h =
      arrive-open (suc day) d (status cal (suc day)) _ refl (walk-open n (suc day) d) h

  opens-add :
      (j k day m n : ℕ)
      → m ≡ day + j
      → n ≡ j + k
      → opens cal day n ≡ opens cal day j + opens cal m k
  unfolding opens
  opens-add zero k day m n e f = grind arith
  opens-add (suc j) k day m zero e f = absurd (omega arith)
  opens-add (suc j) k day m (suc n) e f =
      omega (arith, opens-add j k (suc day) m n (omega arith) (omega arith))

  next-Counts :
      (n day d : ℕ) (r : Result CalendarError ℕ)
      → ((m : ℕ) → r ≡ ok m → Counts cal day 1 m)
      → ((m d : ℕ) → iterate n cal m ≡ ok d → Counts cal m n d)
      → and_then r (iterate n cal) ≡ ok d
      → Counts cal day (suc n) d
  next-Counts n day d (err x) one more h = absurd (cc)
  next-Counts n day d (ok m) one more h =
      let (j, gap, first) = one m refl in
      let (k, gap', further) = more m d h in
      (j + k, omega arith, omega (arith, opens-add j k day m (j + k) gap refl))

  iterate-Counts : (n day d : ℕ) → iterate n cal day ≡ ok d → Counts cal day n d
  unfolding iterate step opens
  iterate-Counts zero day d h = (0, ground arith, refl)
  iterate-Counts (suc n) day d h =
      next-Counts n day d (next_session cal day) (walk-Counts max_walk_days day) (iterate-Counts n)
        h

  iterate-open : (n day d : ℕ) → iterate (suc n) cal day ≡ ok d → status cal d ≡ open_day
  unfolding iterate step
  iterate-open zero day d h =
      let (m, first, same) = and_then-ok (next_session cal day) (iterate 0 cal) d h in
      walk-open max_walk_days day d (first ∙ same)
  iterate-open (suc n) day d h =
      let (m, first, more) = and_then-ok (next_session cal day) (iterate (suc n) cal) d h in
      iterate-open n m d more

  -- A horizon is a session, and among the days after the session of its start up to it there are
  -- exactly as many sessions as were asked for, its own among them.
  pub horizon_session-Counts :
      (start horizon d : ℕ) (s : TradingSession)
      → session cal start ≡ ok s
      → horizon_session cal start horizon ≡ ok d
      → (status cal d ≡ open_day) × Counts cal s.session_date horizon d
  unfolding horizon_session
  horizon_session-Counts start zero d s e h = absurd (cc)
  horizon_session-Counts start (suc n) d s e h =
      let enough : ltb (suc n) 1 ≡ false = ground arith in
      let iterated : iterate (suc n) cal s.session_date ≡ ok d = rw e at (rw enough at h) in
      (iterate-open n s.session_date d iterated, iterate-Counts (suc n) s.session_date d iterated)
