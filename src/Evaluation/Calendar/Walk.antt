-- ===== src/Evaluation/Calendar/Walk.antt =====
-- The walks over covered dates find the nearest session, and nothing else.
use asymmetric_committee.Base.{
  eq_or_lt, ℕ, zero, suc, ◌+◌, ◌≤◌, ◌<◌, ◌≡◌, refl, ap, subst, ◌∙◌, inl, inr, ◌↔◌, arith, Result,
  ok,
}
use asymmetric_committee.Evaluation.Calendar.{
  TradingCalendar, SessionStatus, open_day, closed_day, uncovered, status, after, before, arrive,
  walk, step, next_session, previous_session, max_walk_days, CalendarError,
}

-- Every date strictly between the two is a closed day inside confirmed coverage.
abbrev pub ClosedBetween : TradingCalendar → ℕ → ℕ → Type 0
ClosedBetween cal a b = (e : ℕ) → a < e → e < b → status cal e ≡ closed_day

-- `d` is the first session after `day`, and the walk of `n` days reaches it.
abbrev pub IsNext : TradingCalendar → ℕ → ℕ → ℕ → Type 0
IsNext cal n day d = (day < d) × (d ≤ day + n) × (status cal d ≡ open_day) × ClosedBetween cal day d

abbrev pub IsPrevious : TradingCalendar → ℕ → ℕ → ℕ → Type 0
IsPrevious cal n day d =
    (d < day) × (day ≤ d + n) × (status cal d ≡ open_day) × ClosedBetween cal d day

module _ (cal : TradingCalendar) where
  arrive-IsNext :
      (n day d : ℕ) (st : SessionStatus) (rest : Result CalendarError ℕ)
      → status cal (suc day) ≡ st
      → (rest ≡ ok d → IsNext cal n (suc day) d)
      → arrive st (suc day) rest ≡ ok d
      → IsNext cal (suc n) day d
  arrive-IsNext n day d open_day rest e further h =
      let same : suc day ≡ d = ground arith in
      subst (λ x. IsNext cal (suc n) day x) same
        (omega arith, omega arith, e, λ x p q. absurd (omega arith))
  arrive-IsNext n day d closed_day rest e further h =
      let (lt, le, found, shut) = further h in
      (
        omega arith,
        omega arith,
        found,
        λ x p q. elim (eq_or_lt (suc day) x p) [
          | inl same ↦ subst (λ z. status cal z ≡ closed_day) same e
          | inr more ↦ shut x more q
        ],
      )
  arrive-IsNext n day d uncovered rest e further h = absurd (cc)

  walk-IsNext : (n day d : ℕ) → walk n after cal day ≡ ok d → IsNext cal n day d
  unfolding walk
  walk-IsNext zero day d h = absurd (cc)
  walk-IsNext (suc n) day d h =
      arrive-IsNext n day d (status cal (suc day)) _ refl (walk-IsNext n (suc day) d) h

  IsNext-walk : (n day d : ℕ) → IsNext cal n day d → walk n after cal day ≡ ok d
  unfolding walk
  IsNext-walk zero day d (lt, le, found, shut) = absurd (omega arith)
  IsNext-walk (suc n) day d (lt, le, found, shut) = elim (eq_or_lt (suc day) d lt) [
    | inl same ↦ rw (ap (status cal) same ∙ found) (ap ok same)
    | inr more ↦
        rw (shut (suc day) (omega arith) more)
          (IsNext-walk n (suc day) d (more, omega arith, found, λ x p q. shut x (omega arith) q))
  ]

  arrive-IsPrevious :
      (n day d : ℕ) (st : SessionStatus) (rest : Result CalendarError ℕ)
      → status cal day ≡ st
      → (rest ≡ ok d → IsPrevious cal n day d)
      → arrive st day rest ≡ ok d
      → IsPrevious cal (suc n) (suc day) d
  arrive-IsPrevious n day d open_day rest e further h =
      let same : day ≡ d = ground arith in
      subst (λ x. IsPrevious cal (suc n) (suc day) x) same
        (omega arith, omega arith, e, λ x p q. absurd (omega arith))
  arrive-IsPrevious n day d closed_day rest e further h =
      let (lt, le, found, shut) = further h in
      (
        omega arith,
        omega arith,
        found,
        λ x p q. elim (eq_or_lt (suc x) (suc day) q) [
          | inl same ↦ subst (λ z. status cal z ≡ closed_day) (omega (arith, same)) e
          | inr more ↦ shut x p (omega arith)
        ],
      )
  arrive-IsPrevious n day d uncovered rest e further h = absurd (cc)

  walk-IsPrevious : (n day d : ℕ) → walk n before cal day ≡ ok d → IsPrevious cal n day d
  unfolding walk
  walk-IsPrevious zero day d h = absurd (cc)
  walk-IsPrevious (suc n) zero d h = absurd (cc)
  walk-IsPrevious (suc n) (suc day) d h =
      arrive-IsPrevious n day d (status cal day) _ refl (walk-IsPrevious n day d) h

  IsPrevious-walk : (n day d : ℕ) → IsPrevious cal n day d → walk n before cal day ≡ ok d
  unfolding walk
  IsPrevious-walk zero day d (lt, le, found, shut) = absurd (omega arith)
  IsPrevious-walk (suc n) zero d (lt, le, found, shut) = absurd (omega arith)
  IsPrevious-walk (suc n) (suc day) d (lt, le, found, shut) = elim (eq_or_lt (suc d) (suc day) lt) [
    | inl same ↦ let e : day ≡ d = omega arith in rw (ap (status cal) e ∙ found) (ap ok e)
    | inr more ↦
        rw (shut day (omega arith) (omega arith)) (
          IsPrevious-walk n day d
            (omega arith, omega arith, found, λ x p q. shut x p (omega arith)))
  ]

  -- The next session of a day is `d` exactly when `d` is a later session within 3660 days and every
  -- date between is known to be closed; so an uncovered date before it is always an error.
  pub next_session_iff :
      (day d : ℕ) → (next_session cal day ≡ ok d) ↔ IsNext cal max_walk_days day d
  unfolding step
  next_session_iff day d = (walk-IsNext max_walk_days day d, IsNext-walk max_walk_days day d)

  -- The previous session of a day is `d` exactly when `d` is an earlier session within 3660 days
  -- and every date between is known to be closed.
  pub previous_session_iff :
      (day d : ℕ) → (previous_session cal day ≡ ok d) ↔ IsPrevious cal max_walk_days day d
  unfolding step
  previous_session_iff day d =
      (walk-IsPrevious max_walk_days day d, IsPrevious-walk max_walk_days day d)

  -- The session before the next session of a session is that session.
  pub previous_session-next_session :
      (day d : ℕ)
      → status cal day ≡ open_day
      → next_session cal day ≡ ok d
      → previous_session cal d ≡ ok day
  previous_session-next_session day d here h =
      let (lt, le, found, shut) = (next_session_iff day d).0 h in
      (previous_session_iff d day).1 (lt, le, here, shut)
