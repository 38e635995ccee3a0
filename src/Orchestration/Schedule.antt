-- ===== src/Orchestration/Schedule.antt =====
-- orchestration/schedule.py: the weekly run and its execution window. A date is the number of days
-- since `date.min`, a Monday, so an ISO week is a quotient by seven; an instant is a number of
-- microseconds. The broker's calendar and the date of an instant in New York are parameters.
pub mod Windows
mod Tests
use asymmetric_committee.Base.{
  ℕ, ◌+◌, ◌-◌, ◌/◌, Bool, true, false, not, Option, none, some, List, [], ◌∷◌, Result, ok, err,
  if◌then◌else◌, ltb, leb, ◌==◌, filter,
}

-- `MarketSession`
pub record MarketSession : Type 0 where
  pub session_date : ℕ
  pub opens_at : ℕ
  pub closes_at : ℕ

-- `NoSessionError`
pub data ScheduleError : Type 0 where
  no_session : ScheduleError

-- `WindowState`
pub data WindowState : Type 0 where
  early in_window expired : WindowState

-- `EXECUTION_DELAY` and `_LOOKAROUND_DAYS`
abbrev pub execution_delay : ℕ
execution_delay = 1800000000

abbrev pub lookaround_days : ℕ
lookaround_days = 14

abbrev pub window_of : ℕ → List MarketSession → Result ScheduleError (ℕ × ℕ)
window_of delay [] = err no_session
window_of delay (next ∷ _) = ok (next.opens_at + delay, next.closes_at)

-- `window_state`
unfoldable pub window_state : ℕ → ℕ × ℕ → WindowState
window_state now (start, end_at) =
    if ltb now start then early else if ltb now end_at then in_window else expired

abbrev pub last_of : MarketSession → List MarketSession → MarketSession
last_of s [] = s
last_of s (t ∷ ts) = last_of t ts

-- `isocalendar()[:2]` of the two dates is the same
abbrev pub same_week : ℕ → ℕ → Bool
same_week a b = a / 7 == b / 7

abbrev pub due : MarketSession → List MarketSession → Result ScheduleError (Option ℕ)
due last [] = err no_session
due last (next ∷ _) =
    if same_week next.session_date last.session_date then ok none else ok (some last.closes_at)

abbrev pub weekly_of : List MarketSession → List MarketSession → Result ScheduleError (Option ℕ)
weekly_of sessions [] = ok none
weekly_of sessions (s ∷ ss) =
    let last = last_of s ss in
    due last (filter (λ t. ltb last.session_date t.session_date) sessions)

module _ (sessions : ℕ → ℕ → List MarketSession) (et_date : ℕ → ℕ) where
  -- the sessions that `execution_window` looks at
  abbrev pub upcoming : ℕ → List MarketSession
  upcoming as_of =
      let first_day = et_date as_of + 1 in
      filter (λ s. leb first_day s.session_date) (sessions first_day (first_day + lookaround_days))

  -- `execution_window`
  unfoldable pub execution_window : ℕ → ℕ → Result ScheduleError (ℕ × ℕ)
  execution_window as_of delay = window_of delay (upcoming as_of)

  abbrev pub nearby : ℕ → List MarketSession
  nearby now = sessions (et_date now - lookaround_days) (et_date now + lookaround_days)

  -- `weekly_as_of`
  unfoldable pub weekly_as_of : ℕ → Result ScheduleError (Option ℕ)
  weekly_as_of now = weekly_of (nearby now) (filter (λ s. leb s.closes_at now) (nearby now))
