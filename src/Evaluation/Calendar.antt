-- ===== src/Evaluation/Calendar.antt =====
-- evaluation/calendar_rules.py: a calendar that answers only where it is covered. A date is the
-- number of days since `date.min`, an instant a number of microseconds. A version is the rank of its
-- string among all strings, since the code only compares versions.
pub mod Horizon
pub mod Walk
pub mod Coverage
use asymmetric_committee.Base.{
  ℕ, zero, suc, ◌+◌, ◌-◌, String, Bool, true, false, not, ◌&&◌, ◌||◌, Option, none, some, List, [],
  ◌∷◌, ◌++◌, Result, ok, err, and_then, if◌then◌else◌, ltb, leb, ◌==◌, any, filter, length, sort_by,
  map,
}

-- `CalendarCoverageError`, and the exceptions of Python
pub data CalendarError : Type 0 where
  coverage_error value_error overflow_error : CalendarError

-- `TradingSession`
pub record TradingSession : Type 0 where
  pub session_date : ℕ
  pub open_at : ℕ
  pub close_at : ℕ
  pub available_at : ℕ
  pub source_version : ℕ

-- `SessionStatus`
pub data SessionStatus : Type 0 where
  open_day closed_day uncovered : SessionStatus

-- `TradingCalendar`, its dictionary as a list
pub record TradingCalendar : Type 0 where
  pub sessions : List (ℕ × TradingSession)
  pub ranges : List (ℕ × ℕ)

abbrev pub lookup : {A : Type 0} → ℕ → List (ℕ × A) → Option A
lookup d [] = none
lookup d ((e, s) ∷ ss) = if d == e then some s else lookup d ss

abbrev pub inside : ℕ → ℕ × ℕ → Bool
inside d (lo, hi) = leb lo d && leb d hi

abbrev status_of : Option TradingSession → SessionStatus
status_of none = closed_day
status_of (some _) = open_day

-- `TradingCalendar.status`
unfoldable pub status : TradingCalendar → ℕ → SessionStatus
status cal day =
    if any (inside day) cal.ranges then status_of (lookup day cal.sessions) else uncovered

abbrev found : Option TradingSession → Result CalendarError TradingSession
found none = err coverage_error
found (some s) = ok s

-- `TradingCalendar.session`
unfoldable pub session : TradingCalendar → ℕ → Result CalendarError TradingSession
session cal day =
    if any (inside day) cal.ranges then found (lookup day cal.sessions) else err coverage_error

pub data Direction : Type 0 where
  after before : Direction

-- `cursor + timedelta(days=direction)`
abbrev pub move : Direction → ℕ → Option ℕ
move after d = some (suc d)
move before zero = none
move before (suc d) = some d

-- `_MAX_WALK_DAYS`
abbrev pub max_walk_days : ℕ
max_walk_days = 3660

abbrev pub arrive : SessionStatus → ℕ → Result CalendarError ℕ → Result CalendarError ℕ
arrive open_day day rest = ok day
arrive closed_day day rest = rest
arrive uncovered day rest = err coverage_error

-- the loop of `TradingCalendar._step`
unfoldable pub walk : ℕ → Direction → TradingCalendar → ℕ → Result CalendarError ℕ
unfolding status
walk zero direction cal day = err coverage_error
walk (suc n) direction cal day = elim (move direction day) [
  | none ↦ err overflow_error
  | some next ↦ arrive (status cal next) next (walk n direction cal next)
]

-- `TradingCalendar._step`
unfoldable pub step : Direction → TradingCalendar → ℕ → Result CalendarError ℕ
unfolding walk
step direction cal day = walk max_walk_days direction cal day

-- `TradingCalendar.next_session`
abbrev pub next_session : TradingCalendar → ℕ → Result CalendarError ℕ
next_session cal day = step after cal day

-- `TradingCalendar.previous_session`
abbrev pub previous_session : TradingCalendar → ℕ → Result CalendarError ℕ
previous_session cal day = step before cal day

-- `TradingCalendar.d0`
pub d0 : TradingCalendar → ℕ → Result CalendarError ℕ
unfolding session
d0 cal as_of_session = and_then (session cal as_of_session) (λ s. next_session cal s.session_date)

unfoldable pub iterate : ℕ → TradingCalendar → ℕ → Result CalendarError ℕ
iterate zero cal cursor = ok cursor
iterate (suc n) cal cursor = and_then (next_session cal cursor) (iterate n cal)

-- `TradingCalendar.horizon_session`
unfoldable pub horizon_session : TradingCalendar → ℕ → ℕ → Result CalendarError ℕ
unfolding session iterate
horizon_session cal start horizon =
    if ltb horizon 1
    then err value_error
    else and_then (session cal start) (λ s. iterate horizon cal s.session_date)

abbrev closing :
    ℕ
    → SessionStatus
    → Option TradingSession
    → Result CalendarError TradingSession
    → Result CalendarError TradingSession
closing instant uncovered s rest = err coverage_error
closing instant closed_day s rest = rest
closing instant open_day none rest = rest
closing instant open_day (some s) rest = if ltb instant s.close_at then ok s else rest

pub closing_walk : ℕ → TradingCalendar → ℕ → ℕ → Result CalendarError TradingSession
unfolding status
closing_walk zero cal instant day = err coverage_error
closing_walk (suc n) cal instant day =
    closing instant (status cal day) (lookup day cal.sessions)
      (closing_walk n cal instant (suc day))

-- `TradingCalendar.session_closing_after`
pub session_closing_after : TradingCalendar → ℕ → ℕ → Result CalendarError TradingSession
unfolding closing_walk
session_closing_after cal instant start_day = closing_walk max_walk_days cal instant start_day
