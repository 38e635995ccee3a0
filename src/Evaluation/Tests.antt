-- ===== src/Evaluation/Tests.antt =====
-- Tests and instances for the calendar and the choice of a rate.
use asymmetric_committee.Base.{
  ℕ, ◌≡◌, ◌↔◌, ◌*◌, ◌+◌, refl, String, Bool, true, some, List, [], ◌∷◌, ok, Elem, All,
}
use asymmetric_committee.Base.Int.{pos}
use asymmetric_committee.Evaluation.Calendar.{
  TradingSession, TradingCalendar, open_day, status, session, walk, step, next_session,
  previous_session, max_walk_days, iterate, horizon_session,
}
use asymmetric_committee.Evaluation.Calendar.Coverage.{
  CalendarCoverage, build_calendar, by_range, put_newest, dates_from, matches, current_at, latest,
  latest_from, newer_of, effective, effective_at, effective_for,
}
use asymmetric_committee.Evaluation.Calendar.Walk.{
  IsNext, next_session_iff, previous_session-next_session,
}
use asymmetric_committee.Evaluation.Calendar.Horizon.{Counts, horizon_session-Counts}
use asymmetric_committee.Evaluation.Calendar.Coverage.Build.{Backed, build_calendar-Backed}
use asymmetric_committee.Evaluation.TBill.{
  TBillObservation, rate, select_rate, select_before, latest_rates, take_rate, put_rate, choose,
  max_key, is_usable,
}
use asymmetric_committee.Evaluation.TBill.Latest.{IsLater}
use asymmetric_committee.Evaluation.TBill.Selection.{select_rate-latest}

abbrev session_on : ℕ → ℕ → TradingSession
session_on d version = record {
  session_date = d;
  open_at = 100 * d;
  close_at = 100 * d + 50;
  available_at = version;
  source_version = version;
}

abbrev row : CalendarCoverage
row = record {
  source = 1;
  range_start = 9;
  range_end = 20;
  available_at = 5;
  session_count = 2;
  sessions_sha256 = "hash";
  source_version = 1;
}

-- The session of day 10 was revised.
abbrev given : List TradingSession
given = session_on 10 1 ∷ session_on 10 2 ∷ session_on 13 1 ∷ []

abbrev calendar : TradingCalendar
calendar = record {
  sessions = (10, session_on 10 2) ∷ (13, session_on 13 1) ∷ [];
  ranges = (9, 20) ∷ [];
}

abbrev same : String → String → Bool
same a b = true

abbrev hash : List TradingSession → String
hash ss = "hash"

built : build_calendar same hash given (row ∷ []) ≡ ok calendar
unfolding build_calendar by_range put_newest dates_from matches current_at latest latest_from
    newer_of effective effective_at effective_for
built = refl

build_calendar-Backed_example : Backed same hash given (row ∷ []) 10 (session_on 10 2)
build_calendar-Backed_example =
    build_calendar-Backed same hash given (row ∷ []) calendar 10 (session_on 10 2) built refl

next_of_10 : next_session calendar 10 ≡ ok 13
unfolding step walk status
next_of_10 = refl

next_session_iff_example : (next_session calendar 10 ≡ ok 13) ↔ IsNext calendar max_walk_days 10 13
next_session_iff_example = next_session_iff calendar 10 13

opened : status calendar 10 ≡ open_day
unfolding status
opened = refl

previous_session-next_session_example : previous_session calendar 13 ≡ ok 10
previous_session-next_session_example =
    previous_session-next_session calendar 10 13 opened next_of_10

here : session calendar 10 ≡ ok (session_on 10 2)
unfolding session
here = refl

one_ahead : horizon_session calendar 10 1 ≡ ok 13
unfolding horizon_session session iterate step walk status
one_ahead = refl

horizon_session-Counts_example : (status calendar 13 ≡ open_day) × Counts calendar 10 1 13
horizon_session-Counts_example =
    horizon_session-Counts calendar 10 1 13 (session_on 10 2) here one_ahead

-- The observation of day 10 in two vintages; the second one is of the accrual date itself.
abbrev rates : List TBillObservation
rates =
    record { observation_date = 9; vintage_date = 11; yield_pct = pos 5 }
    ∷ record { observation_date = 10; vintage_date = 12; yield_pct = pos 6 }
    ∷ record { observation_date = 10; vintage_date = 13; yield_pct = pos 7 }
    ∷ []

chosen : select_rate rates (some 3) 13 calendar ≡ rate 10 12 (pos 6)
unfolding select_rate select_before latest_rates take_rate put_rate choose max_key step walk status
chosen = refl

select_rate-latest_example :
    (previous : ℕ) × (previous_session calendar 13 ≡ ok previous)
    × (r : TBillObservation) × (Elem r rates × (is_usable 13 previous r ≡ true))
    × (rate 10 12 (pos 6) ≡ rate r.observation_date r.vintage_date r.yield_pct)
    × All (λ t. is_usable 13 previous t ≡ true → IsLater r t) rates
select_rate-latest_example = select_rate-latest rates (some 3) 13 calendar 10 12 (pos 6) chosen
