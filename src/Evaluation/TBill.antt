-- ===== src/Evaluation/TBill.antt =====
-- evaluation/tbill_rules.py: which vintage of which rate accrues on a date. The yield is only
-- copied; it is in millionths of a percent.
pub mod Latest
pub mod Selection
use asymmetric_committee.Base.{
  ℕ, ◌+◌, Bool, true, false, not, ◌&&◌, ◌||◌, Option, none, some, List, [], ◌∷◌, Result, ok, err,
  if◌then◌else◌, ltb, leb, ◌==◌,
}
use asymmetric_committee.Base.Int.{ℤ}
use asymmetric_committee.Evaluation.Calendar.{
  TradingCalendar, lookup, previous_session, CalendarError, coverage_error,
}

-- `TBillUnresolved`
pub data TBillUnresolved : Type 0 where
  no_vintage_coverage before_earliest_vintage no_usable_rate calendar_uncovered : TBillUnresolved

-- `TBillObservation`, the fields that the selection reads
pub record TBillObservation : Type 0 where
  pub observation_date : ℕ
  pub vintage_date : ℕ
  pub yield_pct : ℤ

-- `TBillRate`, or `Unresolved`, or an exception that `select_rate` lets through
pub data Selected : Type 0 where
  rate : ℕ → ℕ → ℤ → Selected
  unresolved : TBillUnresolved → Selected
  raised : CalendarError → Selected

-- A row that the loop does not skip.
abbrev pub is_usable : ℕ → ℕ → TBillObservation → Bool
is_usable accrual previous r = not (leb accrual r.vintage_date || ltb previous r.observation_date)

abbrev keep_later : TBillObservation → TBillObservation → TBillObservation
keep_later r kept = if ltb kept.vintage_date r.vintage_date then r else kept

-- one turn of the loop on the dictionary `latest`
unfoldable pub put_rate :
    TBillObservation → List (ℕ × TBillObservation) → List (ℕ × TBillObservation)
put_rate r [] = (r.observation_date, r) ∷ []
put_rate r ((k, kept) ∷ es) =
    let rest = put_rate r es in
    if r.observation_date == k then (k, keep_later r kept) ∷ es else (k, kept) ∷ rest

-- one turn, with the `continue`
unfoldable pub take_rate :
    ℕ → ℕ → TBillObservation → List (ℕ × TBillObservation) → List (ℕ × TBillObservation)
unfolding put_rate
take_rate accrual previous r es = if is_usable accrual previous r then put_rate r es else es

unfoldable pub latest_rates :
    ℕ → ℕ → List (ℕ × TBillObservation) → List TBillObservation → List (ℕ × TBillObservation)
unfolding take_rate
latest_rates accrual previous es [] = es
latest_rates accrual previous es (r ∷ rs) =
    latest_rates accrual previous (take_rate accrual previous r es) rs

-- `max` of the keys
unfoldable pub max_key : ℕ → List (ℕ × TBillObservation) → ℕ
max_key best [] = best
max_key best ((k, _) ∷ es) = max_key (if ltb best k then k else best) es

abbrev pub rate_of : Option TBillObservation → Selected
rate_of none = unresolved TBillUnresolved.no_usable_rate
rate_of (some r) = rate r.observation_date r.vintage_date r.yield_pct

unfoldable pub choose : List (ℕ × TBillObservation) → Selected
unfolding max_key
choose [] = unresolved TBillUnresolved.no_usable_rate
choose ((k, r) ∷ es) = rate_of (lookup (max_key k es) ((k, r) ∷ es))

unfoldable pub select_before : List TBillObservation → ℕ → Result CalendarError ℕ → Selected
unfolding latest_rates choose
select_before rows accrual (ok previous) = choose (latest_rates accrual previous [] rows)
select_before rows accrual (err coverage_error) = unresolved TBillUnresolved.calendar_uncovered
select_before rows accrual (err e) = raised e

-- `select_rate`; of the coverage it reads `earliest_vintage`
unfoldable pub select_rate : List TBillObservation → Option ℕ → ℕ → TradingCalendar → Selected
unfolding select_before
select_rate rows none accrual cal = unresolved TBillUnresolved.no_vintage_coverage
select_rate rows (some earliest_vintage) accrual cal =
    if leb accrual earliest_vintage
    then unresolved TBillUnresolved.before_earliest_vintage
    else select_before rows accrual (previous_session cal accrual)
