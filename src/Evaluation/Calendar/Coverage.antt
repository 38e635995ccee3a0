-- ===== src/Evaluation/Calendar/Coverage.antt =====
-- `build_calendar` of evaluation/calendar_rules.py: the calendar of what was visible at one instant.
pub mod Build
use asymmetric_committee.Base.{
  ℕ, zero, suc, ◌+◌, ◌-◌, String, Bool, true, false, not, ◌&&◌, ◌||◌, Option, none, some, List, [],
  ◌∷◌, ◌++◌, Result, ok, err, and_then, if◌then◌else◌, ltb, leb, ◌==◌, any, filter, length, sort_by,
  map,
}
use asymmetric_committee.Evaluation.Calendar.{
  TradingSession, TradingCalendar, CalendarError, coverage_error,
}

-- `CalendarCoverage`
pub record CalendarCoverage : Type 0 where
  pub source : ℕ
  pub range_start : ℕ
  pub range_end : ℕ
  pub available_at : ℕ
  pub session_count : ℕ
  pub sessions_sha256 : String
  pub source_version : ℕ

-- `(a.available_at, a.source_version) > (b.available_at, b.source_version)`
abbrev pub newer : ℕ → ℕ → ℕ → ℕ → Bool
newer at version at' version' = ltb at' at || (at == at' && ltb version' version)

-- the newer of two, the second where they are equal
unfoldable pub newer_of : TradingSession → TradingSession → TradingSession
newer_of s best =
    if newer s.available_at s.source_version best.available_at best.source_version then s else best

-- `max` from a first best; among equals the first stays
unfoldable pub latest_from : TradingSession → List TradingSession → TradingSession
unfolding newer_of
latest_from best [] = best
latest_from best (s ∷ ss) = latest_from (newer_of s best) ss

-- `_latest`, where there is a session
unfoldable pub latest : List TradingSession → Option TradingSession
unfolding latest_from
latest [] = none
latest (s ∷ ss) = some (latest_from s ss)

abbrev same_range : CalendarCoverage → CalendarCoverage → Bool
same_range a b =
    a.source == b.source && (a.range_start == b.range_start && a.range_end == b.range_end)

unfoldable pub put_newest : CalendarCoverage → List CalendarCoverage → List CalendarCoverage
put_newest c [] = c ∷ []
put_newest c (k ∷ ks) =
    let rest = put_newest c ks in
    if same_range c k
    then (if newer c.available_at c.source_version k.available_at k.source_version
        then c ∷ ks
        else k ∷ ks)
    else k ∷ rest

-- `by_range`: the newest row of each source and range, in the order of first appearance
unfoldable pub by_range : List CalendarCoverage → List CalendarCoverage → List CalendarCoverage
unfolding put_newest
by_range rows [] = rows
by_range rows (c ∷ cs) = by_range (put_newest c rows) cs

-- the keys of `versions`
unfoldable pub dates_from : List ℕ → List TradingSession → List ℕ
dates_from ds [] = ds
dates_from ds (s ∷ ss) =
    dates_from (if any (λ d. d == s.session_date) ds then ds else ds ++ s.session_date ∷ []) ss

-- `versions[d]`
abbrev pub versions : List TradingSession → ℕ → List TradingSession
versions sessions d = filter (λ s. s.session_date == d) sessions

abbrev pub covers : CalendarCoverage → ℕ → Bool
covers c d = leb c.range_start d && leb d c.range_end

-- the version of a date that was current when `c` was written
unfoldable pub current_at : CalendarCoverage → List TradingSession → ℕ → Option TradingSession
unfolding latest
current_at c sessions d =
    if covers c d
    then latest (filter (λ s. leb s.available_at c.available_at) (versions sessions d))
    else none

abbrev pub present : List (Option TradingSession) → List TradingSession
present [] = []
present (none ∷ os) = present os
present (some s ∷ os) = s ∷ present os

module _ (same_text : String → String → Bool) (calendar_hash : List TradingSession → String) where
  -- the check of one coverage row
  unfoldable pub matches : List TradingSession → List ℕ → CalendarCoverage → Bool
  unfolding current_at
  matches sessions dates c =
      let current = present (map (current_at c sessions) dates) in
      length current == c.session_count && same_text (calendar_hash current) c.sessions_sha256

  unfoldable pub effective_for :
      List CalendarCoverage
      → ℕ
      → Option TradingSession
      → Result CalendarError (Option TradingSession)
  effective_for rows d none = ok none
  effective_for rows d (some newest) =
      if any (λ c. covers c d) rows
      then (if any (λ c. covers c d && leb newest.available_at c.available_at) rows
          then ok (some newest)
          else err coverage_error)
      else ok none

  -- the check and the entry of one date in `effective`; none for a date outside every range
  unfoldable pub effective_at :
      List CalendarCoverage → List TradingSession → ℕ → Result CalendarError (Option TradingSession)
  unfolding latest effective_for
  effective_at rows sessions d = effective_for rows d (latest (versions sessions d))

  abbrev pub add_entry :
      ℕ → Option TradingSession → List (ℕ × TradingSession) → List (ℕ × TradingSession)
  add_entry d none es = es
  add_entry d (some s) es = (d, s) ∷ es

  -- the second loop of `build_calendar`
  unfoldable pub effective :
      List CalendarCoverage
      → List TradingSession
      → List ℕ
      → Result CalendarError (List (ℕ × TradingSession))
  unfolding effective_at
  effective rows sessions [] = ok []
  effective rows sessions (d ∷ ds) =
      and_then (effective_at rows sessions d)
        (λ o. and_then (effective rows sessions ds) (λ es. ok (add_entry d o es)))

  abbrev range_le : ℕ × ℕ → ℕ × ℕ → Bool
  range_le (a, b) (c, d) = ltb a c || (a == c && leb b d)

  abbrev add_range : ℕ × ℕ → List (ℕ × ℕ) → List (ℕ × ℕ)
  add_range r rs = if any (λ q. r.0 == q.0 && r.1 == q.1) rs then rs else r ∷ rs

  abbrev ranges_of : List CalendarCoverage → List (ℕ × ℕ)
  ranges_of [] = []
  ranges_of (c ∷ cs) = add_range (c.range_start, c.range_end) (ranges_of cs)

  -- `build_calendar`
  unfoldable pub build_calendar :
      List TradingSession → List CalendarCoverage → Result CalendarError TradingCalendar
  unfolding by_range dates_from matches effective
  build_calendar sessions coverage =
      let rows = by_range [] coverage in
      let dates = dates_from [] sessions in
      if any (λ c. not (matches sessions dates c)) rows
      then err coverage_error
      else and_then (effective rows sessions dates)
          (λ es. ok (record { sessions = es; ranges = sort_by range_le (ranges_of rows) }))
