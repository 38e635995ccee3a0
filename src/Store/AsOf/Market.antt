-- ===== src/Store/AsOf/Market.antt =====
-- store/as_of.py: the reads of the calendar, the Treasury vintages and the scoring references.
use asymmetric_committee.Base.{
  ℕ, String, Bool, ◌&&◌, Option, none, some, List, [], ◌∷◌, Result, ok, err, and_then,
  if◌then◌else◌, leb, ◌==◌, filter, sort_by, head?, same_text,
}
use asymmetric_committee.Evaluation.Calendar.{TradingSession, TradingCalendar, CalendarError}
use asymmetric_committee.Evaluation.Calendar.Coverage.{CalendarCoverage, build_calendar}
use asymmetric_committee.Store.AsOf.{StoreError, check_ts, calendar_error, lex_leq, Facts, known}

-- `TBillVintageCoverage`
pub record VintageCoverage : Type 0 where
  pub series : ℕ
  pub latest_vintage : ℕ
  pub established_at : ℕ
  pub source_version : ℕ

-- `ExecutionReference`
pub record ExecutionReference : Type 0 where
  pub run_id : ℕ
  pub symbol_ref : ℕ
  pub available_at : ℕ

abbrev pub session_facts : Facts TradingSession
session_facts = record {
  key = λ r. r.session_date ∷ [];
  available_at = λ r. r.available_at;
  source_version = λ r. r.source_version;
}

abbrev pub coverage_facts : Facts CalendarCoverage
coverage_facts = record {
  key = λ r. r.range_start ∷ r.range_end ∷ [];
  available_at = λ r. r.available_at;
  source_version = λ r. r.source_version;
}

-- `ORDER BY key, available_at, source_version`
abbrev pub oldest_first : {Row : Type 0} → Facts Row → Row → Row → Bool
oldest_first facts a b =
    if lex_leq (facts.key a) (facts.key b) && lex_leq (facts.key b) (facts.key a)
    then lex_leq (facts.available_at a ∷ facts.source_version a ∷ [])
        (facts.available_at b ∷ facts.source_version b ∷ [])
    else lex_leq (facts.key a) (facts.key b)

-- `calendar_sessions`
unfoldable pub calendar_sessions :
    List TradingSession → Option ℕ → Result StoreError (List TradingSession)
calendar_sessions table as_of =
    and_then (check_ts as_of)
      (λ now. ok (sort_by (oldest_first session_facts) (known session_facts now table)))

-- `calendar_coverage`
unfoldable pub calendar_coverage :
    List CalendarCoverage → Option ℕ → Result StoreError (List CalendarCoverage)
calendar_coverage table as_of =
    and_then (check_ts as_of)
      (λ now. ok (sort_by (oldest_first coverage_facts) (known coverage_facts now table)))

abbrev pub built : Result CalendarError TradingCalendar → Result StoreError TradingCalendar
built (ok c) = ok c
built (err e) = err (calendar_error e)

-- `trading_calendar`, with the hash of sessions
unfoldable pub trading_calendar :
    (List TradingSession → String)
    → List TradingSession
    → List CalendarCoverage
    → Option ℕ
    → Result StoreError TradingCalendar
unfolding calendar_sessions calendar_coverage
trading_calendar calendar_hash sessions coverage as_of =
    and_then (calendar_sessions sessions as_of) (λ s.
      and_then (calendar_coverage coverage as_of)
        (λ c. built (build_calendar same_text calendar_hash s c)))

abbrev pub later_established : VintageCoverage → VintageCoverage → Bool
later_established a b =
    lex_leq (b.established_at ∷ b.source_version ∷ []) (a.established_at ∷ a.source_version ∷ [])

-- `tbill_vintage_coverage`
unfoldable pub tbill_vintage_coverage :
    List VintageCoverage → ℕ → Option ℕ → Result StoreError (Option VintageCoverage)
tbill_vintage_coverage table series as_of = and_then (check_ts as_of) (λ now. ok (
    head? (
      sort_by later_established
        (filter (λ r. (r.series == series) && leb r.established_at now) table))))

abbrev pub references_until :
    List ExecutionReference → ℕ → Option (Option ℕ) → Result StoreError (List ExecutionReference)
references_until table run none = ok (filter (λ r. r.run_id == run) table)
references_until table run (some as_of) =
    and_then (check_ts as_of)
      (λ now. ok (filter (λ r. (r.run_id == run) && leb r.available_at now) table))

-- `execution_references`
unfoldable pub execution_references :
    List ExecutionReference → ℕ → Option (Option ℕ) → Result StoreError (List ExecutionReference)
execution_references table run as_of =
    and_then (references_until table run as_of)
      (λ rows. ok (sort_by (λ a b. leb a.symbol_ref b.symbol_ref) rows))
