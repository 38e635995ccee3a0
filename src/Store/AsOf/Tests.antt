-- ===== src/Store/AsOf/Tests.antt =====
-- A few rows, what the reads answer, and instances of the theorems on reads.
use asymmetric_committee.Base.{
  ℕ, ◌≡◌, refl, true, none, some, List, [], ◌∷◌, ◌++◌, ok, err, Elem, arith,
}
use asymmetric_committee.Store.AsOf.{latest_versions, naive_instant}
use asymmetric_committee.Store.AsOf.Reads.{PriceBar, bar_facts, prices}
use asymmetric_committee.Store.AsOf.Reference.{feed_staleness, staleness_of}
use asymmetric_committee.Store.AsOf.Newest.{
  OneRowPerKey, Selectable, AtMostAsNew, latest_versions-Newest,
}
use asymmetric_committee.Store.AsOf.Horizon.{
  Tables, KnowTheSame, SameAnswers, known-append, reads-SameAnswers,
}

abbrev bar : ℕ → ℕ → ℕ → ℕ → PriceBar
bar security day close known_at = record {
  security_id = security;
  event_time = day;
  close = close;
  volume = 100;
  available_at = known_at;
  source_version = 1;
}

-- a bar of day 5 that was corrected on day 8
abbrev bars : List PriceBar
bars = bar 1 5 40 6 ∷ bar 2 5 70 6 ∷ bar 1 4 39 5 ∷ bar 1 5 41 8 ∷ []

before_correction : prices bars (1 ∷ []) (some 7) 10 ≡ ok (bar 1 4 39 5 ∷ bar 1 5 40 6 ∷ [])
unfolding prices latest_versions
before_correction = refl

no_zone : prices bars (1 ∷ []) none 3 ≡ err naive_instant
unfolding prices latest_versions
no_zone = refl

corrected_bars :
    latest_versions bar_facts 8 (λ _. true) bars ≡ bar 1 4 39 5 ∷ bar 1 5 41 8 ∷ bar 2 5 70 6 ∷ []
unfolding latest_versions
corrected_bars = refl

never_ran :
    feed_staleness [] (some 9) ((3, 4) ∷ [])
    ≡ ok (
        record {
          feed = 3;
          sla = 4;
          last_success_at = none;
          age = none;
          stale = true;
          checked_at = 9;
        }
        ∷ [])
unfolding feed_staleness staleness_of
never_ran = refl

latest_versions-Newest_example :
    OneRowPerKey bar_facts (latest_versions bar_facts 8 (λ _. true) bars)
    × ((r : PriceBar)
        → Elem r (latest_versions bar_facts 8 (λ _. true) bars)
        → Selectable bar_facts 8 (λ _. true) bars r
          × ((q : PriceBar)
              → Selectable bar_facts 8 (λ _. true) bars q
              → bar_facts.key q ≡ bar_facts.key r
              → AtMostAsNew bar_facts q r))
    × ((q : PriceBar)
        → Selectable bar_facts 8 (λ _. true) bars q
        → (r : PriceBar) × Elem r (latest_versions bar_facts 8 (λ _. true) bars)
          × (bar_facts.key r ≡ bar_facts.key q))
latest_versions-Newest_example = latest_versions-Newest bar_facts 8 (λ _. true) bars

abbrev tables : List PriceBar → Tables
tables bars = record {
  bars = bars;
  facts = [];
  insiders = [];
  items = [];
  features = [];
  members = [];
  sessions = [];
  coverage = [];
  vintages = [];
  references = [];
}

abbrev corrections : List PriceBar
corrections = bar 1 5 42 9 ∷ bar 3 5 10 9 ∷ []

same_until_8 : KnowTheSame 8 (tables (bars ++ corrections)) (tables bars)
same_until_8 = record {
  bars = known-append bar_facts 8 bars corrections (omega arith, (omega arith, tt));
  facts = refl;
  insiders = refl;
  items = refl;
  features = refl;
  members = refl;
  sessions = refl;
  coverage = refl;
  vintages = refl;
  references = refl;
}

reads-SameAnswers_example : SameAnswers 8 (tables (bars ++ corrections)) (tables bars)
reads-SameAnswers_example =
    reads-SameAnswers 8 (tables (bars ++ corrections)) (tables bars) same_until_8
