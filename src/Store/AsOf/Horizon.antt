-- ===== src/Store/AsOf/Horizon.antt =====
-- No look-ahead: what a read answers at an instant depends only on the rows known by then.
use asymmetric_committee.Base.{
  ℕ, ◌≡◌, ◌<◌, refl, ap, sym, ◌∙◌, String, Bool, ◌&&◌, Option, none, some, List, [], ◌∷◌, ◌++◌,
  filter, leb, arith, All, ok, head?, sort_by, ◌==◌,
}
use asymmetric_committee.Evaluation.Calendar.{TradingSession}
use asymmetric_committee.Evaluation.Calendar.Coverage.{CalendarCoverage}
use asymmetric_committee.Store.AsOf.{Facts, known, latest_versions}
use asymmetric_committee.Store.AsOf.Reads.{
  PriceBar, FundamentalFact, InsiderTxn, NewsItem, FeatureRow, UniverseMember, bar_facts,
  fundamental_facts, insider_facts, news_facts, feature_facts, member_facts, prices, fundamentals,
  insider_txns, news, feature_rows, universe, on_date, latest_date, newest_of,
}
use asymmetric_committee.Store.AsOf.Market.{
  VintageCoverage, ExecutionReference, session_facts, coverage_facts, calendar_sessions,
  calendar_coverage, trading_calendar, tbill_vintage_coverage, execution_references,
  later_established,
}

-- The tables that the reads look at
pub record Tables : Type 0 where
  pub bars : List PriceBar
  pub facts : List FundamentalFact
  pub insiders : List InsiderTxn
  pub items : List NewsItem
  pub features : List FeatureRow
  pub members : List UniverseMember
  pub sessions : List TradingSession
  pub coverage : List CalendarCoverage
  pub vintages : List VintageCoverage
  pub references : List ExecutionReference

-- Two states of the store know the same rows by an instant, in the same order.
pub record KnowTheSame (now : ℕ) (a b : Tables) : Type 0 where
  pub bars : known bar_facts now a.bars ≡ known bar_facts now b.bars
  pub facts : known fundamental_facts now a.facts ≡ known fundamental_facts now b.facts
  pub insiders : known insider_facts now a.insiders ≡ known insider_facts now b.insiders
  pub items : known news_facts now a.items ≡ known news_facts now b.items
  pub features : known feature_facts now a.features ≡ known feature_facts now b.features
  pub members : known member_facts now a.members ≡ known member_facts now b.members
  pub sessions : known session_facts now a.sessions ≡ known session_facts now b.sessions
  pub coverage : known coverage_facts now a.coverage ≡ known coverage_facts now b.coverage
  pub vintages :
      filter (λ r. leb r.established_at now) a.vintages
      ≡ filter (λ r. leb r.established_at now) b.vintages
  pub references :
      filter (λ r. leb r.available_at now) a.references
      ≡ filter (λ r. leb r.available_at now) b.references

-- Rows of a later time do not change what is known.
pub known-append :
    {Row : Type 0} (facts : Facts Row) (now : ℕ) (table later : List Row)
    → All (λ r. now < facts.available_at r) later
    → known facts now (table ++ later) ≡ known facts now table
known-append facts now [] [] h = refl
known-append facts now [] (r ∷ later) h = ground (arith, h, known-append facts now [] later h.1)
known-append facts now (r ∷ table) later h = ground (arith, known-append facts now table later h)

filter-both :
    {A : Type 0} (p q : A → Bool) (xs : List A)
    → filter (λ x. p x && q x) xs ≡ filter p (filter q xs)
filter-both p q [] = refl
filter-both p q (x ∷ xs) = ground (arith, filter-both p q xs)

filter-known :
    {A : Type 0} (p q : A → Bool) (xs ys : List A)
    → filter q xs ≡ filter q ys
    → filter (λ x. p x && q x) xs ≡ filter (λ x. p x && q x) ys
filter-known p q xs ys h = filter-both p q xs ∙ ap (filter p) h ∙ sym (filter-both p q ys)

latest_versions-known :
    {Row : Type 0} (facts : Facts Row) (now : ℕ) (where_ : Row → Bool) (a b : List Row)
    → known facts now a ≡ known facts now b
    → latest_versions facts now where_ a ≡ latest_versions facts now where_ b
unfolding latest_versions
latest_versions-known facts now where_ a b h = rw h refl

-- Every point-in-time read at the instant has one answer in both states.
pub record SameAnswers (now : ℕ) (a b : Tables) : Type 0 where
  pub bars :
      (ids : List ℕ) (lookback : ℕ)
      → prices a.bars ids (some now) lookback ≡ prices b.bars ids (some now) lookback
  pub facts :
      (id : ℕ) (concepts : Option (List ℕ))
      → fundamentals a.facts id (some now) concepts ≡ fundamentals b.facts id (some now) concepts
  pub insiders :
      (ids : List ℕ) (lookback : ℕ)
      → insider_txns a.insiders ids (some now) lookback
        ≡ insider_txns b.insiders ids (some now) lookback
  pub items :
      (ids : List ℕ) (lookback : ℕ)
      → news a.items ids (some now) lookback ≡ news b.items ids (some now) lookback
  pub features :
      (ids : List ℕ) (version : ℕ)
      → feature_rows a.features ids (some now) version
        ≡ feature_rows b.features ids (some now) version
  pub members :
      (included_only : Bool)
      → universe a.members (some now) included_only ≡ universe b.members (some now) included_only
  pub calendar :
      (calendar_hash : List TradingSession → String)
      → trading_calendar calendar_hash a.sessions a.coverage (some now)
        ≡ trading_calendar calendar_hash b.sessions b.coverage (some now)
  pub vintages :
      (series : ℕ)
      → tbill_vintage_coverage a.vintages series (some now)
        ≡ tbill_vintage_coverage b.vintages series (some now)
  pub references :
      (run : ℕ)
      → execution_references a.references run (some (some now))
        ≡ execution_references b.references run (some (some now))

on_date-known :
    (now : ℕ) (included_only : Bool) (d : Option ℕ) (a b : List UniverseMember)
    → known member_facts now a ≡ known member_facts now b
    → on_date now a included_only d ≡ on_date now b included_only d
on_date-known now included_only none a b h = refl
on_date-known now included_only (some d) a b h =
    rw (latest_versions-known member_facts now _ a b h) refl

-- Two states of the store that know the same rows by an instant answer each of these nine reads at
-- that instant alike, whatever rows they have that became known later.
pub reads-SameAnswers : (now : ℕ) (a b : Tables) → KnowTheSame now a b → SameAnswers now a b
unfolding prices fundamentals insider_txns news feature_rows universe trading_calendar
    calendar_sessions calendar_coverage tbill_vintage_coverage execution_references
reads-SameAnswers now a b h = record {
  bars = λ ids lookback. ap ok (latest_versions-known bar_facts now _ a.bars b.bars h.bars);
  facts =
      λ id concepts. ap ok (latest_versions-known fundamental_facts now _ a.facts b.facts h.facts);
  insiders = λ ids lookback.
      ap ok (latest_versions-known insider_facts now _ a.insiders b.insiders h.insiders);
  items = λ ids lookback. ap ok (latest_versions-known news_facts now _ a.items b.items h.items);
  features = λ ids version.
      ap (λ rows. ok (newest_of [] rows))
        (latest_versions-known feature_facts now _ a.features b.features h.features);
  members = λ included_only. ap ok (
      ap (λ ms. on_date now a.members included_only (latest_date ms)) h.members
      ∙ on_date-known now included_only _ a.members b.members h.members);
  calendar = λ calendar_hash. rw (h.sessions, h.coverage) refl;
  vintages = λ series.
      ap (λ rows. ok (head? (sort_by later_established rows)))
        (filter-known (λ r. r.series == series) (λ r. leb r.established_at now) a.vintages
          b.vintages h.vintages);
  references = λ run.
      ap (λ rows. ok (sort_by (λ x y. leb x.symbol_ref y.symbol_ref) rows))
        (filter-known (λ r. r.run_id == run) (λ r. leb r.available_at now) a.references b.references
          h.references);
}
