-- ===== src/Store/AsOf/Reads.antt =====
-- store/as_of.py: the reads, one function each. The rows have the columns that a read looks at, and
-- the database-only `ingested_at` is not among them.
use asymmetric_committee.Base.{
  ℕ, ◌+◌, Bool, true, not, ◌&&◌, ◌||◌, Option, none, some, List, [], ◌∷◌, Result, ok, and_then,
  if◌then◌else◌, ltb, leb, ◌==◌, any, sort_by,
}
use asymmetric_committee.Store.AsOf.{StoreError, check_ts, lex_leq, Facts, known, latest_versions}

-- `PriceBar`
pub record PriceBar : Type 0 where
  pub security_id : ℕ
  pub event_time : ℕ
  pub close : ℕ
  pub volume : ℕ
  pub available_at : ℕ
  pub source_version : ℕ

-- `FundamentalFact`
pub record FundamentalFact : Type 0 where
  pub security_id : ℕ
  pub concept : ℕ
  pub unit : ℕ
  pub period_start : Option ℕ
  pub period_end : ℕ
  pub value : ℕ
  pub available_at : ℕ
  pub source_version : ℕ

-- `InsiderTxn`
pub record InsiderTxn : Type 0 where
  pub security_id : ℕ
  pub accession : ℕ
  pub seq : ℕ
  pub available_at : ℕ
  pub source_version : ℕ

-- `NewsItem`
pub record NewsItem : Type 0 where
  pub item_id : ℕ
  pub security_ids : List ℕ
  pub event_time : ℕ
  pub available_at : ℕ
  pub source_version : ℕ

-- `FeatureRow`
pub record FeatureRow : Type 0 where
  pub security_id : ℕ
  pub event_time : ℕ
  pub feature_set_version : ℕ
  pub available_at : ℕ
  pub source_version : ℕ

-- `UniverseMember`
pub record UniverseMember : Type 0 where
  pub snapshot_date : ℕ
  pub security_id : ℕ
  pub rank : Option ℕ
  pub included : Bool
  pub available_at : ℕ
  pub source_version : ℕ

-- NULLs sort last and are one value for DISTINCT ON.
abbrev null_last : Option ℕ → ℕ
null_last none = 1
null_last (some _) = 0

abbrev or_zero : Option ℕ → ℕ
or_zero none = 0
or_zero (some n) = n

abbrev pub is_in : List ℕ → ℕ → Bool
is_in ids id = any (λ i. i == id) ids

abbrev pub bar_facts : Facts PriceBar
bar_facts = record {
  key = λ r. r.security_id ∷ r.event_time ∷ [];
  available_at = λ r. r.available_at;
  source_version = λ r. r.source_version;
}

-- `event_time > as_of - lookback`
abbrev pub since : ℕ → ℕ → ℕ → Bool
since as_of lookback t = ltb as_of (t + lookback)

-- `prices`
unfoldable pub prices : List PriceBar → List ℕ → Option ℕ → ℕ → Result StoreError (List PriceBar)
prices table ids as_of lookback = and_then (check_ts as_of) (λ now. ok (
    latest_versions bar_facts now
      (λ r. is_in ids r.security_id && since now lookback r.event_time && leb r.event_time now)
      table))

abbrev pub fundamental_facts : Facts FundamentalFact
fundamental_facts = record {
  key = λ r.
      r.security_id
      ∷ r.concept
      ∷ r.unit
      ∷ null_last r.period_start
      ∷ or_zero r.period_start
      ∷ r.period_end
      ∷ [];
  available_at = λ r. r.available_at;
  source_version = λ r. r.source_version;
}

abbrev pub in_concepts : Option (List ℕ) → ℕ → Bool
in_concepts none c = true
in_concepts (some cs) c = is_in cs c

-- `fundamentals`
unfoldable pub fundamentals :
    List FundamentalFact → ℕ → Option ℕ → Option (List ℕ) → Result StoreError (List FundamentalFact)
fundamentals table id as_of concepts = and_then (check_ts as_of) (λ now. ok (
    latest_versions fundamental_facts now
      (λ r. (r.security_id == id) && in_concepts concepts r.concept) table))

abbrev pub insider_facts : Facts InsiderTxn
insider_facts = record {
  key = λ r. r.accession ∷ r.seq ∷ [];
  available_at = λ r. r.available_at;
  source_version = λ r. r.source_version;
}

-- `insider_txns`
unfoldable pub insider_txns :
    List InsiderTxn → List ℕ → Option ℕ → ℕ → Result StoreError (List InsiderTxn)
insider_txns table ids as_of lookback = and_then (check_ts as_of) (λ now. ok (
    latest_versions insider_facts now
      (λ r. is_in ids r.security_id && since now lookback r.available_at) table))

abbrev pub news_facts : Facts NewsItem
news_facts = record {
  key = λ r. r.item_id ∷ [];
  available_at = λ r. r.available_at;
  source_version = λ r. r.source_version;
}

-- `news`
unfoldable pub news : List NewsItem → List ℕ → Option ℕ → ℕ → Result StoreError (List NewsItem)
news table ids as_of lookback = and_then (check_ts as_of) (λ now. ok (
    latest_versions news_facts now
      (λ r. any (is_in ids) r.security_ids && since now lookback r.event_time) table))

abbrev pub feature_facts : Facts FeatureRow
feature_facts = record {
  key = λ r. r.security_id ∷ r.event_time ∷ r.feature_set_version ∷ [];
  available_at = λ r. r.available_at;
  source_version = λ r. r.source_version;
}

-- the dictionary `newest`, in the order of its keys' first entries
abbrev pub put_newer_row : FeatureRow → List FeatureRow → List FeatureRow
put_newer_row r [] = r ∷ []
put_newer_row r (n ∷ ns) =
    let rest = put_newer_row r ns in
    if n.security_id == r.security_id
    then (if ltb n.event_time r.event_time then r ∷ ns else n ∷ ns)
    else n ∷ rest

abbrev pub newest_of : List FeatureRow → List FeatureRow → List FeatureRow
newest_of newest [] = newest
newest_of newest (r ∷ rs) = newest_of (put_newer_row r newest) rs

-- `feature_rows`
unfoldable pub feature_rows :
    List FeatureRow → List ℕ → Option ℕ → ℕ → Result StoreError (List FeatureRow)
feature_rows table ids as_of version = and_then (check_ts as_of) (λ now. ok (
    newest_of [] (
      latest_versions feature_facts now
        (λ r. is_in ids r.security_id && (r.feature_set_version == version)) table)))

abbrev pub member_facts : Facts UniverseMember
member_facts = record {
  key = λ r. r.snapshot_date ∷ r.security_id ∷ [];
  available_at = λ r. r.available_at;
  source_version = λ r. r.source_version;
}

-- `max(snapshot_date)`
abbrev pub latest_date : List UniverseMember → Option ℕ
latest_date [] = none
latest_date (m ∷ ms) = elim (latest_date ms) [
  | none ↦ some m.snapshot_date
  | some d ↦ if ltb d m.snapshot_date then some m.snapshot_date else some d
]

abbrev pub rank_leq : UniverseMember → UniverseMember → Bool
rank_leq a b =
    lex_leq (null_last a.rank ∷ or_zero a.rank ∷ a.security_id ∷ [])
      (null_last b.rank ∷ or_zero b.rank ∷ b.security_id ∷ [])

abbrev pub on_date : ℕ → List UniverseMember → Bool → Option ℕ → List UniverseMember
on_date now table included_only none = []
on_date now table included_only (some d) = sort_by rank_leq (
    latest_versions member_facts now
      (λ r. (r.snapshot_date == d) && (not included_only || r.included)) table)

-- `universe`
unfoldable pub universe :
    List UniverseMember → Option ℕ → Bool → Result StoreError (List UniverseMember)
universe table as_of included_only =
    and_then (check_ts as_of)
      (λ now. ok (on_date now table included_only (latest_date (known member_facts now table))))
