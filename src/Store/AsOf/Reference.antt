-- ===== src/Store/AsOf/Reference.antt =====
-- store/as_of.py: the reads of reference data, of the health of the feeds and of the halt requests.
use asymmetric_committee.Base.{
  ℕ, ◌-◌, Bool, true, false, not, ◌&&◌, Option, none, some, List, [], ◌∷◌, Result, ok, and_then,
  if◌then◌else◌, ltb, leb, ◌==◌, filter, sort_by,
}
use asymmetric_committee.Evaluation.TBill.{TBillObservation}
use asymmetric_committee.Store.AsOf.{StoreError, check_ts, lex_leq}
use asymmetric_committee.Store.AsOf.Reads.{is_in}

-- `SecurityKind`
pub data SecurityKind : Type 0 where
  equity etf : SecurityKind

-- A row of `securities`
pub record Security : Type 0 where
  pub security_id : ℕ
  pub ticker : ℕ
  pub kind : SecurityKind
  pub sector : Option ℕ
  pub listed_from : Option ℕ
  pub listed_to : Option ℕ

abbrev is_equity : SecurityKind → Bool
is_equity equity = true
is_equity etf = false

abbrev in_ids : Option (List ℕ) → ℕ → Bool
in_ids none id = true
in_ids (some ids) id = is_in ids id

abbrev from_by : Option ℕ → ℕ → Bool
from_by none day = true
from_by (some d) day = leb d day

abbrev not_before : Option ℕ → ℕ → Bool
not_before none day = true
not_before (some d) day = leb day d

abbrev listed : Option ℕ → Security → Bool
listed none s = true
listed (some day) s = from_by s.listed_from day && not_before s.listed_to day

-- `securities`
unfoldable pub securities : List Security → Option (List ℕ) → Option ℕ → List Security
securities table ids listed_on =
    sort_by (λ a b. leb a.security_id b.security_id)
      (filter (λ s. is_equity s.kind && (in_ids ids s.security_id && listed listed_on s)) table)

-- `reference_instruments`
unfoldable pub reference_instruments : List Security → List Security
reference_instruments table =
    sort_by (λ a b. leb a.ticker b.ticker) (filter (λ s. not (is_equity s.kind)) table)

-- `FeedHealth`
pub record FeedHealth : Type 0 where
  pub feed : ℕ
  pub last_success_at : Option ℕ

-- `FeedStaleness`, its hours as microseconds
pub record FeedStaleness : Type 0 where
  pub feed : ℕ
  pub sla : ℕ
  pub last_success_at : Option ℕ
  pub age : Option ℕ
  pub stale : Bool
  pub checked_at : ℕ

-- the dictionary of `feed_health`, where a later row of a feed replaces an earlier one
abbrev last_success : ℕ → List FeedHealth → Option ℕ → Option ℕ
last_success feed [] found = found
last_success feed (h ∷ hs) found =
    last_success feed hs (if h.feed == feed then h.last_success_at else found)

abbrev age_at : ℕ → Option ℕ → Option ℕ
age_at now none = none
age_at now (some last) = some (now - last)

abbrev too_old : ℕ → Option ℕ → Bool
too_old sla none = true
too_old sla (some age) = ltb sla age

unfoldable pub staleness_of : List FeedHealth → ℕ → ℕ × ℕ → FeedStaleness
staleness_of health now (feed, sla) =
    let last = last_success feed health none in
    record {
      feed = feed;
      sla = sla;
      last_success_at = last;
      age = age_at now last;
      stale = too_old sla (age_at now last);
      checked_at = now;
    }

abbrev pub each : {A B : Type 0} → (A → B) → List A → List B
each f [] = []
each f (x ∷ xs) = f x ∷ each f xs

abbrev pair_leq : ℕ × ℕ → ℕ × ℕ → Bool
pair_leq a b = lex_leq (a.0 ∷ a.1 ∷ []) (b.0 ∷ b.1 ∷ [])

-- `feed_staleness`
unfoldable pub feed_staleness :
    List FeedHealth → Option ℕ → List (ℕ × ℕ) → Result StoreError (List FeedStaleness)
unfolding staleness_of
feed_staleness health now sla =
    and_then (check_ts now) (λ t. ok (each (staleness_of health t) (sort_by pair_leq sla)))

-- `tbill_rates` of one series
unfoldable pub tbill_rates : List TBillObservation → ℕ → List TBillObservation
tbill_rates table accrual_date =
    sort_by
      (λ a b.
        lex_leq (a.observation_date ∷ a.vintage_date ∷ [])
          (b.observation_date ∷ b.vintage_date ∷ []))
      (filter (λ r. ltb r.vintage_date accrual_date) table)
