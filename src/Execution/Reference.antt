-- ===== src/Execution/Reference.antt =====
-- execution/reference.py (`reference_price`) and execution/reference_rules.py. A trade's price is in
-- hundredths of a cent, an instant in microseconds; the price of a live rule is a ratio, since a
-- midpoint may be half a unit.
pub mod Backtest
pub mod Decision
pub mod Ordered
mod Tests
use asymmetric_committee.Base.{
  ℕ, ◌+◌, ◌-◌, ◌*◌, String, Bool, true, false, not, ◌&&◌, ◌||◌, Option, none, some, List, [], ◌∷◌,
  ◌++◌, Result, ok, err, if◌then◌else◌, ltb, leb, ◌==◌, any, all, filter, map, sort_by,
}
use asymmetric_committee.Base.Int.{ℤ, pos}
use asymmetric_committee.Contracts.Enums.{ReferenceSource, iex_mid, sip_last}
use asymmetric_committee.Risk.KillSwitch.{Ratio, Figure, finite, usable, amount}
use asymmetric_committee.Evaluation.Calendar.{TradingSession}
use asymmetric_committee.Execution.Conditions.{
  Tape, RefReason, unknown_condition, no_eligible_trade, ambiguous_order, no_reference_price,
  calendar_uncovered, ConditionEligibility, eligible, ineligible, conditional, unknown, Eligibility,
  ProviderEntry, evaluate_conditions,
}

-- `SipTrade`
pub record SipTrade : Type 0 where
  pub symbol : String
  pub time : ℕ
  pub price : ℕ
  pub tape : Tape
  pub conditions : List String
  pub trade_id : Option String

-- What a `ReferenceObservation` says beyond its symbol and time.
pub data Outcome : Type 0 where
  resolved_live : Ratio → ReferenceSource → Outcome
  resolved_sip : SipTrade → Outcome
  unresolved : RefReason → Outcome

-- `ReferenceObservation`
pub record ReferenceObservation : Type 0 where
  pub symbol_ref : String
  pub ref_time : ℕ
  pub outcome : Outcome

-- `MAX_IEX_SPREAD_BPS` and `SIP_DELAY`
abbrev pub max_iex_spread_bps : ℕ
max_iex_spread_bps = 50

abbrev pub sip_delay : ℕ
sip_delay = 900000000

-- the answers of `QuoteSource`: the quote, and the last trade at or before an instant
pub record QuoteSource : Type 0 where
  pub iex_quote : String → Option (Figure × Figure)
  pub sip_last_trade : String → ℕ → Option Figure

-- The quote is usable: both sides positive, not crossed, and the spread within the limit.
abbrev pub tight : ℕ → Figure → Figure → Bool
tight max_spread_bps bid ask =
    usable bid
    && (usable ask
        && (leb (amount bid) (amount ask)
            && leb ((amount ask - amount bid) * 20000)
                (max_spread_bps * (amount bid + amount ask))))

abbrev pub from_trade : Option Figure → Option (Ratio × ReferenceSource)
from_trade none = none
from_trade (some t) =
    if usable t then some (record { num = pos (amount t); den = 1 }, sip_last) else none

abbrev pub from_quote :
    ℕ
    → Option (Figure × Figure)
    → Option (Ratio × ReferenceSource)
    → Option (Ratio × ReferenceSource)
from_quote max_spread_bps none rest = rest
from_quote max_spread_bps (some (bid, ask)) rest =
    if tight max_spread_bps bid ask
    then some (record { num = pos (amount bid + amount ask); den = 2 }, iex_mid)
    else rest

-- `reference_price`; none where it raises `NoReferencePriceError`
unfoldable pub reference_price : QuoteSource → String → ℕ → ℕ → Option (Ratio × ReferenceSource)
reference_price source symbol now max_spread_bps =
    from_quote max_spread_bps (source.iex_quote symbol)
      (from_trade (source.sip_last_trade symbol (now - sip_delay)))

abbrev live_outcome : Option (Ratio × ReferenceSource) → Outcome
live_outcome none = unresolved no_reference_price
live_outcome (some (price, source)) = resolved_live price source

-- `resolve_live`
pub resolve_live : QuoteSource → String → ℕ → ReferenceObservation
unfolding reference_price
resolve_live source symbol at = record {
  symbol_ref = symbol;
  ref_time = at;
  outcome = live_outcome (reference_price source symbol at max_iex_spread_bps);
}

-- `Kind` and `Verdict`
pub data Kind : Type 0 where
  qualifies not_eligible undecided : Kind

pub record Verdict : Type 0 where
  pub trade : SipTrade
  pub kind : Kind
  pub reason : Option RefReason

abbrev pub verdict : SipTrade → Kind → Option RefReason → Verdict
verdict t k r = record { trade = t; kind = k; reason = r }

abbrev pub qualified : Verdict → Bool
qualified v = elim v.kind [ qualifies ↦ true | _ ↦ false ]

abbrev pub is_undecided : Verdict → Bool
is_undecided v = elim v.kind [ undecided ↦ true | _ ↦ false ]

-- `groupby` on the time
module _ {A : Type 0} (time_of : A → ℕ) where
  abbrev pub join_group : A → List (List A) → List (List A)
  join_group x [] = (x ∷ []) ∷ []
  join_group x ([] ∷ gs) = (x ∷ []) ∷ gs
  join_group x ((y ∷ ys) ∷ gs) =
      if time_of x == time_of y then (x ∷ y ∷ ys) ∷ gs else (x ∷ []) ∷ (y ∷ ys) ∷ gs

  abbrev pub group_by_time : List A → List (List A)
  group_by_time [] = []
  group_by_time (x ∷ xs) = join_group x (group_by_time xs)

abbrev is_ineligible : Eligibility → Bool
is_ineligible b = elim b.status [ ineligible ↦ true | _ ↦ false ]

-- the last branch, of a conditional trade; `tied` is whether another trade of the instant may count
abbrev pub conditional_verdict : Bool → Bool → Bool → SipTrade → Eligibility → Verdict
conditional_verdict seen_qualifying seen_unknown tied t b =
    if seen_qualifying
    then (if b.needs_note3
        then verdict t undecided (some unknown_condition)
        else verdict t not_eligible none)
    else if tied
    then verdict t undecided (some ambiguous_order)
    else if seen_unknown
    then verdict t undecided (some unknown_condition)
    else verdict t qualifies none

abbrev pub judge : Bool → Bool → Bool → SipTrade → ConditionEligibility → Eligibility → Verdict
judge sq su tied t eligible b = verdict t qualifies none
judge sq su tied t ineligible b = verdict t not_eligible none
judge sq su tied t unknown b = verdict t undecided b.reason
judge sq su tied t conditional b = conditional_verdict sq su tied t b

module _ (pmap : List ProviderEntry) where
  -- the loop over one group; `others` are the verdicts on the trades before, of the same instant
  unfoldable pub judge_group : Bool → Bool → List Eligibility → List SipTrade → List Verdict
  judge_group sq su others [] = []
  judge_group sq su others (t ∷ ts) =
      let b = evaluate_conditions t.tape t.conditions pmap in
      let later = map (λ u. evaluate_conditions u.tape u.conditions pmap) ts in
      let tied = any (λ o. not (is_ineligible o)) (others ++ later) in
      judge sq su tied t b.status b ∷ judge_group sq su (others ++ b ∷ []) ts

  -- the loop of `sequence_verdicts`, with its two flags
  unfoldable pub sequence_from : Bool → Bool → List (List SipTrade) → List Verdict
  unfolding judge_group
  sequence_from sq su [] = []
  sequence_from sq su (g ∷ gs) =
      let vs = judge_group sq su [] g in
      vs ++ sequence_from (sq || any qualified vs) (su || any is_undecided vs) gs

  -- `sequence_verdicts`
  unfoldable pub sequence_verdicts : List SipTrade → List Verdict
  unfolding sequence_from
  sequence_verdicts trades =
      sequence_from false false
        (group_by_time (λ t. t.time) (sort_by (λ t u. leb t.time u.time) trades))

abbrev pub first_reason : List Verdict → Option RefReason
first_reason [] = none
first_reason (v ∷ vs) =
    if is_undecided v
    then (elim v.reason [ none ↦ some unknown_condition | some r ↦ some r ])
    else first_reason vs

abbrev pub trades_of : List Verdict → List SipTrade
trades_of [] = []
trades_of (v ∷ vs) = if qualified v then v.trade ∷ trades_of vs else trades_of vs

-- what one group decides; none to look at the next
abbrev pub settle : List SipTrade → Option Outcome
settle [] = none
settle (t ∷ ts) =
    if all (λ u. u.price == t.price) ts
    then some (resolved_sip t)
    else some (unresolved ambiguous_order)

abbrev pub decide_group : Option RefReason → List SipTrade → Option Outcome
decide_group (some r) ts = some (unresolved r)
decide_group none ts = settle ts

abbrev pub or_else : Option Outcome → Outcome → Outcome
or_else none rest = rest
or_else (some o) rest = o

-- `_decide`
unfoldable pub decide : List (List Verdict) → Outcome
decide [] = unresolved no_eligible_trade
decide (g ∷ gs) = or_else (decide_group (first_reason g) (trades_of g)) (decide gs)

abbrev pub reverse : {A : Type 0} → List A → List A → List A
reverse [] acc = acc
reverse (x ∷ xs) acc = reverse xs (x ∷ acc)

-- `_groups`
abbrev pub groups : List Verdict → List (List Verdict)
groups vs = group_by_time (λ v. v.trade.time) vs

abbrev pub observed : String → ℕ → Outcome → ReferenceObservation
observed symbol at o = record { symbol_ref = symbol; ref_time = at; outcome = o }

-- `resolve_backtest`
unfoldable pub resolve_backtest :
    String → List SipTrade → TradingSession → ℕ → List ProviderEntry → ReferenceObservation
unfolding sequence_verdicts decide
resolve_backtest symbol trades session ref_time pmap =
    if leb session.open_at ref_time && leb ref_time session.close_at
    then (let regular = filter (λ t. leb session.open_at t.time && leb t.time ref_time) trades in
        observed symbol ref_time (decide (reverse (groups (sequence_verdicts pmap regular)) [])))
    else observed symbol ref_time (unresolved no_eligible_trade)

abbrev pub starts_from : ℕ → List Verdict → Bool
starts_from start [] = false
starts_from start (v ∷ vs) = leb start v.trade.time

-- `reconstruct_halt`, in the session found
pub halt_in :
    String → List SipTrade → ℕ → List ProviderEntry → List TradingSession → ReferenceObservation
unfolding sequence_verdicts decide
halt_in symbol trades tau pmap [] = observed symbol tau (unresolved calendar_uncovered)
halt_in symbol trades tau pmap (session ∷ _) =
    let start = if ltb session.open_at tau then tau else session.open_at in
    let regular = filter (λ t. leb session.open_at t.time && leb t.time session.close_at) trades in
    observed symbol tau
      (decide (filter (starts_from start) (groups (sequence_verdicts pmap regular))))

-- `reconstruct_halt`
pub reconstruct_halt :
    String → List SipTrade → ℕ → List TradingSession → List ProviderEntry → ReferenceObservation
unfolding halt_in
reconstruct_halt symbol trades tau sessions pmap =
    halt_in symbol trades tau pmap
      (sort_by (λ s t. leb s.open_at t.open_at) (filter (λ s. ltb tau s.close_at) sessions))
