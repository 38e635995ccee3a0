-- ===== src/Risk/KillSwitch.antt =====
-- risk/kill_switch.py: the automatic triggers and the latch. Equity is in whole cents, a loss or a
-- drawdown is the fraction that the code divides out, and an instant or a span is in microseconds.
pub mod Latch
pub mod Triggers
mod Tests
use asymmetric_committee.Base.{
  ℕ, ◌+◌, ◌-◌, Bool, true, false, not, ◌||◌, ◌&&◌, Option, none, some, List, [], ◌∷◌, Result, ok,
  err, if◌then◌else◌, ltb, leb, is_some, sort_by, all, any, and_then,
}
use asymmetric_committee.Base.Int.{ℤ, pos, negsuc, ◌-ℤ◌, scale, ltb_ℤ}
use asymmetric_committee.Contracts.Enums.{KillTrigger, FeedName, OrderSide, sell}

pub data RiskError : Type 0 where
  value_error equity_evidence halted_error : RiskError

-- A float of the broker: a number of cents, or one that `math.isfinite` refuses.
pub data Figure : Type 0 where
  finite : ℤ → Figure
  not_finite : Figure

-- The quotient num / den, den not 0.
pub record Ratio : Type 0 where
  pub num : ℤ
  pub den : ℕ

-- `a > b` on quotients
abbrev pub exceeds : Ratio → Ratio → Bool
exceeds a b = ltb_ℤ (scale a.den b.num) (scale b.den a.num)

-- `daily_loss`
unfoldable pub daily_loss : Figure → Figure → Result RiskError Ratio
daily_loss (finite equity) (finite (pos prior)) =
    if ltb 0 prior then ok (record { num = pos prior -ℤ equity; den = prior }) else err value_error
daily_loss _ _ = err value_error

-- `math.isfinite(v) and v > 0`
abbrev pub usable : Figure → Bool
usable (finite (pos v)) = ltb 0 v
usable _ = false

abbrev pub amount : Figure → ℕ
amount (finite (pos v)) = v
amount _ = 0

-- `max` of amounts
pub peak_of : List Figure → ℕ
peak_of [] = 0
peak_of (v ∷ vs) = let rest = peak_of vs in if ltb rest (amount v) then amount v else rest

-- `peak_drawdown`: the peak, and the drawdown from it
unfoldable pub peak_drawdown : List Figure → Figure → Result RiskError (ℕ × Ratio)
peak_drawdown [] current = err equity_evidence
peak_drawdown (v ∷ vs) current =
    if all usable (v ∷ vs) && usable current
    then (let peak = peak_of (current ∷ v ∷ vs) in
        ok (peak, record { num = pos (peak - amount current); den = peak }))
    else err equity_evidence

-- The test of one feed in `stale_feeds`: never seen, or `now - seen > sla`.
abbrev pub is_stale : Option ℕ → ℕ → ℕ → Bool
is_stale none sla now = true
is_stale (some seen) sla now = ltb (seen + sla) now

-- `stale_feeds`: the required feeds in the order of `sla_hours`
pub stale_feeds : (FeedName → Option ℕ) → List (FeedName × ℕ) → ℕ → List FeedName
stale_feeds last_success [] now = []
stale_feeds last_success ((feed, sla) ∷ rest) now =
    let others = stale_feeds last_success rest now in
    if is_stale (last_success feed) sla now then feed ∷ others else others

abbrev stale_trigger : List FeedName → Option KillTrigger
stale_trigger [] = none
stale_trigger (_ ∷ _) = some KillTrigger.stale_feed

-- `evaluate`
unfoldable pub evaluate :
    Figure
    → Figure
    → Ratio
    → (FeedName → Option ℕ)
    → List (FeedName × ℕ)
    → ℕ
    → Result RiskError (Option KillTrigger)
unfolding daily_loss stale_feeds
evaluate equity prior limit last_success sla now = and_then (daily_loss equity prior) (λ loss.
    if exceeds loss limit
    then ok (some KillTrigger.daily_loss)
    else ok (stale_trigger (stale_feeds last_success sla now)))

-- `KillSwitch`: `_trigger`
pub record KillSwitch : Type 0 where
  pub trigger : Option KillTrigger

abbrev pub fresh : KillSwitch
fresh = record { trigger = none }

-- `KillSwitch.halted`
abbrev pub halted : KillSwitch → Bool
halted ks = is_some ks.trigger

-- `KillSwitch.halt`: the switch afterwards, and whether this call engaged it
unfoldable pub halt : KillTrigger → KillSwitch → Bool × KillSwitch
halt t ks = if halted ks then (false, ks) else (true, record { trigger = some t })

abbrev pub is_sell : OrderSide → Bool
is_sell sell = true
is_sell _ = false

-- `KillSwitch.allows`
unfoldable pub allows : KillSwitch → OrderSide → Bool
allows ks side = not (halted ks) || is_sell side

-- `KillSwitch.require`
pub require : KillSwitch → OrderSide → Result RiskError Unit
unfolding allows
require ks side = if allows ks side then ok tt else err halted_error

-- `KillSwitchEvent`; a fraction is absent where the code passes None
pub record KillSwitchEvent : Type 0 where
  pub triggered_at : ℕ
  pub trigger : KillTrigger
  pub loss : Option Ratio
  pub drawdown : Option Ratio
  pub cancelled_order_ids : List ℕ
  pub flattened : Bool

abbrev pub not_later : KillSwitchEvent → KillSwitchEvent → Bool
not_later e f = leb e.triggered_at f.triggered_at

pub halt_all : KillSwitch → List KillSwitchEvent → KillSwitch
unfolding halt
halt_all ks [] = ks
halt_all ks (e ∷ es) = halt_all (halt e.trigger ks).1 es

-- `KillSwitch.from_events`
pub from_events : List KillSwitchEvent → KillSwitch
unfolding halt_all
from_events es = halt_all fresh (sort_by not_later es)

-- `was_flattened`
pub was_flattened : List KillSwitchEvent → Bool
was_flattened = any (λ e. e.flattened)
