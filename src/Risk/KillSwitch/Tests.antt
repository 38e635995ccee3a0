-- ===== src/Risk/KillSwitch/Tests.antt =====
-- Tests and instances for the kill switch.
use asymmetric_committee.Base.{
  ℕ, ◌≡◌, ◌↔◌, refl, false, Option, none, some, List, [], ◌∷◌, All, arith, ok,
}
use asymmetric_committee.Base.Int.{pos, ◌-ℤ◌, ◌≤ℤ◌, scale}
use asymmetric_committee.Contracts.Enums.{KillTrigger, FeedName}
use asymmetric_committee.Risk.KillSwitch.{
  Ratio, Figure, finite, KillSwitchEvent, from_events, evaluate,
}
use asymmetric_committee.Risk.KillSwitch.Latch.{from_events-earliest}
use asymmetric_committee.Risk.KillSwitch.Triggers.{InTime, evaluate-none}

abbrev two_percent : Ratio
two_percent = record { num = pos 2; den = 100 }

abbrev seen : FeedName → Option ℕ
seen FeedName.news = none
seen _ = some 90

abbrev event : ℕ → KillTrigger → KillSwitchEvent
event at t = record {
  triggered_at = at;
  trigger = t;
  loss = none;
  drawdown = none;
  cancelled_order_ids = [];
  flattened = false;
}

earliest_wins :
    (from_events (event 7 KillTrigger.manual ∷ event 5 KillTrigger.stale_feed ∷ [])).trigger
    ≡ some KillTrigger.stale_feed
unfolding from_events
earliest_wins = refl

loss_at_the_limit_is_allowed :
    evaluate (finite (pos 98)) (finite (pos 100)) two_percent seen [] 100 ≡ ok none
unfolding evaluate ◌-ℤ◌ scale
loss_at_the_limit_is_allowed = refl

missing_feed_is_stale :
    evaluate (finite (pos 98)) (finite (pos 100)) two_percent seen ((FeedName.news, 50) ∷ []) 100
    ≡ ok (some KillTrigger.stale_feed)
unfolding evaluate ◌-ℤ◌ scale
missing_feed_is_stale = refl

from_events-earliest_example :
    (from_events (event 7 KillTrigger.manual ∷ event 5 KillTrigger.stale_feed ∷ [])).trigger
    ≡ some KillTrigger.stale_feed
from_events-earliest_example =
    from_events-earliest (event 7 KillTrigger.manual ∷ event 5 KillTrigger.stale_feed ∷ [])

evaluate-none_example :
    (evaluate (finite (pos 98)) (finite (pos 100)) two_percent seen ((FeedName.regime, 50) ∷ []) 100
      ≡ ok none)
    ↔ ((scale 100 (pos 100 -ℤ pos 98) ≤ℤ scale 100 (pos 2))
        × All (InTime seen 100) ((FeedName.regime, 50) ∷ []))
evaluate-none_example =
    evaluate-none (pos 98) 100 100 two_percent seen ((FeedName.regime, 50) ∷ []) (omega arith)

abbrev equities : List Figure
equities = finite (pos 80) ∷ finite (pos 120) ∷ []
