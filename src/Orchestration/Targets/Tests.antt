-- ===== src/Orchestration/Targets/Tests.antt =====
-- Of 10,000.00 in equity half goes to security 7, of which 30 shares are held; of security 9 two
-- and a half shares are held, and it is not in the book; security 8 has no price.
use asymmetric_committee.Base.{
  ℕ, String, ◌≡◌, refl, none, some, List, [], ◌∷◌, ok, err, Elem, arith, any, false,
}
use asymmetric_committee.Base.Int.{ℤ, pos, ◌-ℤ◌}
use asymmetric_committee.Contracts.Enums.{buy, sell}
use asymmetric_committee.Execution.Leg.{ExecutionTarget}
use asymmetric_committee.Orchestration.Targets.{
  no_usable_price, equity_unusable, ProposedPosition, MarketView, positive, is_unknown,
  plan_targets, target_for, book_weight, held_of, usable_price, desired_qty,
}
use asymmetric_committee.Orchestration.Targets.Reaches.{DistinctKeys, Reached, plan_targets-Reached}

abbrev book : List ProposedPosition
book = record { security_id = 7; target_weight = record { num = 1; den = 2 } } ∷ []

abbrev view : MarketView
view = record {
  symbols = (9, "NINE") ∷ (7, "SEVEN") ∷ (8, "EIGHT") ∷ [];
  decision_prices = (7, some (pos 1510000)) ∷ (9, some (pos 200000)) ∷ (8, none) ∷ [];
}

abbrev positions : List (String × ℤ)
positions = ("SEVEN", pos 30000000) ∷ ("NINE", pos 2500000) ∷ []

abbrev planned : List ExecutionTarget
planned =
    record {
      run_id = 1;
      security_id = 7;
      symbol = "SEVEN";
      side = buy;
      qty = 3000000;
      decision_price = 1510000;
    }
    ∷ record {
      run_id = 1;
      security_id = 9;
      symbol = "NINE";
      side = sell;
      qty = 2500000;
      decision_price = 200000;
    }
    ∷ []

plans : plan_targets 1 book view positions (some (pos 1000000)) ≡ ok planned
unfolding plan_targets target_for book_weight held_of usable_price desired_qty ◌-ℤ◌
plans = refl

without_equity : plan_targets 1 book view positions (some (pos 0)) ≡ err equity_unusable
unfolding plan_targets
without_equity = refl

held_without_price :
    plan_targets 1 book view (("EIGHT", pos 1) ∷ []) (some (pos 1000000)) ≡ err no_usable_price
unfolding plan_targets target_for book_weight held_of usable_price desired_qty ◌-ℤ◌
held_without_price = refl

distinct : DistinctKeys view.symbols
distinct = ground arith

plan_targets-Reached_example :
    (equity : ℕ) × (positive (some (pos 1000000)) ≡ some equity)
    × (any (is_unknown 1 book view positions) book ≡ false)
    × ((e : ℕ × String) → Elem e view.symbols → Reached 1 book view positions equity planned e)
plan_targets-Reached_example =
    plan_targets-Reached 1 book view positions (some (pos 1000000)) planned (ground arith) distinct
      plans
