-- ===== src/Orchestration/Targets.antt =====
-- orchestration/execution_stage.py, `plan_targets`: the orders that take what is held to the book.
-- Equity is in cents, a price in hundredths of a cent, a quantity in millionths of a share, and a
-- weight is a quotient; a number that is not finite is none. The dictionaries are lists of entries.
pub mod Reaches
mod Tests
use asymmetric_committee.Base.{
  ℕ, String, zero, suc, ◌*◌, ◌/◌, Bool, true, false, not, ◌||◌, Option, none, some, List, [], ◌∷◌,
  map, Result, ok, err, and_then, if◌then◌else◌, is_some, ltb, leb, ◌==◌, same_text, any, sort_by,
}
use asymmetric_committee.Base.Int.{ℤ, pos, negsuc, ◌-ℤ◌}
use asymmetric_committee.Contracts.Enums.{OrderSide, buy, sell}
use asymmetric_committee.Execution.Leg.{ExecutionTarget}

-- The messages of `ExecutionPlanError`
pub data PlanError : Type 0 where
  equity_unusable names_without_symbol no_usable_price : PlanError

pub record Weight : Type 0 where
  pub num : ℕ
  pub den : ℕ

-- `ProposedPosition`
pub record ProposedPosition : Type 0 where
  pub security_id : ℕ
  pub target_weight : Weight

-- `MarketView`
pub record MarketView : Type 0 where
  pub symbols : List (ℕ × String)
  pub decision_prices : List (ℕ × Option ℤ)

-- finite and positive
abbrev pub positive : Option ℤ → Option ℕ
positive none = none
positive (some (pos zero)) = none
positive (some (pos (suc n))) = some (suc n)
positive (some (negsuc n)) = none

-- `weights.get(sid)`: of two positions in one name the later counts
unfoldable pub book_weight : ℕ → List ProposedPosition → Option Weight
book_weight sid [] = none
book_weight sid (p ∷ ps) = elim (book_weight sid ps) [
  | some w ↦ some w
  | none ↦ if p.security_id == sid then some p.target_weight else none
]

abbrev pub or_nothing : Option Weight → Weight
or_nothing none = record { num = 0; den = 1 }
or_nothing (some w) = w

-- `positions.get(symbol, 0.0)`
unfoldable pub held_of : String → List (String × ℤ) → ℤ
held_of symbol [] = pos 0
held_of symbol ((s, q) ∷ ps) = if same_text symbol s then q else held_of symbol ps

-- `view.decision_prices.get(sid)`, where it can be used
unfoldable pub usable_price : ℕ → List (ℕ × Option ℤ) → Option ℕ
usable_price sid [] = none
usable_price sid ((s, price) ∷ ps) = if sid == s then positive price else usable_price sid ps

-- the whole shares of a weight, in millionths
unfoldable pub desired_qty : Weight → ℕ → ℕ → ℕ
desired_qty w equity price =
    if ltb 0 w.num then 1000000 * (w.num * equity * 100 / (w.den * price)) else 0

abbrev pub nonzero : ℤ → Bool
nonzero (pos zero) = false
nonzero (pos (suc n)) = true
nonzero (negsuc n) = true

-- the target of a difference
abbrev pub order_for : ℕ → ℕ → String → ℕ → ℤ → Option ExecutionTarget
order_for run_id sid symbol price (pos zero) = none
order_for run_id sid symbol price (pos (suc n)) = some (record {
  run_id = run_id;
  security_id = sid;
  symbol = symbol;
  side = buy;
  qty = suc n;
  decision_price = price;
})
order_for run_id sid symbol price (negsuc n) = some (record {
  run_id = run_id;
  security_id = sid;
  symbol = symbol;
  side = sell;
  qty = suc n;
  decision_price = price;
})

abbrev pub with_target : Option ExecutionTarget → List ExecutionTarget → List ExecutionTarget
with_target none ts = ts
with_target (some t) ts = t ∷ ts

abbrev pub by_id : ℕ × String → ℕ × String → Bool
by_id a b = leb a.0 b.0

module _ (run_id : ℕ) (book : List ProposedPosition) (view : MarketView)
    (positions : List (String × ℤ)) where
  abbrev pub priced : ℕ → ℕ → String → Option ℕ → Result PlanError (Option ExecutionTarget)
  priced equity sid symbol none =
      if ltb 0 (or_nothing (book_weight sid book)).num || nonzero (held_of symbol positions)
      then err no_usable_price
      else ok none
  priced equity sid symbol (some price) = ok (
      order_for run_id sid symbol price (
        pos (desired_qty (or_nothing (book_weight sid book)) equity price)
        -ℤ held_of symbol positions))

  -- the body of the loop
  unfoldable pub target_for : ℕ → ℕ × String → Result PlanError (Option ExecutionTarget)
  target_for equity (sid, symbol) = priced equity sid symbol (usable_price sid view.decision_prices)

  unfoldable pub targets_for : ℕ → List (ℕ × String) → Result PlanError (List ExecutionTarget)
  targets_for equity [] = ok []
  targets_for equity (e ∷ es) =
      and_then (target_for equity e)
        (λ t. and_then (targets_for equity es) (λ ts. ok (with_target t ts)))

  abbrev pub is_unknown : ProposedPosition → Bool
  is_unknown p = not (any (λ e. e.0 == p.security_id) view.symbols)

  abbrev pub with_equity : Option ℕ → Result PlanError (List ExecutionTarget)
  with_equity none = err equity_unusable
  with_equity (some equity) =
      if any is_unknown book
      then err names_without_symbol
      else targets_for equity (sort_by by_id view.symbols)

  -- `plan_targets`
  unfoldable pub plan_targets : Option ℤ → Result PlanError (List ExecutionTarget)
  unfolding targets_for
  plan_targets equity = with_equity (positive equity)
