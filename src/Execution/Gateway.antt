-- ===== src/Execution/Gateway.antt =====
-- execution/gateway.py, and what else lies outside the executor: the clock, the sleeper, the
-- recorder and the price lookup. What an outside call answers is a function of the history of all
-- calls, its own included, so a broker whose orders fill between two calls is one such function.
-- Quantities are in millionths of a share, prices in hundredths of a cent, instants and spans in
-- microseconds.
use asymmetric_committee.Base.{
  ℕ, String, Bool, true, false, Option, List, ◌∷◌, Result, Exec, ◌&&◌, ◌==◌,
}
use asymmetric_committee.Base.Int.{ℤ}
use asymmetric_committee.Contracts.Enums.{OrderSide, OrderKind, BrokerOrderStatus, ReferenceSource}
use asymmetric_committee.Risk.KillSwitch.{Ratio, Figure, KillSwitch, KillSwitchEvent}

-- What a call may raise: `BrokerError` and its subclasses, and the other exceptions.
pub data Error : Type 0 where
  broker_error duplicate_client_order order_not_cancelable cancel_not_confirmed overfill : Error
  value_error equity_evidence assertion_error other_error : Error

-- `except BrokerError`
abbrev pub is_broker_error : Error → Bool
is_broker_error Error.broker_error = true
is_broker_error Error.duplicate_client_order = true
is_broker_error Error.order_not_cancelable = true
is_broker_error Error.cancel_not_confirmed = true
is_broker_error Error.overfill = true
is_broker_error _ = false

-- `except OverfillError`
abbrev pub is_overfill : Error → Bool
is_overfill Error.overfill = true
is_overfill _ = false

pub data OrderLeg : Type 0 where
  lim mkt : OrderLeg

-- The parts that `client_order_id` joins into one string: a UUID has a fixed length and the leg is
-- a constant word, so the string determines them.
pub record ClientId : Type 0 where
  pub run_id : ℕ
  pub security_id : ℕ
  pub leg : OrderLeg

-- `client_order_id`
abbrev pub client_order_id : ℕ → ℕ → OrderLeg → ClientId
client_order_id run_id security_id leg = record {
  run_id = run_id;
  security_id = security_id;
  leg = leg;
}

abbrev same_leg : OrderLeg → OrderLeg → Bool
same_leg lim lim = true
same_leg mkt mkt = true
same_leg _ _ = false

abbrev pub same_id : ClientId → ClientId → Bool
same_id a b = a.run_id == b.run_id && (a.security_id == b.security_id && same_leg a.leg b.leg)

-- `BrokerOrder`
pub record BrokerOrder : Type 0 where
  pub broker_order_id : ℕ
  pub client_id : ClientId
  pub side : OrderSide
  pub kind : OrderKind
  pub qty : ℕ
  pub filled_qty : ℕ
  pub limit_price : Option ℕ
  pub filled_avg_price : Option ℕ
  pub status : BrokerOrderStatus
  pub submitted_at : ℕ
  pub filled_at : Option ℕ

-- `ExecutionRecord`
pub record ExecutionRecord : Type 0 where
  pub run_id : ℕ
  pub security_id : ℕ
  pub client_id : ClientId
  pub broker_order_id : ℕ
  pub kind : OrderKind
  pub side : OrderSide
  pub qty : ℕ
  pub filled_qty : ℕ
  pub limit_price : Option ℕ
  pub decision_price : ℕ
  pub reference_price : ℕ
  pub reference_source : ReferenceSource
  pub fill_price : Option ℕ
  pub slippage_bps : Option Ratio
  pub status : BrokerOrderStatus
  pub submitted_at : ℕ
  pub filled_at : Option ℕ

-- A call to the outside, with its arguments.
pub data Call : Type 0 where
  find_by_client_id : ClientId → Call
  get_order : ℕ → Call
  submit_limit : ClientId → String → OrderSide → ℕ → ℕ → Call
  submit_market : ClientId → String → OrderSide → ℕ → Call
  cancel_order : ℕ → Call
  open_orders positions account_equity equity_history : Call
  close_position : String → Call
  clock : Call
  sleep : ℕ → Call
  find_execution : ClientId → Call
  record_execution : ExecutionRecord → Call
  lookup_reference : String → Call
  record_event : KillSwitchEvent → Call
  load_events : Call

-- The calls made, newest first.
abbrev pub History : Type 0
History = List Call

-- The answers. The call that is answered stands first in the history.
pub record Env : Type 0 where
  pub find : History → Result Error (Option BrokerOrder)
  pub order : History → Result Error BrokerOrder
  pub act : History → Result Error Unit
  pub orders : History → Result Error (List BrokerOrder)
  pub holdings : History → Result Error (List (String × ℤ))
  pub equity : History → Result Error (Figure × Figure)
  pub equities : History → Result Error (List Figure)
  pub now : History → ℕ
  pub execution : History → Result Error (Option ExecutionRecord)
  pub reference : History → Result Error (ℕ × ReferenceSource)

-- What the executor and the halt controller share: the calls so far and the kill switch.
pub record World : Type 0 where
  pub history : History
  pub kill_switch : KillSwitch

abbrev pub M : Type 0 → Type 0
M = Exec Error World

-- Makes the call, and takes its answer.
unfoldable pub call : {A : Type 0} → Call → (History → Result Error A) → M A
call c answer w =
    let history : History = c ∷ w.history in (answer history, record w { history = history })
