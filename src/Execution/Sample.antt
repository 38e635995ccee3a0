-- ===== src/Execution/Sample.antt =====
-- A concrete broker, a target and settings, for tests.
use asymmetric_committee.Base.{true, false, none, some, [], ◌∷◌, Result, ok, pure}
use asymmetric_committee.Base.Int.{pos}
use asymmetric_committee.Contracts.Enums.{
  KillTrigger, buy, OrderKind, BrokerOrderStatus, filled, iex_mid,
}
use asymmetric_committee.Risk.KillSwitch.{finite, fresh}
use asymmetric_committee.Execution.Gateway.{Error, BrokerOrder, Call, Env, World, M, History}
use asymmetric_committee.Execution.Leg.{ExecutionTarget, Leg, Settings, mkt_id, lim_id}

abbrev pub acme : ExecutionTarget
acme = record {
  run_id = 1;
  security_id = 7;
  symbol = "ACME";
  side = buy;
  qty = 3000000;
  decision_price = 1000000;
}

-- The limit order for two of the three shares was filled.
abbrev pub limit_fill : BrokerOrder
limit_fill = record {
  broker_order_id = 11;
  client_id = lim_id acme;
  side = buy;
  kind = OrderKind.limit;
  qty = 3000000;
  filled_qty = 2000000;
  limit_price = some 1007500;
  filled_avg_price = some 1006000;
  status = BrokerOrderStatus.canceled;
  submitted_at = 5;
  filled_at = some 6;
}

abbrev pub market_fill : BrokerOrder
market_fill = record {
  broker_order_id = 12;
  client_id = mkt_id acme;
  side = buy;
  kind = OrderKind.market;
  qty = 1000000;
  filled_qty = 1000000;
  limit_price = none;
  filled_avg_price = some 1008000;
  status = filled;
  submitted_at = 8;
  filled_at = some 9;
}

abbrev pub answer_order : History → Result Error BrokerOrder
answer_order (Call.submit_market _ _ _ _ ∷ _) = ok market_fill
answer_order _ = ok limit_fill

abbrev pub broker : Env
broker = record {
  find = λ _. ok none;
  order = answer_order;
  act = λ _. ok tt;
  orders = λ _. ok [];
  holdings = λ _. ok (("ACME", pos 2) ∷ ("ZERO", pos 0) ∷ []);
  equity = λ _. ok (finite (pos 90), finite (pos 100));
  equities = λ _. ok (finite (pos 120) ∷ []);
  now = λ _. 3;
  execution = λ _. ok none;
  reference = λ _. ok (1005000, iex_mid);
}

abbrev pub settings : Settings
settings = record { collar_bps = 25; limit_wait = 10; poll_seconds = 2; poll_attempts = 3 }

abbrev pub quiet_world : World
quiet_world = record { history = []; kill_switch = fresh }

abbrev pub halted_world : World
halted_world = record { history = []; kill_switch = record { trigger = some KillTrigger.manual } }

abbrev pub gate : M Unit
gate = pure tt

abbrev pub acme_leg : Leg
acme_leg = record {
  target = acme;
  limit_order = none;
  market_order = none;
  error = none;
  blocked = false;
  residual = 0;
  residual_pending = false;
  price = some 1005000;
  reference = none;
  records = [];
  fresh = true;
}
