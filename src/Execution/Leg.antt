-- ===== src/Execution/Leg.antt =====
-- `_Leg`, `_Reference` and the single-order helpers of execution/executor.py: one name's progress
-- through the phases. The steps act on the leg and on the world that all legs share.
pub mod Submissions
pub mod Adds
pub mod Residual
pub mod Stages
pub mod Halted
use asymmetric_committee.Base.{
  ℕ, ◌+◌, ◌-◌, String, Bool, true, false, not, ◌&&◌, Option, none, some, List, [], ◌∷◌, ◌++◌,
  Result, ok, err, Exec, pure, raise, lift, gets, modify, attempt, ◌>>=◌, ◌>>◌, if◌then◌else◌, ltb,
  leb, is_some,
}
use asymmetric_committee.Contracts.Enums.{
  OrderSide, buy, sell, OrderKind, BrokerOrderStatus, rejected, terminal, ReferenceSource,
}
use asymmetric_committee.Risk.KillSwitch.{Ratio, allows}
use asymmetric_committee.Execution.Gateway.{
  Error, is_broker_error, OrderLeg, lim, mkt, ClientId, client_order_id, BrokerOrder,
  ExecutionRecord, Call, Env, World, M, call,
}
use asymmetric_committee.Execution.Gateway
use asymmetric_committee.Execution.Pricing.{slippage_bps, collar_price}

-- `ExecutionTarget`
pub record ExecutionTarget : Type 0 where
  pub run_id : ℕ
  pub security_id : ℕ
  pub symbol : String
  pub side : OrderSide
  pub qty : ℕ
  pub decision_price : ℕ

-- `ExecutionOutcome`
pub record ExecutionOutcome : Type 0 where
  pub records : List ExecutionRecord
  pub filled_qty : ℕ
  pub complete : Bool
  pub blocked_by_kill_switch : Bool

-- `_Leg`. `reference` is the fresh lookup that `_Reference` remembers, and `fresh` tells whether
-- the leg is in the list of that name in `execute_book`.
pub record Leg : Type 0 where
  pub target : ExecutionTarget
  pub limit_order : Option BrokerOrder
  pub market_order : Option BrokerOrder
  pub error : Option Error
  pub blocked : Bool
  pub residual : ℕ
  pub residual_pending : Bool
  pub price : Option ℕ
  pub reference : Option (ℕ × ReferenceSource)
  pub records : List ExecutionRecord
  pub fresh : Bool

pub record LegState : Type 0 where
  pub world : World
  pub leg : Leg

abbrev pub Step : Type 0 → Type 0
Step = Exec Error LegState

-- An action on the shared world, as a step of a leg.
unfoldable pub shared : {A : Type 0} → M A → Step A
shared m s = let (r, w) = m s.world in (r, record s { world = w })

unfoldable pub update_leg : (Leg → Leg) → Step Unit
unfolding modify
update_leg f = modify (λ s. record s { leg = f s.leg })

-- The limit of 1e-6 shares that quantities are compared up to.
abbrev pub eps : ℕ
eps = 1

-- The settings of `OrderExecutor`.
pub record Settings : Type 0 where
  pub collar_bps : ℕ
  pub limit_wait : ℕ
  pub poll_seconds : ℕ
  pub poll_attempts : ℕ

abbrev pub lim_id : ExecutionTarget → ClientId
lim_id t = client_order_id t.run_id t.security_id lim

abbrev pub mkt_id : ExecutionTarget → ClientId
mkt_id t = client_order_id t.run_id t.security_id mkt

-- `_Leg.current`
abbrev pub current : Leg → Option BrokerOrder
current l = elim l.market_order [ some o ↦ some o | none ↦ l.limit_order ]

-- the setter of `_Leg.current`
abbrev pub set_current : BrokerOrder → Leg → Leg
set_current o l =
    if is_some l.market_order
    then record l { market_order = some o }
    else record l { limit_order = some o }

-- `OrderExecutor._guard_overfill`
unfoldable pub guard_overfill : ExecutionTarget → ℕ → Result Error Unit
guard_overfill t filled = if ltb (t.qty + eps) filled then err Error.overfill else ok tt

abbrev fill_of : BrokerOrder → Option ℕ
fill_of o = if ltb 0 o.filled_qty then o.filled_avg_price else none

abbrev slippage_of : OrderSide → ℕ → Option ℕ → Option Ratio
slippage_of side price none = none
slippage_of side price (some fill) = some (slippage_bps side price fill)

-- `OrderExecutor._record`
unfoldable pub make_record : ExecutionTarget → BrokerOrder → ℕ → ReferenceSource → ExecutionRecord
make_record t o price source = record {
  run_id = t.run_id;
  security_id = t.security_id;
  client_id = o.client_id;
  broker_order_id = o.broker_order_id;
  kind = o.kind;
  side = o.side;
  qty = o.qty;
  filled_qty = o.filled_qty;
  limit_price = o.limit_price;
  decision_price = t.decision_price;
  reference_price = price;
  reference_source = source;
  fill_price = fill_of o;
  slippage_bps = slippage_of o.side price (fill_of o);
  status = o.status;
  submitted_at = o.submitted_at;
  filled_at = o.filled_at;
}

abbrev pub is_rejected : BrokerOrderStatus → Bool
is_rejected rejected = true
is_rejected _ = false

abbrev pub set_residual : BrokerOrder → Leg → Leg
set_residual o l = record l {
  residual = l.target.qty - o.filled_qty;
  residual_pending = ltb 0 (l.target.qty - o.filled_qty);
}

module _ (env : Env) (settings : Settings) where
  -- `_Leg.__init__`
  unfoldable pub new_leg : ExecutionTarget → M Leg
  new_leg t = do
    found ← call (Call.find_by_client_id (lim_id t)) env.find
    pure (record {
      target = t;
      limit_order = found;
      market_order = none;
      error = none;
      blocked = false;
      residual = 0;
      residual_pending = false;
      price = none;
      reference = none;
      records = [];
      fresh = false;
    })

  -- `if found is None: raise`, for the error `e` that is being handled
  unfoldable pub found_or_raise : Error → Option BrokerOrder → M BrokerOrder
  found_or_raise e none = raise e
  found_or_raise e (some o) = pure o

  -- The handlers of `_submit_once`: reconcile by the client id, never submit again.
  unfoldable pub reconcile : ClientId → Error → M BrokerOrder
  reconcile cid e =
      if is_broker_error e
      then (do found ← call (Call.find_by_client_id cid) env.find; found_or_raise e found)
      else raise e

  -- `OrderExecutor._submit_once`
  unfoldable pub submit_once : ClientId → M BrokerOrder → M BrokerOrder
  submit_once cid submit = attempt submit (reconcile cid)

  -- `_Reference._fresh`, filled by the first lookup
  unfoldable pub looked_up :
      Option (ℕ × ReferenceSource) → ExecutionTarget → Step (ℕ × ReferenceSource)
  looked_up (some found) t = pure found
  looked_up none t = do
    found ← shared (call (Call.lookup_reference t.symbol) env.reference)
    update_leg (λ l. record l { reference = some found })
    pure found

  -- the price of the stored record, else the remembered one
  unfoldable pub recorded : Option ExecutionRecord → Leg → Step (ℕ × ReferenceSource)
  recorded (some rec) l = pure (rec.reference_price, rec.reference_source)
  recorded none l = looked_up l.reference l.target

  -- `_Reference.get`, asked for the limit's id
  unfoldable pub get_reference : Step (ℕ × ReferenceSource)
  get_reference = do
    l ← gets (λ s. s.leg)
    stored ← shared (call (Call.find_execution (lim_id l.target)) env.execution)
    recorded stored l

  -- `_Leg.note`
  unfoldable pub note : BrokerOrder → Step Unit
  note o = do
    (price, source) ← get_reference
    t ← gets (λ s. s.leg.target)
    let rec = make_record t o price source
    shared (call (Call.record_execution rec) env.act)
    update_leg (λ l. record l { records = l.records ++ rec ∷ [] })

  unfoldable pub block : Step Unit
  block = update_leg (λ l. record l { blocked = true })

  -- `_Leg.open_for_submit`
  unfoldable pub open_for_submit : Step Bool
  open_for_submit = do
    l ← gets (λ s. s.leg)
    ks ← gets (λ s. s.world.kill_switch)
    if is_some l.limit_order
        then pure false
        else if allows ks l.target.side
        then pure true
        else (do block; pure false)

  -- `_Leg.resolve_reference`
  unfoldable pub resolve_reference : Step Unit
  resolve_reference = do
    (price, _) ← get_reference
    update_leg (λ l. record l { price = some price })

  unfoldable pub send_limit : ExecutionTarget → Option ℕ → Step Unit
  send_limit t none = raise Error.assertion_error
  send_limit t (some price) = do
    let limit_price = collar_price t.side price settings.collar_bps
    o ← shared (
        submit_once (lim_id t)
          (call (Call.submit_limit (lim_id t) t.symbol t.side t.qty limit_price) env.order))
    update_leg (λ l. record l { limit_order = some o })
    note o

  -- `_Leg.submit_limit`
  unfoldable pub submit_limit : Step Unit
  submit_limit = do
    l ← gets (λ s. s.leg)
    ks ← gets (λ s. s.world.kill_switch)
    if allows ks l.target.side then send_limit l.target l.price else block

  -- `with suppress(OrderNotCancelableError)`
  pub suppress_not_cancelable : Error → M Unit
  suppress_not_cancelable Error.order_not_cancelable = pure tt
  suppress_not_cancelable e = raise e

  pub request_cancel : ℕ → M Unit
  request_cancel id = attempt (call (Call.cancel_order id) env.act) suppress_not_cancelable

  unfoldable pub cancel_working : BrokerOrder → Step Unit
  cancel_working o = do
    now ← shared (call (Call.get_order o.broker_order_id) env.order)
    update_leg (λ l. record l { limit_order = some now })
    if terminal now.status then pure tt else shared (request_cancel now.broker_order_id)

  unfoldable pub cancel_known : Option BrokerOrder → Step Unit
  cancel_known none = pure tt
  cancel_known (some o) = if terminal o.status then pure tt else cancel_working o

  -- `_Leg.cancel_limit`
  unfoldable pub cancel_limit : Step Unit
  cancel_limit = do l ← gets (λ s. s.leg); cancel_known l.limit_order

  unfoldable pub settle_terminal : ExecutionTarget → BrokerOrder → Step Unit
  settle_terminal t o = do
    lift (guard_overfill t o.filled_qty)
    if is_rejected o.status then pure tt else update_leg (set_residual o)

  unfoldable pub settle_limit : ExecutionTarget → Option BrokerOrder → Step Unit
  settle_limit t none = pure tt
  settle_limit t (some o) = do
    note o
    if terminal o.status then settle_terminal t o else raise Error.cancel_not_confirmed

  -- `_Leg.close_limit`
  unfoldable pub close_limit : Step Unit
  close_limit = do l ← gets (λ s. s.leg); settle_limit l.target l.limit_order

  unfoldable pub send_market : Leg → Step Unit
  send_market l = do
    let t = l.target
    o ← shared (
        submit_once (mkt_id t)
          (call (Call.submit_market (mkt_id t) t.symbol t.side l.residual) env.order))
    update_leg (λ l. record l { market_order = some o })
    note o

  unfoldable pub market_known : Leg → Option BrokerOrder → Step Unit
  market_known l (some o) = update_leg (λ l. record l { market_order = some o })
  market_known l none = do
    ks ← gets (λ s. s.world.kill_switch)
    if allows ks l.target.side then send_market l else block

  -- `_Leg.submit_market`
  unfoldable pub submit_market : Step Unit
  submit_market = do
    l ← gets (λ s. s.leg)
    found ← shared (call (Call.find_by_client_id (mkt_id l.target)) env.find)
    market_known l found

  unfoldable pub settle_market :
      ExecutionTarget → Option BrokerOrder → Option BrokerOrder → Step Unit
  settle_market t (some l) (some m) = do
    note m
    lift (guard_overfill t (l.filled_qty + m.filled_qty))
  settle_market t _ _ = raise Error.assertion_error

  -- `_Leg.close_market`
  unfoldable pub close_market : Step Unit
  close_market = do l ← gets (λ s. s.leg); settle_market l.target l.limit_order l.market_order

abbrev pub filled_of : Option BrokerOrder → ℕ
filled_of none = 0
filled_of (some o) = o.filled_qty

-- `abs(target - filled) <= _EPS`
abbrev pub within_eps : ℕ → ℕ → Bool
within_eps qty filled = leb (qty - filled) eps && leb (filled - qty) eps

-- `_Leg.outcome`, with `OrderExecutor._outcome`
unfoldable pub outcome : Leg → ExecutionOutcome
outcome l =
    let filled = filled_of l.limit_order + filled_of l.market_order in
    record {
      records = l.records;
      filled_qty = filled;
      complete = within_eps l.target.qty filled;
      blocked_by_kill_switch = l.blocked;
    }
