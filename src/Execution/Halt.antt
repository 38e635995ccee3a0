-- ===== src/Execution/Halt.antt =====
-- `HaltController` of execution/halt.py.
pub mod Fires
pub mod Keep
pub mod Order
mod Tests
use asymmetric_committee.Base.{
  ℕ, zero, suc, String, Bool, true, false, not, ◌&&◌, Option, none, some, List, [], ◌∷◌, ◌++◌,
  Result, ok, err, Exec, pure, raise, lift, gets, modify, attempt, ◌>>=◌, ◌>>◌, if◌then◌else◌,
}
use asymmetric_committee.Base.Int.{ℤ, pos}
use asymmetric_committee.Contracts.Enums.{KillTrigger, FeedName, terminal}
use asymmetric_committee.Risk.KillSwitch.{
  Ratio, Figure, RiskError, equity_evidence, KillSwitch, KillSwitchEvent, halt, halted, evaluate,
  daily_loss, peak_drawdown,
}
use asymmetric_committee.Execution.Gateway.{Error, BrokerOrder, Call, Env, World, call}

-- The controller's own field, beside the shared world.
pub record Control : Type 0 where
  pub world : World
  pub flattened : Bool

abbrev pub H : Type 0 → Type 0
H = Exec Error Control

-- `_ROUNDS`
abbrev pub rounds : ℕ
rounds = 3

unfoldable pub on_world : {A : Type 0} → (World → Result Error A × World) → H A
on_world m c = let (r, w) = m c.world in (r, record c { world = w })

-- The exceptions of risk/kill_switch.py among all errors.
abbrev pub risk_error : RiskError → Error
risk_error equity_evidence = Error.equity_evidence
risk_error _ = Error.value_error

abbrev pub from_risk : {A : Type 0} → Result RiskError A → Result Error A
from_risk (ok a) = ok a
from_risk (err e) = err (risk_error e)

unfoldable pub engage : KillTrigger → H Unit
engage t c =
    (ok tt, record c { world = record (c.world) { kill_switch = (halt t c.world.kill_switch).1 } })

abbrev is_manual : KillTrigger → Bool
is_manual KillTrigger.manual = true
is_manual _ = false

abbrev is_ok : {A : Type 0} → Result Error A → Bool
is_ok (ok _) = true
is_ok (err _) = false

-- How an action ended, as a value.
unfoldable pub outcome_of : {A : Type 0} → H A → H (Result Error A)
outcome_of m c = let (r, c') = m c in (ok r, c')

module _ (env : Env) (poll_seconds poll_attempts : ℕ) where
  pub ask : {A : Type 0} → Call → (List Call → Result Error A) → H A
  ask c answer = on_world (call c answer)

  -- `_confirm_terminal`
  pub confirm_terminal : ℕ → ℕ → H Unit
  confirm_terminal zero id = raise Error.cancel_not_confirmed
  confirm_terminal (suc attempts) id = do
    o ← ask (Call.get_order id) env.order
    if terminal o.status
        then pure tt
        else do ask (Call.sleep poll_seconds) env.act; confirm_terminal attempts id

  not_cancelable : Error → H Unit
  not_cancelable Error.order_not_cancelable = pure tt
  not_cancelable e = raise e

  -- the first loop over the open orders; the ids that it appended
  pub cancel_each : List ℕ → List BrokerOrder → H (List ℕ)
  cancel_each cancelled [] = pure cancelled
  cancel_each cancelled (o ∷ os) = do
    attempt (ask (Call.cancel_order o.broker_order_id) env.act) not_cancelable
    cancel_each (cancelled ++ o.broker_order_id ∷ []) os

  -- the second loop
  pub confirm_each : List BrokerOrder → H Unit
  confirm_each [] = pure tt
  confirm_each (o ∷ os) = do confirm_terminal poll_attempts o.broker_order_id; confirm_each os

  still_open : List ℕ → List BrokerOrder → H (List ℕ)
  still_open cancelled [] = pure cancelled
  still_open cancelled (_ ∷ _) = raise Error.cancel_not_confirmed

  one_round : List ℕ → List BrokerOrder → (List ℕ → H (List ℕ)) → H (List ℕ)
  one_round cancelled [] again = pure cancelled
  one_round cancelled (o ∷ os) again = do
    cancelled' ← cancel_each cancelled (o ∷ os)
    confirm_each (o ∷ os)
    again cancelled'

  cancel_rounds : ℕ → List ℕ → H (List ℕ)
  cancel_rounds zero cancelled = do
    remaining ← ask Call.open_orders env.orders
    still_open cancelled remaining
  cancel_rounds (suc n) cancelled = do
    open_now ← ask Call.open_orders env.orders
    one_round cancelled open_now (cancel_rounds n)

  -- `_cancel_all_confirmed`
  pub cancel_all_confirmed : H (List ℕ)
  cancel_all_confirmed = cancel_rounds rounds []

  close_all : List (String × ℤ) → H Unit
  close_all [] = pure tt
  close_all ((symbol, pos zero) ∷ ps) = close_all ps
  close_all ((symbol, qty) ∷ ps) = do ask (Call.close_position symbol) env.act; close_all ps

  mark_flattened : H Unit
  mark_flattened = modify (λ c. record c { flattened = true })

  -- the `if flatten:` block of `_halt`
  pub flatten_positions : Bool → H Unit
  flatten_positions false = pure tt
  flatten_positions true = do ps ← ask Call.positions env.holdings; close_all ps; mark_flattened

  -- `KillSwitchEvent(…)`, which refuses a flatten that is not manual
  pub make_event :
      ℕ → KillTrigger → Option Ratio → Option Ratio → List ℕ → Bool → Result Error KillSwitchEvent
  make_event at t loss drawdown cancelled flattened =
      if flattened && not (is_manual t)
      then err Error.value_error
      else ok (record {
        triggered_at = at;
        trigger = t;
        loss = loss;
        drawdown = drawdown;
        cancelled_order_ids = cancelled;
        flattened = flattened;
      })

  -- the `finally` of `_halt`, and then the exception that it interrupted
  pub conclude_halt :
      KillTrigger → Option Ratio → Option Ratio → List ℕ → Bool → Result Error Unit → H Unit
  conclude_halt t loss drawdown cancelled flattened r = do
    now ← ask Call.clock (λ h. ok (env.now h))
    event ← lift (make_event now t loss drawdown cancelled flattened)
    ask (Call.record_event event) env.act
    lift r

  pub after_cancel :
      KillTrigger → Bool → Option Ratio → Option Ratio → Result Error (List ℕ) → H Unit
  after_cancel t flatten loss drawdown (err e) = conclude_halt t loss drawdown [] false (err e)
  after_cancel t flatten loss drawdown (ok cancelled) = do
    r ← outcome_of (flatten_positions flatten)
    conclude_halt t loss drawdown cancelled (flatten && is_ok r) r

  -- `_halt`
  pub halt_trading : KillTrigger → Bool → Option Ratio → Option Ratio → H Unit
  halt_trading t flatten loss drawdown = do
    engage t
    cancelled ← outcome_of cancel_all_confirmed
    after_cancel t flatten loss drawdown cancelled

  drawdown_missing : Bool → Error → H (Option Ratio)
  drawdown_missing false Error.equity_evidence = pure none
  drawdown_missing required e = raise e

  drawdown_of : Figure → H (Option Ratio)
  drawdown_of current = do
    history ← ask Call.equity_history env.equities
    (peak, fraction) ← lift (from_risk (peak_drawdown history current))
    pure (some fraction)

  -- `_drawdown`
  pub drawdown : Figure → Bool → H (Option Ratio)
  drawdown current required = attempt (drawdown_of current) (drawdown_missing required)

  -- `_safe_drawdown`
  pub safe_drawdown : H (Option Ratio)
  safe_drawdown =
      attempt (do (equity, _) ← ask Call.account_equity env.equity; drawdown equity false)
        (λ _. pure none)

  pub fired : Figure → Figure → Option KillTrigger → H (Option KillTrigger)
  fired equity prior none = do drawdown equity true; pure none
  fired equity prior (some t) = do
    d ← drawdown equity false
    loss ← lift (from_risk (daily_loss equity prior))
    halt_trading t false (some loss) d
    pure (some t)

  -- `check`
  pub check : Ratio → (FeedName → Option ℕ) → List (FeedName × ℕ) → H (Option KillTrigger)
  check limit last_success sla = do
    ks ← gets (λ c. c.world.kill_switch)
    if halted ks then pure none else do
      (equity, prior) ← ask Call.account_equity env.equity
      now ← ask Call.clock (λ h. ok (env.now h))
      t ← lift (from_risk (evaluate equity prior limit last_success sla now))
      fired equity prior t

  -- `manual_halt`
  pub manual_halt : Bool → H Unit
  manual_halt flatten = do
    done ← gets (λ c. c.flattened)
    if flatten && done
        then pure tt
        else do d ← safe_drawdown; halt_trading KillTrigger.manual flatten none d

  -- `settle_open_orders`
  pub settle_open_orders : H (List ℕ)
  settle_open_orders = do
    ks ← gets (λ c. c.world.kill_switch)
    if halted ks then cancel_all_confirmed else pure []
