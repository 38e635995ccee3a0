-- ===== src/Execution/Halt/Tests.antt =====
-- Halts against a concrete broker with one open order and one position.
use asymmetric_committee.Base.{
  ◌≡◌, refl, true, false, none, some, List, [], ◌∷◌, Result, ok, err, inr, ◌>>=◌,
}
use asymmetric_committee.Base.Int.{pos, scale, ◌-ℤ◌}
use asymmetric_committee.Contracts.Enums.{KillTrigger}
use asymmetric_committee.Risk.KillSwitch.{
  Ratio, KillSwitch, finite, fresh, halted, evaluate, daily_loss,
}
use asymmetric_committee.Execution.Gateway.{Error, BrokerOrder, Call, Env, World, History, call}
use asymmetric_committee.Execution.Halt.{
  Control, on_world, ask, confirm_terminal, not_cancelable, cancel_each, confirm_each,
  cancel_rounds, one_round, cancel_all_confirmed, halt_trading, check, engage, is_ok, still_open,
}
use asymmetric_committee.Execution.Halt.Fires.{check-engages}
use asymmetric_committee.Execution.Halt.Keep.{closes, halt_trading-engages, halt_trading-closes}
use asymmetric_committee.Execution.Halt.Order.{
  NothingOpen, Recorded, cancel_all_confirmed-NothingOpen, halt_trading-records,
}
use asymmetric_committee.Execution.Sample.{broker, limit_fill, quiet_world}

-- The first listing has one order, every later one none.
abbrev open_at_first : History → Result Error (List BrokerOrder)
open_at_first (_ ∷ []) = ok (limit_fill ∷ [])
open_at_first _ = ok []

abbrev one_open : Env
one_open = record broker { orders = open_at_first }

abbrev stuck : Env
stuck = record broker { orders = λ _. ok (limit_fill ∷ []) }

abbrev unread : Env
unread = record broker { equities = λ _. err Error.broker_error }

abbrev control : Control
control = record { world = quiet_world; flattened = false }

abbrev cancelled_world : World
cancelled_world = record {
  history = Call.open_orders ∷ Call.get_order 11 ∷ Call.cancel_order 11 ∷ Call.open_orders ∷ [];
  kill_switch = fresh;
}

cancels_one :
    cancel_all_confirmed one_open 2 3 control
    ≡ (ok (11 ∷ []), record { world = cancelled_world; flattened = false })
unfolding cancel_all_confirmed cancel_rounds one_round cancel_each confirm_each confirm_terminal
    not_cancelable ask on_world call ◌>>=◌
cancels_one = refl

cancel_all_confirmed-NothingOpen_example : NothingOpen one_open cancelled_world.history
cancel_all_confirmed-NothingOpen_example =
    cancel_all_confirmed-NothingOpen one_open 2 3 control
      (record { world = cancelled_world; flattened = false }) (11 ∷ []) cancels_one

halt_trading-records_example :
    Recorded KillTrigger.manual
      (halt_trading one_open 2 3 KillTrigger.manual true none none control).1.world.history
halt_trading-records_example =
    halt_trading-records one_open 2 3 KillTrigger.manual true none none control (λ _. refl)

halt_trading-engages_example :
    let after : KillSwitch =
      (halt_trading one_open 2 3 KillTrigger.manual true none none control).1.world.kill_switch in
    (halted after ≡ true)
    × (fresh.trigger ≡ none → after.trigger ≡ some KillTrigger.manual)
    × ((earlier : KillTrigger) → fresh.trigger ≡ some earlier → after.trigger ≡ some earlier)
halt_trading-engages_example =
    halt_trading-engages one_open 2 3 KillTrigger.manual true none none control

stuck_fails : is_ok (cancel_all_confirmed stuck 2 3 (engage KillTrigger.manual control).1).0 ≡ false
unfolding cancel_all_confirmed cancel_rounds one_round cancel_each confirm_each confirm_terminal
    not_cancelable still_open ask on_world call engage ◌>>=◌
stuck_fails = refl

halt_trading-closes_example :
    closes (halt_trading stuck 2 3 KillTrigger.manual true none none control).1.world.history ≡ 0
halt_trading-closes_example =
    halt_trading-closes stuck 2 3 KillTrigger.manual true none none control (inr stuck_fails)

abbrev two_percent : Ratio
two_percent = record { num = pos 2; den = 100 }

loss_fires :
    evaluate (finite (pos 90)) (finite (pos 100)) two_percent (λ _. none) [] 3
    ≡ ok (some KillTrigger.daily_loss)
unfolding evaluate daily_loss scale ◌-ℤ◌
loss_fires = refl

-- A loss of ten percent, while the broker refuses to tell the equity history.
check-engages_example :
    (check unread 2 3 two_percent (λ _. none) [] control).1.world.kill_switch ≡ fresh
check-engages_example =
    check-engages unread 2 3 two_percent (λ _. none) [] control (finite (pos 90)) (finite (pos 100))
      KillTrigger.daily_loss refl refl loss_fires
