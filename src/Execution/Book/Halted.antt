-- ===== src/Execution/Book/Halted.antt =====
-- A book that is executed while the kill switch is engaged buys nothing.
use asymmetric_committee.Base.{ℕ, ◌≡◌, refl, true, List, Keeps}
use asymmetric_committee.Risk.KillSwitch.{halted}
use asymmetric_committee.Execution.Gateway.{Call, Env, World, M}
use asymmetric_committee.Execution.Leg.{ExecutionTarget, Settings}
use asymmetric_committee.Execution.Leg.Halted.{
  buys, NoBuys, call-NoBuys, new_leg-NoBuys, open_for_submit-Calm, resolve_reference-Calm,
  submit_limit-Calm, cancel_limit-Calm, close_limit-Calm, submit_market-Calm, close_market-Calm,
}
use asymmetric_committee.Execution.Book.{execute_book}
use asymmetric_committee.Execution.Book.Shared.{Steady, execute_book-keeps}

NoBuys-Steady : (env : Env) (settings : Settings) (n : ℕ) → Steady (NoBuys n) env settings
NoBuys-Steady env settings n = record {
  sleeping = λ span. call-NoBuys n (Call.sleep span) env.act refl;
  clock = call-NoBuys n Call.clock _ refl;
  polling = λ id. call-NoBuys n (Call.get_order id) env.order refl;
  making = new_leg-NoBuys n env settings;
  opening = open_for_submit-Calm n env settings;
  resolving = resolve_reference-Calm n env settings;
  limit = submit_limit-Calm n env settings;
  cancelling = cancel_limit-Calm n env settings;
  closing = close_limit-Calm n env settings;
  market = submit_market-Calm n env settings;
  market_closing = close_market-Calm n env settings;
}

-- With the switch engaged `execute_book` submits no buy, whatever the broker answers and whether it
-- returns or raises, and the switch stays engaged; the gate is one that keeps the switch engaged and
-- itself submits no buy.
pub execute_book-buys :
    (env : Env) (settings : Settings) (gate : M Unit) (targets : List ExecutionTarget) (w : World)
    → halted w.kill_switch ≡ true
    → ((n : ℕ) → Keeps (NoBuys n) gate)
    → (halted (execute_book env settings gate targets w).1.kill_switch ≡ true)
      × (buys (execute_book env settings gate targets w).1.history ≡ buys w.history)
execute_book-buys env settings gate targets w h quiet =
    (execute_book-keeps (NoBuys (buys w.history)) env settings
        (NoBuys-Steady env settings (buys w.history)) gate targets (quiet (buys w.history))).at
      w (h, refl)
