-- ===== src/Orchestration/ExecutionStage/Tests.antt =====
-- A run whose book is one name, and an instance of the theorem on the stage.
use asymmetric_committee.Base.{String, true, false, none, some, [], ◌∷◌, ok}
use asymmetric_committee.Base.Int.{pos}
use asymmetric_committee.Contracts.Enums.{buy, OrderKind, BrokerOrderStatus, iex_mid}
use asymmetric_committee.Contracts.RunStatus.{RunStatus, anchored}
use asymmetric_committee.Contracts.Commitment.Canonical.{Printer, sequence, end_values}
use asymmetric_committee.Evaluation.Anchoring.{Library, bitcoin, refuted}
use asymmetric_committee.Evaluation.Scorable.{live}
use asymmetric_committee.Execution.Gateway.{ExecutionRecord, Env}
use asymmetric_committee.Execution.Leg.{lim_id}
use asymmetric_committee.Execution.Sample.{acme, broker, settings, quiet_world}
use asymmetric_committee.Orchestration.ExecutionStage.{
  CommittedBook, StageState, StageConfig, Store,
}
use asymmetric_committee.Orchestration.ExecutionStage.Evidence.{AllExecuted}
use asymmetric_committee.Orchestration.ExecutionStage.Marked.{execute_run-AllExecuted}
use asymmetric_committee.Orchestration.ExecutionStage.Run.{execute_run}
use asymmetric_committee.Risk.KillSwitch.{finite}

abbrev print : Printer
print = record {
  integer_text = λ n. "1";
  quoted = λ s. s;
  uuid_text = λ u. "u";
  utc_text = λ t. "t";
}

abbrev digest : String → String
digest bytes = "0af1"

abbrev lib : Library
lib = record {
  deserialize_file = λ bytes. some (record {
    is_sha256 = true;
    file_digest = 10 ∷ 241 ∷ [];
    timestamp = record { msg = 10 ∷ 241 ∷ []; all_attestations = (2 ∷ [], bitcoin 900) ∷ [] };
  });
  deserialize_fragment = λ bytes msg. none;
  verify = λ h msg. refuted;
}

-- The whole of 3.02 goes to ACME at 1.00, of which nothing is held: three shares.
abbrev book : CommittedBook
book = record {
  stored = record {
    material = record {
      run = record { run_id = 1; mode = "live"; as_of = 3; config_hash = "c" };
      decisions = [];
      snapshot = record { run_id = 1; dump = sequence end_values };
      stored_sha256 = "0af1";
      anchor_sha256 = some "0af1";
    };
    ots_proof = some (1 ∷ []);
    git_commit = some 5;
  };
  book_run_id = 1;
  positions = record { security_id = 7; target_weight = record { num = 1; den = 1 } } ∷ [];
  has_cio = true;
}

abbrev stored_execution : ExecutionRecord
stored_execution = record {
  run_id = 1;
  security_id = 7;
  client_id = lim_id acme;
  broker_order_id = 11;
  kind = OrderKind.limit;
  side = buy;
  qty = 3000000;
  filled_qty = 2000000;
  limit_price = some 1007500;
  decision_price = 10000;
  reference_price = 1005000;
  reference_source = iex_mid;
  fill_price = some 1006000;
  slippage_bps = none;
  status = BrokerOrderStatus.canceled;
  submitted_at = 5;
  filled_at = some 6;
}

abbrev env : Env
env = record broker {
  equity = λ _. ok (finite (pos 302), finite (pos 303));
  holdings = λ _. ok [];
  execution = λ _. ok (some stored_execution);
}

abbrev store : RunStatus → Store
store status = record {
  load_run = λ s id. ok (some (record { mode = live; status = status; reason_is_halt = false }));
  load_commitment_material = λ s id. ok (some book);
  record_dlq = λ s id. ok tt;
  set_executed = λ s id at. ok true;
  market =
      λ s. ok (record { symbols = (7, "ACME") ∷ []; decision_prices = (7, some (pos 10000)) ∷ [] });
  load_kill_switch_events = λ h. ok [];
  feeds = λ h feed. some 3;
}

abbrev cfg : StageConfig
cfg = record {
  kill_switch_daily_loss = record { num = pos 3; den = 100 };
  freshness_sla_hours = [];
  settings = settings;
  halt_poll_seconds = 1;
  halt_poll_attempts = 3;
}

abbrev start : StageState
start = record { past = []; world = quiet_world }

execute_run-AllExecuted_example :
    AllExecuted print digest lib env
      (store anchored)
      cfg
      (execute_run print digest lib env (store anchored) cfg 1 start).1.past
execute_run-AllExecuted_example =
    execute_run-AllExecuted print digest lib env (store anchored) cfg 1 start tt
