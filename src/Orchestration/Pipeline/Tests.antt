-- ===== src/Orchestration/Pipeline/Tests.antt =====
-- A backtest of one entity, and instances of the theorems on steps.
use asymmetric_committee.Base.{
  ℕ, ◌+◌, ◌*◌, ◌≤◌, ◌≡◌, ◌↔◌, refl, Elem, arith, String, Bool, true, false, none, some, List, [],
  ◌∷◌, ok, err, Ends, pure, lift, gets, modify, attempt, ◌>>=◌,
}
use asymmetric_committee.Contracts.RunStatus.{RunStatus, anchored, executed, partial}
use asymmetric_committee.Evaluation.Scorable.{RunMode, live, backtest}
use asymmetric_committee.Orchestration.Pipeline.{
  StepError, Entity, AgentVerdict, Fit, Book, Answer, RunRow, StepResult, World, Config, State,
  tell, was_halted,
}
use asymmetric_committee.Orchestration.Pipeline.Committee.{
  group, pool_groups, logits, red_team_ids, fits_of, bears, pool_records, records_of,
  decision_records,
}
use asymmetric_committee.Orchestration.Pipeline.Attempt.{
  now, flush_step, keys_of, new_verdict_records, call_agents, commit, review, decide_book, red_team,
  pool_votes, execute,
}
use asymmetric_committee.Orchestration.Pipeline.Resume.{
  orchestrator, assert_point_in_time, maybe_anchor, execute_anchored, maybe_execute, check_same_run,
  seed, start_step, resumed, resume_step, run_step, weekly_steps, run_backtest, with_resume,
}
use asymmetric_committee.Orchestration.Pipeline.Sealed.{Sound}
use asymmetric_committee.Orchestration.Pipeline.Stages.{run_step-Sound}
use asymmetric_committee.Orchestration.Pipeline.Stops.{executions, Stopped, run_backtest-Stopped}
use asymmetric_committee.Orchestration.Pipeline.Weeks.{Rising, weekly_steps_iff}

abbrev entity : Entity
entity = record {
  entity_token = 8;
  security_id = 1;
  available_at = 90 ∷ 95 ∷ [];
  sector = 2;
  volatility = some 3;
}

abbrev vote : Bool → AgentVerdict
vote red = record { entity_token = 8; agent = 4; is_red = red; bear_severity = none }

abbrev a_fit : Fit
a_fit = record { horizon = 21; active = false }

abbrev a_book : Book
a_book = record { positions = (1, 50) ∷ []; cash_weight = 50 }

abbrev halt_of_7 : RunRow
halt_of_7 = record {
  run_id = 7;
  mode = backtest;
  as_of = 100;
  config_hash = 5;
  status = partial;
  started_at = 100;
  ended_at = 101;
  status_reason = some "kill_switch:manual";
  total_cost = 2;
}

abbrev votes_of : List ℕ → Answer
votes_of [] = record {
  verdicts = vote false ∷ [];
  letters = [];
  cost = 1;
  result = ok (none, (some 4, 1) ∷ [], (some 4, 1) ∷ []);
}
votes_of (id ∷ ids) = record {
  verdicts = vote true ∷ [];
  letters = [];
  cost = 1;
  result = ok (none, (none, 1) ∷ [], (none, 1) ∷ []);
}

abbrev env : World
env = record {
  load_run = λ h id. some halt_of_7;
  load_verdicts = λ h id. [];
  load_book = λ h id. none;
  load = λ h as_of. ok (record { entities = entity ∷ []; aliases_covered = true });
  run_agents = λ h es red_ids done. votes_of red_ids;
  pool = λ vs. ok (
      some (record {
        entity_token = 8;
        pools = record { horizon = 21; logit = 6; dispersion = 0 } ∷ [];
      }));
  fit = λ h. ok a_fit;
  blend = λ f l. l;
  size_book = λ pooled bear es f. ok a_book;
  cio = λ h book reds. (
    [],
    1,
    ok (record {
      book = book;
      decision = some (record { actions = (8, 1) ∷ []; rationale = 0 });
      alert = false;
    }),
  );
  hash_commitment = λ run records p. ok 77;
  flush = λ h a. none;
  anchor_run = λ h id. ok anchored;
  execute_run = λ h id. ok (executed, none);
  clock = λ h. 102;
  new_run_id = λ h. 3;
}

abbrev cfg : RunMode → Bool → Config
cfg mode execution = record {
  mode = mode;
  hash = 5;
  horizons = 21 ∷ [];
  primary = 21;
  has_anchoring = true;
  has_execution = execution;
}

abbrev start : State
start = record {
  events = [];
  voters = [];
  reds = [];
  stored = [];
  telemetry = [];
  spent = 0;
  dlq = [];
}

abbrev describe : StepError → String
describe e = "error"

abbrev done : RunStatus → StepResult
done status = record {
  run_id = 3;
  as_of = 100;
  status = status;
  book = some a_book;
  cost = 3;
  reason = none;
}

backtest_step :
    (run_step env (cfg backtest false) describe (some 100) none start).0 ≡ ok (done anchored)
unfolding run_step resume_step resumed start_step assert_point_in_time maybe_execute maybe_anchor
    execute_anchored execute call_agents pool_votes red_team decide_book review commit flush_step
    now new_verdict_records keys_of group pool_groups red_team_ids logits fits_of bears
    decision_records records_of pool_records tell seed ◌>>=◌ attempt modify gets lift pure
backtest_step = refl

-- Only a live orchestrator may execute.
no_execution : orchestrator (cfg backtest true) ≡ err StepError.value_error
unfolding orchestrator
no_execution = refl

run_step-Sound_example :
    Sound env (cfg live true) (run_step env (cfg live true) describe (some 100) none start).1.events
run_step-Sound_example = run_step-Sound env (cfg live true) describe (some 100) none start tt

run_backtest-Stopped_example :
    Ends
      (λ rs s.
        (executions s.events ≡ 0)
        × Stopped (with_resume ((107, 7) ∷ []) (weekly_steps 7 100 114)) rs)
      (λ s. executions s.events ≡ 0)
      (run_backtest env (cfg backtest false) describe 7 100 114 ((107, 7) ∷ []) start)
run_backtest-Stopped_example =
    run_backtest-Stopped env (cfg backtest false) describe 7 100 114 ((107, 7) ∷ []) start refl

same_run : check_same_run env (cfg backtest false) halt_of_7 100 ≡ ok tt
unfolding check_same_run
same_run = refl

is_halted : was_halted halt_of_7 ≡ true
unfolding was_halted
is_halted = refl

-- Of the days 100 to 115 the weekly steps are 100, 107 and 114.
three_weeks : weekly_steps 7 100 115 ≡ 100 ∷ 107 ∷ 114 ∷ []
unfolding weekly_steps
three_weeks = refl

weekly_steps_iff_example :
    Rising (weekly_steps 7 100 115)
    × ((x : ℕ) → Elem x (weekly_steps 7 100 115) ↔ ((k : ℕ) × (x ≡ 100 + k * 7) × (x ≤ 115)))
weekly_steps_iff_example = weekly_steps_iff 7 100 115 (ground arith)
