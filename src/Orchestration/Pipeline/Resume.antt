-- ===== src/Orchestration/Pipeline/Resume.antt =====
-- orchestration/pipeline.py: a step, fresh or resumed, the stages after it, and the backtest.
use asymmetric_committee.Base.{
  ℕ, zero, suc, String, ◌+◌, ◌-◌, Bool, true, false, not, ◌&&◌, ◌||◌, Option, none, some, List, [],
  ◌∷◌, ◌++◌, Result, ok, err, pure, raise, lift, gets, modify, attempt, ◌>>=◌, ◌>>◌, if◌then◌else◌,
  leb, ◌==◌, all,
}
use asymmetric_committee.Contracts.RunStatus.{
  RunStatus, same, member, committed, anchored, executed, scored,
}
use asymmetric_committee.Evaluation.Scorable.{RunMode, live, backtest, ablation}
use asymmetric_committee.Orchestration.Pipeline.{
  StepError, Entity, StepInputs, AgentVerdict, verdict_key, RunRow, Book, StepResult, World, Config,
  State, Step, tell, lookup, id_of, loaded, new_run, anchored_run, executed_run, was_halted,
}
use asymmetric_committee.Orchestration.Pipeline.Attempt.{now, execute, record_failure}

abbrev pub is_live : RunMode → Bool
is_live live = true
is_live _ = false

abbrev pub same_mode : RunMode → RunMode → Bool
same_mode live live = true
same_mode backtest backtest = true
same_mode ablation ablation = true
same_mode _ _ = false

-- `BacktestOrchestrator.__init__`
unfoldable pub orchestrator : Config → Result StepError Config
orchestrator cfg =
    if cfg.has_execution && not (is_live cfg.mode)
    then err StepError.value_error
    else if cfg.has_execution && not cfg.has_anchoring
    then err StepError.value_error
    else ok cfg

abbrev pub advanced : List RunStatus
advanced = committed ∷ anchored ∷ executed ∷ scored ∷ []

abbrev pub step_done : List RunStatus
step_done = committed ∷ anchored ∷ executed ∷ []

abbrev available_by : ℕ → Entity → Bool
available_by as_of e = all (λ t. leb t as_of) e.available_at

-- `assert_point_in_time`
unfoldable pub assert_point_in_time : StepInputs → ℕ → Result StepError Unit
assert_point_in_time inputs as_of =
    if all (available_by as_of) inputs.entities then ok tt else err StepError.look_ahead

abbrev pub with_status : StepResult → RunStatus → Option String → StepResult
with_status r status reason = record {
  run_id = r.run_id;
  as_of = r.as_of;
  status = status;
  book = r.book;
  cost = r.cost;
  reason = reason;
}

abbrev pub anchor_known : StepResult → Result StepError RunStatus → Step StepResult
anchor_known r (ok status) = pure (with_status r status none)
anchor_known r (err e) = raise e

abbrev pub execute_known :
    StepResult → Result StepError (RunStatus × Option String) → Step StepResult
execute_known r (ok (status, reason)) = pure (with_status r status reason)
execute_known r (err e) = raise e

abbrev pub stored_result : RunRow → ℕ → ℕ → Option String → Option Book → StepResult
stored_result prior run_id as_of reason book = record {
  run_id = run_id;
  as_of = as_of;
  status = prior.status;
  book = book;
  cost = prior.total_cost;
  reason = reason;
}

abbrev pub zoned : Option ℕ → Result StepError ℕ
zoned none = err StepError.value_error
zoned (some t) = ok t

abbrev pub go_on : StepResult → Bool → Step (List StepResult) → Step (List StepResult)
go_on result false rest = pure (result ∷ [])
go_on result true rest = rest >>= λ results. pure (result ∷ results)

abbrev pub spent_before : Option RunRow → ℕ
spent_before none = 0
spent_before (some prior) = prior.total_cost

-- a new `_Attempt`
abbrev pub fresh : ℕ → State → State
fresh spent s = record {
  events = s.events;
  voters = [];
  reds = [];
  stored = [];
  telemetry = [];
  spent = spent;
  dlq = [];
}

abbrev pub seeded : AgentVerdict → ℕ → State → State
seeded v id s = record s {
  voters = if v.is_red then s.voters else s.voters ++ v ∷ [];
  reds = if v.is_red then s.reds ++ v ∷ [] else s.reds;
  stored = verdict_key v id ∷ s.stored;
}

abbrev pub is_that : ℕ → Option ℕ → Bool
is_that id none = false
is_that id (some j) = j == id

module _ (env : World) (cfg : Config) where
  -- the first half of `_maybe_execute`
  unfoldable pub maybe_anchor : StepResult → Step StepResult
  unfolding tell
  maybe_anchor r =
      if same r.status committed && cfg.has_anchoring
      then (do
        answer ← gets (λ s. env.anchor_run s.events r.run_id)
        tell (anchored_run r.run_id)
        anchor_known r answer)
      else pure r

  -- the second half
  unfoldable pub execute_anchored : StepResult → Step StepResult
  unfolding tell
  execute_anchored r =
      if not cfg.has_execution || (not (is_live cfg.mode) || not (same r.status anchored))
      then pure r
      else (do
        answer ← gets (λ s. env.execute_run s.events r.run_id)
        tell (executed_run r.run_id)
        execute_known r answer)

  -- `_maybe_execute`
  unfoldable pub maybe_execute : StepResult → Step StepResult
  unfolding maybe_anchor execute_anchored
  maybe_execute r = maybe_anchor r >>= execute_anchored

  -- `_check_same_run`
  unfoldable pub check_same_run : RunRow → ℕ → Result StepError Unit
  check_same_run prior as_of =
      if same_mode prior.mode cfg.mode
        && ((prior.as_of == as_of) && (prior.config_hash == cfg.hash))
      then ok tt
      else err StepError.run_mismatch

  -- the loop of `_seed_from_store`
  unfoldable pub seed : List Entity → List (ℕ × AgentVerdict) → Step Unit
  seed entities [] = pure tt
  seed entities ((id, v) ∷ rest) = do
    lift (if is_that id (id_of v.entity_token entities) then ok tt else err StepError.run_mismatch)
    modify (seeded v id)
    seed entities rest

  abbrev pub seed_stored : ℕ → List Entity → Option RunRow → Step Unit
  seed_stored run_id entities none = pure tt
  seed_stored run_id entities (some prior) =
      gets (λ s. env.load_verdicts s.events run_id) >>= seed entities

  abbrev pub started_of : Option RunRow → Step ℕ
  started_of none = now env cfg
  started_of (some prior) = pure prior.started_at

-- the loop of `weekly_steps`, at most `fuel` rounds; `days` is the length of a week
unfoldable pub weekly_from : ℕ → ℕ → ℕ → ℕ → List ℕ
weekly_from days end zero t = []
weekly_from days end (suc fuel) t =
    let rest = weekly_from days end fuel (t + days) in if leb t end then t ∷ rest else []

-- `weekly_steps`
unfoldable pub weekly_steps : ℕ → ℕ → ℕ → List ℕ
unfolding weekly_from
weekly_steps days start end = weekly_from days end (end + 1 - start) start

abbrev pub with_resume : List (ℕ × ℕ) → List ℕ → List (ℕ × Option ℕ)
with_resume resume [] = []
with_resume resume (t ∷ ts) = (t, lookup t resume) ∷ with_resume resume ts

-- `describe` gives the reason of a failure.
module _ (env : World) (cfg : Config) (describe : StepError → String) where
  -- `_record_failure`, and the error again
  abbrev pub failed_with : ℕ → ℕ → ℕ → List Entity → StepError → Step StepResult
  failed_with run_id as_of started entities e =
      record_failure env cfg run_id as_of started entities describe e >>= λ _. raise e

  -- `run_step` from the load of its inputs
  unfoldable pub start_step : ℕ → ℕ → Option RunRow → Step StepResult
  unfolding tell seed maybe_execute
  start_step run_id as_of prior = do
    answer ← gets (λ s. env.load s.events as_of)
    tell loaded
    inputs ← lift answer
    lift (assert_point_in_time inputs as_of)
    lift (if inputs.aliases_covered then ok tt else err StepError.alias_coverage)
    started ← started_of env cfg prior
    modify (fresh (spent_before prior))
    seed_stored env cfg run_id inputs.entities prior
    result ←
        attempt (execute env cfg run_id as_of started inputs.entities)
          (failed_with run_id as_of started inputs.entities)
    maybe_execute env cfg result

  unfoldable pub resumed : RunRow → ℕ → ℕ → Option Book → Step StepResult
  unfolding start_step maybe_execute
  resumed prior run_id as_of book =
      if was_halted prior
      then pure (stored_result prior run_id as_of prior.status_reason book)
      else if member prior.status advanced
      then maybe_execute env cfg (stored_result prior run_id as_of none book)
      else start_step run_id as_of (some prior)

  unfoldable pub resume_step : ℕ → ℕ → Option RunRow → Step StepResult
  unfolding start_step check_same_run resumed
  resume_step run_id as_of none = start_step run_id as_of none
  resume_step run_id as_of (some prior) = do
    lift (check_same_run env cfg prior as_of)
    book ← gets (λ s. env.load_book s.events run_id)
    resumed prior run_id as_of book

  abbrev pub named_run : Option ℕ → ℕ → Step StepResult
  named_run (some run_id) as_of =
      gets (λ s. env.load_run s.events run_id) >>= resume_step run_id as_of
  named_run none as_of = do
    run_id ← gets (λ s. env.new_run_id s.events)
    modify (λ s. record s { events = new_run ∷ s.events })
    resume_step run_id as_of none

  -- `run_step`
  unfoldable pub run_step : Option ℕ → Option ℕ → Step StepResult
  unfolding resume_step
  run_step as_of run_id = lift (zoned as_of) >>= named_run run_id

  -- the loop of `run_backtest`, over the instants of the steps and the run that each resumes
  unfoldable pub run_steps : List (ℕ × Option ℕ) → Step (List StepResult)
  unfolding run_step
  run_steps [] = pure []
  run_steps ((as_of, resume) ∷ steps) = do
    result ← run_step (some as_of) resume
    go_on result (member result.status step_done) (run_steps steps)

  -- `run_backtest`
  unfoldable pub run_backtest : ℕ → ℕ → ℕ → List (ℕ × ℕ) → Step (List StepResult)
  unfolding run_steps weekly_steps
  run_backtest days start end resume =
      if same_mode cfg.mode backtest
      then run_steps (with_resume resume (weekly_steps days start end))
      else raise StepError.value_error
