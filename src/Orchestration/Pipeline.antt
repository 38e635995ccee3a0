-- ===== src/Orchestration/Pipeline.antt =====
-- orchestration/pipeline.py: what a step works with. The loader, the sink, the agents, the CIO, the
-- stages, the clock and the numerics of committee/ and risk/ are functions of what happened before
-- (World). Ids, tokens, instants, costs, weights and digests are numbers, an instant without a zone is
-- none, and a logit is its rank, since the step only compares it and hands it on.
pub mod Committee
pub mod Attempt
pub mod Resume
pub mod Sealed
pub mod Stages
pub mod Stops
pub mod Weeks
mod Tests
use text.Mathlib.Text.{starts_with}
use asymmetric_committee.Base.{
  ℕ, String, ◌+◌, Bool, true, false, not, ◌&&◌, Option, none, some, List, [], ◌∷◌, ◌++◌, Result, ok,
  err, Exec, gets, modify, if◌then◌else◌, ltb, leb, ◌==◌, any, filter,
}
use asymmetric_committee.Contracts.RunStatus.{RunStatus, partial, same}
use asymmetric_committee.Evaluation.Scorable.{RunMode}

-- The exceptions, those of the parts that are called among them
pub data StepError : Type 0 where
  value_error run_mismatch look_ahead alias_coverage no_telemetry key_error other_error : StepError

-- `EntityData`: when its rows, the features first, became available, and its volatility
pub record Entity : Type 0 where
  pub entity_token : ℕ
  pub security_id : ℕ
  pub available_at : List ℕ
  pub sector : ℕ
  pub volatility : Option ℕ

-- `AgentVerdict` or `RedTeamVerdict`, with the severity of the latter
pub record AgentVerdict : Type 0 where
  pub entity_token : ℕ
  pub agent : ℕ
  pub is_red : Bool
  pub bear_severity : Option ℕ

-- `_verdict_key`, for one run: a red-team verdict goes by the agent's name, here none
abbrev pub Key : Type 0
Key = Option ℕ × ℕ

abbrev pub verdict_key : AgentVerdict → ℕ → Key
verdict_key v security_id = (if v.is_red then none else some v.agent, security_id)

abbrev same_agent : Option ℕ → Option ℕ → Bool
same_agent none none = true
same_agent (some a) (some b) = a == b
same_agent _ _ = false

abbrev pub same_task : Key → Key → Bool
same_task a b = same_agent a.0 b.0 && (a.1 == b.1)

abbrev pub has_key : List Key → Key → Bool
has_key keys k = any (same_task k) keys

-- `StepInputs`
pub record StepInputs : Type 0 where
  pub entities : List Entity
  pub aliases_covered : Bool

-- `HorizonPool`
pub record Pool : Type 0 where
  pub horizon : ℕ
  pub logit : ℕ
  pub dispersion : ℕ

-- `PooledForecast`
pub record Forecast : Type 0 where
  pub entity_token : ℕ
  pub pools : List Pool

-- `CalibrationFit`
pub record Fit : Type 0 where
  pub horizon : ℕ
  pub active : Bool

-- `ProposedBook`: the weights by security
pub record Book : Type 0 where
  pub positions : List (ℕ × ℕ)
  pub cash_weight : ℕ

-- `CIODecision`: the actions by token
pub record CioDecision : Type 0 where
  pub actions : List (ℕ × ℕ)
  pub rationale : ℕ

-- `CioResult`
pub record CioResult : Type 0 where
  pub book : Book
  pub decision : Option CioDecision
  pub alert : Bool

-- What a call of the CIO raises: one of `_CIO_ABORTS`, by its name, or something else
pub data CioError : Type 0 where
  aborts : String → CioError
  raises : StepError → CioError

-- What a call of the agents does: the verdicts that it collects, the dead letters, its cost, and how
-- it ends
pub record Answer : Type 0 where
  pub verdicts : List AgentVerdict
  pub letters : List ℕ
  pub cost : ℕ
  -- `RunnerResult`: whether it is partial, with the reason, the tasks completed and their telemetry
  pub result : Result StepError (Option String × List Key × List Key)

-- `RunRecord`
pub record RunRow : Type 0 where
  pub run_id : ℕ
  pub mode : RunMode
  pub as_of : ℕ
  pub config_hash : ℕ
  pub status : RunStatus
  pub started_at : ℕ
  pub ended_at : ℕ
  pub status_reason : Option String
  pub total_cost : ℕ

-- `CommitteeDecisionRecord`
pub record DecisionRecord : Type 0 where
  pub security_id : ℕ
  pub entity_token : ℕ
  pub horizon_days : ℕ
  pub pooled_p : ℕ
  pub dispersion : ℕ
  pub bear_severity : Option ℕ
  pub target_weight : ℕ
  pub calibrated : Bool
  pub cio_action : Option ℕ
  pub rationale : Option ℕ

-- `PortfolioSnapshot`
pub record Portfolio : Type 0 where
  pub run_id : ℕ
  pub book : Book
  pub decision : Option CioDecision

-- `StepArtifacts`: of a verdict record its key
pub record StepArtifacts : Type 0 where
  pub run : RunRow
  pub verdicts : List Key
  pub decisions : List DecisionRecord
  pub portfolio : Option Portfolio
  pub commitment : Option ℕ
  pub dlq : List ℕ

-- `StepResult`
pub record StepResult : Type 0 where
  pub run_id : ℕ
  pub as_of : ℕ
  pub status : RunStatus
  pub book : Option Book
  pub cost : ℕ
  pub reason : Option String

-- What a step does to the world outside, and whether a flush was taken
pub data Event : Type 0 where
  new_run loaded clock_read agents_ran cio_asked : Event
  flushed : Bool → StepArtifacts → Event
  anchored_run executed_run : ℕ → Event

abbrev pub History : Type 0
History = List Event

-- `RunRecord`s, verdicts and books that are stored, and what the parts answer
pub record World : Type 0 where
  pub load_run : History → ℕ → Option RunRow
  pub load_verdicts : History → ℕ → List (ℕ × AgentVerdict)
  pub load_book : History → ℕ → Option Book
  pub load : History → ℕ → Result StepError StepInputs
  pub run_agents : History → List Entity → List ℕ → List Key → Answer
  pub pool : List AgentVerdict → Result StepError (Option Forecast)
  pub fit : ℕ → Result StepError Fit
  pub blend : Fit → ℕ → ℕ
  pub size_book :
      List (ℕ × Forecast) → List (ℕ × Option ℕ) → List Entity → Fit → Result StepError Book
  pub cio : History → Book → List AgentVerdict → List ℕ × ℕ × Result CioError CioResult
  pub hash_commitment : RunRow → List DecisionRecord → Portfolio → Result StepError ℕ
  pub flush : History → StepArtifacts → Option StepError
  pub anchor_run : History → ℕ → Result StepError RunStatus
  pub execute_run : History → ℕ → Result StepError (RunStatus × Option String)
  pub clock : History → ℕ
  pub new_run_id : History → ℕ

-- `BacktestOrchestrator`: its settings
pub record Config : Type 0 where
  pub mode : RunMode
  pub hash : ℕ
  pub horizons : List ℕ
  pub primary : ℕ
  pub has_anchoring : Bool
  pub has_execution : Bool

-- `_Attempt`, with the history
pub record State : Type 0 where
  pub events : History
  pub voters : List AgentVerdict
  pub reds : List AgentVerdict
  pub stored : List Key
  pub telemetry : List Key
  pub spent : ℕ
  pub dlq : List ℕ

abbrev pub Step : Type 0 → Type 0
Step = Exec StepError State

-- An event, and what is answered after what happened before it
unfoldable pub tell : Event → Step Unit
tell e = modify (λ s. record s { events = e ∷ s.events })

-- `_halted`
abbrev pub halt_reason_prefix : String
halt_reason_prefix = "kill_switch:"

abbrev reason_of : Option String → String
reason_of none = ""
reason_of (some r) = r

unfoldable pub was_halted : RunRow → Bool
was_halted run =
    same run.status partial && starts_with (reason_of run.status_reason) halt_reason_prefix

abbrev pub lookup : {A : Type 0} → ℕ → List (ℕ × A) → Option A
lookup k [] = none
lookup k ((j, a) ∷ rest) = if j == k then some a else lookup k rest

-- `d[k]`
abbrev pub required : {A : Type 0} → Option A → Result StepError A
required none = err StepError.key_error
required (some a) = ok a

-- `{e.entity_token: e.security_id for e in entities}`: of equal tokens the last
abbrev pub id_of : ℕ → List Entity → Option ℕ
id_of token [] = none
id_of token (e ∷ es) = elim (id_of token es) [
  | none ↦ if e.entity_token == token then some e.security_id else none
  | some id ↦ some id
]
