-- ===== src/Orchestration/ExecutionStage.antt =====
-- orchestration/execution_stage.py, `ExecutionStage.execute_run`: from ANCHORED to EXECUTED. The
-- executor and the halt controller are those of Execution, on their shared world; the store is a
-- record of functions of what happened before. A check of the triggers and a settlement never
-- flatten, so the controller's own field is read from the events and need not come back.
pub mod Eligible
pub mod Evidence
pub mod Marked
pub mod Run
mod Tests
use asymmetric_committee.Base.{
  ℕ, String, Bool, true, false, not, ◌&&◌, ◌||◌, Option, none, some, List, [], ◌∷◌, ◌++◌, Result,
  ok, err, Exec, pure, raise, lift, gets, modify, attempt, ◌>>=◌, ◌>>◌, if◌then◌else◌, is_some, leb,
  ◌==◌, any, all, filter, sort_by,
}
use asymmetric_committee.Base.Int.{ℤ}
use asymmetric_committee.Contracts.Enums.{FeedName}
use asymmetric_committee.Contracts.RunStatus.{RunStatus, same, member, anchored, executed, partial}
use asymmetric_committee.Contracts.Commitment.Canonical.{Printer}
use asymmetric_committee.Contracts.Commitment.{CommitmentMaterial, IntegrityError, verify_material}
use asymmetric_committee.Evaluation.Anchoring.Hex.{Bytes}
use asymmetric_committee.Evaluation.Anchoring.{Library, AnchorError, ProofStatus, check_binding}
use asymmetric_committee.Evaluation.Scorable.{RunMode}
use asymmetric_committee.Execution.Book.{execute_book}
use asymmetric_committee.Execution.Gateway.{
  Error, lim, client_order_id, BrokerOrder, ExecutionRecord, Call, History, Env, World, M, call,
}
use asymmetric_committee.Execution.Halt.{H, check, settle_open_orders}
use asymmetric_committee.Execution.Leg.{ExecutionTarget, ExecutionOutcome, Settings, lim_id}
use asymmetric_committee.Orchestration.AnchorStage.{StoredMaterial}
use asymmetric_committee.Orchestration.Pipeline.Resume.{is_live}
use asymmetric_committee.Orchestration.Targets.{
  PlanError, ProposedPosition, MarketView, plan_targets,
}
use asymmetric_committee.Risk.KillSwitch.{
  Ratio, Figure, finite, not_finite, KillSwitchEvent, halted, halt_all, from_events, was_flattened,
}

-- `ExecutionNotEligibleError`, `CommitmentIntegrityError`, `ExecutionPlanError`, missing evidence,
-- and what the store, the proof library and the broker raise
pub data ExecutionError : Type 0 where
  not_eligible integrity evidence_missing store_error proof_error : ExecutionError
  plan : PlanError → ExecutionError
  trading : Error → ExecutionError

-- `RunRecord`; of its status reason, whether it begins with `HALT_REASON_PREFIX`
pub record StoredRun : Type 0 where
  pub mode : RunMode
  pub status : RunStatus
  pub reason_is_halt : Bool

-- The commitment material with the fields of its snapshot
pub record CommittedBook : Type 0 where
  pub stored : StoredMaterial
  pub book_run_id : ℕ
  pub positions : List ProposedPosition
  pub has_cio : Bool

-- `ExecutionResult`
pub record ExecutionResult : Type 0 where
  pub run_id : ℕ
  pub status : RunStatus
  pub advanced : Bool
  pub outcomes : List ExecutionOutcome

pub data StoreCall : Type 0 where
  read_run read_material read_market dead_letter : StoreCall
  mark_executed : ℕ → StoreCall

pub record StageState : Type 0 where
  pub past : List StoreCall
  pub world : World

-- `ExecutionStore` and the other collaborators
pub record Store : Type 0 where
  pub load_run : StageState → ℕ → Result ExecutionError (Option StoredRun)
  pub load_commitment_material : StageState → ℕ → Result ExecutionError (Option CommittedBook)
  pub record_dlq : StageState → ℕ → Result ExecutionError Unit
  pub set_executed : StageState → ℕ → ℕ → Result ExecutionError Bool
  pub market : StageState → Result ExecutionError MarketView
  pub load_kill_switch_events : History → Result Error (List KillSwitchEvent)
  pub feeds : History → FeedName → Option ℕ

-- `AppConfig`, and the options of the executor and of the halt controller
pub record StageConfig : Type 0 where
  pub kill_switch_daily_loss : Ratio
  pub freshness_sla_hours : List (FeedName × ℕ)
  pub settings : Settings
  pub halt_poll_seconds : ℕ
  pub halt_poll_attempts : ℕ

abbrev pub Stage : Type 0 → Type 0
Stage = Exec ExecutionError StageState

-- The store is asked, and what it answers or raises
unfoldable pub ask_store :
    {A : Type 0} → StoreCall → (StageState → Result ExecutionError A) → Stage A
ask_store c answer = do r ← gets answer; modify (λ s. record s { past = c ∷ s.past }); lift r

abbrev pub from_trading : {A : Type 0} → Result Error A → Result ExecutionError A
from_trading (ok a) = ok a
from_trading (err e) = err (trading e)

-- An action on the shared world
unfoldable pub on_market : {A : Type 0} → M A → Stage A
on_market m s = let (r, w) = m s.world in (from_trading r, record s { world = w })

abbrev pub required : {A : Type 0} → ExecutionError → Option A → Result ExecutionError A
required e none = err e
required e (some a) = ok a

abbrev pub demand : Bool → ExecutionError → Result ExecutionError Unit
demand true e = ok tt
demand false e = err e

abbrev pub executable : List RunStatus
executable = anchored ∷ executed ∷ []

-- `_halted`
abbrev pub is_halted_run : StoredRun → Bool
is_halted_run r = same r.status partial && r.reason_is_halt

abbrev pub is_nonempty : {A : Type 0} → List A → Bool
is_nonempty [] = false
is_nonempty (_ ∷ _) = true

abbrev pub planned : {A : Type 0} → Result PlanError A → Result ExecutionError A
planned (ok a) = ok a
planned (err e) = err (plan e)

abbrev pub as_number : Figure → Option ℤ
as_number (finite n) = some n
as_number not_finite = none

abbrev pub is_done : ExecutionOutcome → Bool
is_done o = o.complete && not o.blocked_by_kill_switch

module _ (print : Printer) (sha256 : String → String) (lib : Library) (env : Env) (store : Store)
    (cfg : StageConfig) where
  abbrev pub bound : AnchorError → ExecutionError
  bound AnchorError.binding = integrity
  bound _ = proof_error

  abbrev pub binding_result : Result AnchorError ProofStatus → Result ExecutionError Unit
  binding_result (ok s) = ok tt
  binding_result (err e) = err (bound e)

  -- a full anchor, whose proof is bound to the digest
  abbrev pub check_anchor : String → Option Bytes → Option ℕ → Result ExecutionError Unit
  check_anchor sha none commit = err integrity
  check_anchor sha (some proof) none = err integrity
  check_anchor sha (some proof) (some commit) = binding_result (check_binding lib proof sha)

  abbrev pub check_digest :
      StoredMaterial → Result IntegrityError String → Result ExecutionError Unit
  check_digest m (err e) = err integrity
  check_digest m (ok sha) = check_anchor sha m.ots_proof m.git_commit

  -- the outer `try:` of `_eligible`
  abbrev pub check_material : StoredMaterial → Result ExecutionError Unit
  check_material m = check_digest m (verify_material print sha256 m.material)

  -- `_dead_letter`, whose own errors are not raised
  unfoldable pub report : ℕ → Stage Unit
  unfolding ask_store
  report run_id = attempt (ask_store dead_letter (λ s. store.record_dlq s run_id)) (λ _. pure tt)

  abbrev pub after_integrity : {A : Type 0} → ℕ → ExecutionError → Stage A
  after_integrity run_id integrity = do report run_id; raise integrity
  after_integrity run_id e = raise e

  -- `_eligible`
  unfoldable pub eligible : ℕ → StoredRun → Stage CommittedBook
  unfolding ask_store report
  eligible run_id run = do
    lift (demand (is_live run.mode) not_eligible)
    lift (demand (member run.status executable) not_eligible)
    found ← ask_store read_material (λ s. store.load_commitment_material s run_id)
    m ← lift (required not_eligible found)
    attempt (lift (check_material m.stored)) (after_integrity run_id)
    lift (
        demand (m.stored.material.snapshot.run_id == run_id && (m.book_run_id == run_id))
          not_eligible)
    lift (demand (not (is_nonempty m.positions && not m.has_cio)) not_eligible)
    pure m

  -- an action of the halt controller, on the shared world
  abbrev pub in_control : {A : Type 0} → Bool → H A → M A
  in_control flattened m w =
      let (r, c) = m (record { world = w; flattened = flattened }) in (r, c.world)

  abbrev pub load_events : M (List KillSwitchEvent)
  load_events = call Call.load_events store.load_kill_switch_events

  abbrev pub settle : Bool → M (List ℕ)
  settle flattened =
      in_control flattened (settle_open_orders env cfg.halt_poll_seconds cfg.halt_poll_attempts)

  -- `halt.check(…)`
  unfoldable pub check_triggers : Bool → M Unit
  check_triggers flattened = do
    last_success ← gets (λ w. store.feeds w.history)
    fired ← in_control flattened (
        check env cfg.halt_poll_seconds cfg.halt_poll_attempts cfg.kill_switch_daily_loss
          last_success cfg.freshness_sla_hours)
    pure tt

  -- `if ks.halted: … else: …` before the orders
  unfoldable pub guard_market : Bool → M Unit
  unfolding check_triggers
  guard_market flattened = do
    ks ← gets (λ w. w.kill_switch)
    if halted ks then (do settle flattened; pure tt) else check_triggers flattened

  -- `gate`
  unfoldable pub exposure_gate : Bool → M Unit
  unfolding check_triggers
  exposure_gate flattened = do
    before ← gets (λ w. w.kill_switch)
    events ← load_events
    modify (λ w. record w { kill_switch = halt_all w.kill_switch events })
    ks ← gets (λ w. w.kill_switch)
    if halted ks
        then (if halted before then pure tt else (do settle flattened; pure tt))
        else check_triggers flattened

  -- `_halt_controller`: the switch rebuilt, and whether positions were flattened
  unfoldable pub rebuild : M Bool
  rebuild = do
    events ← load_events
    modify (λ w. record w { kill_switch = from_events events })
    pure (was_flattened events)
