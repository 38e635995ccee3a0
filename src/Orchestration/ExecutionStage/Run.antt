-- ===== src/Orchestration/ExecutionStage/Run.antt =====
-- The targets of a run and `execute_run`.
use asymmetric_committee.Base.{
  ℕ, String, Bool, false, not, Option, none, some, List, [], ◌∷◌, ◌++◌, ok, pure, raise, lift, gets,
  attempt, ◌>>=◌, ◌>>◌, if◌then◌else◌, is_some, leb, ◌==◌, any, all, filter, sort_by,
}
use asymmetric_committee.Base.Int.{ℤ, pos_part}
use asymmetric_committee.Contracts.RunStatus.{RunStatus, same, anchored, executed, partial}
use asymmetric_committee.Contracts.Commitment.Canonical.{Printer}
use asymmetric_committee.Evaluation.Anchoring.{Library}
use asymmetric_committee.Execution.Book.{execute_book}
use asymmetric_committee.Execution.Gateway.{
  lim, client_order_id, BrokerOrder, ExecutionRecord, Call, Env, M, call,
}
use asymmetric_committee.Execution.Leg.{ExecutionTarget, ExecutionOutcome, lim_id}
use asymmetric_committee.Orchestration.ExecutionStage.{
  evidence_missing, not_eligible, StoredRun, CommittedBook, ExecutionResult, read_run, read_market,
  mark_executed, Store, StageConfig, Stage, ask_store, on_market, required, demand, is_halted_run,
  planned, as_number, is_done, report, eligible, settle, guard_market, exposure_gate, rebuild,
}
use asymmetric_committee.Orchestration.Targets.{MarketView, plan_targets}
use asymmetric_committee.Risk.KillSwitch.{halted}

-- `view.decision_prices.get(sid, order.limit_price or 0.0)`; a price that no quantity of money can
-- be, one below zero or not finite, is written as 0
abbrev pub price_in : ℕ → List (ℕ × Option ℤ) → Option ℕ → ℕ
price_in sid [] none = 0
price_in sid [] (some limit) = limit
price_in sid ((s, price) ∷ ps) limit =
    let rest = price_in sid ps limit in
    if sid == s then (elim price [ none ↦ 0 | some n ↦ pos_part n ]) else rest

-- the decision price of an order that exists: the stored one, where there is one
abbrev pub decided_at : Option ExecutionRecord → ℕ → ℕ
decided_at none price = price
decided_at (some stored) price = stored.decision_price

abbrev pub missing_from : List ExecutionTarget → ExecutionTarget → Bool
missing_from existing t = not (any (λ e. e.security_id == t.security_id) existing)

abbrev pub by_security : ExecutionTarget → ExecutionTarget → Bool
by_security a b = leb a.security_id b.security_id

module _ (env : Env) where
  abbrev pub with_order :
      ℕ → MarketView → ℕ × String → Option BrokerOrder → M (List ExecutionTarget)
  with_order run_id view e none = pure []
  with_order run_id view (sid, symbol) (some order) = do
    stored ← call (Call.find_execution order.client_id) env.execution
    pure (
        record {
          run_id = run_id;
          security_id = sid;
          symbol = symbol;
          side = order.side;
          qty = order.qty;
          decision_price = decided_at stored (price_in sid view.decision_prices order.limit_price);
        }
        ∷ [])

  -- the loop over the limit orders that exist
  unfoldable pub existing_targets : ℕ → MarketView → List (ℕ × String) → M (List ExecutionTarget)
  existing_targets run_id view [] = pure []
  existing_targets run_id view ((sid, symbol) ∷ es) = do
    let id = client_order_id run_id sid lim
    order ← call (Call.find_by_client_id id) env.find
    found ← with_order run_id view (sid, symbol) order
    rest ← existing_targets run_id view es
    pure (found ++ rest)

  -- the stored evidence of each target
  unfoldable pub evidence_of : List ExecutionTarget → M (List (Option ExecutionRecord))
  evidence_of [] = pure []
  evidence_of (t ∷ ts) = do
    stored ← call (Call.find_execution (lim_id t)) env.execution
    rest ← evidence_of ts
    pure (stored ∷ rest)

module _ (print : Printer) (sha256 : String → String) (lib : Library) (env : Env) (store : Store)
    (cfg : StageConfig) where
  -- `_targets`
  unfoldable pub targets_of : ℕ → CommittedBook → Stage (List ExecutionTarget)
  unfolding ask_store on_market existing_targets
  targets_of run_id book = do
    view ← ask_store read_market store.market
    existing ← on_market (existing_targets env run_id view view.symbols)
    (equity, prior) ← on_market (call Call.account_equity env.equity)
    held ← on_market (call Call.positions env.holdings)
    fresh ← lift (planned (plan_targets run_id book.positions view held (as_number equity)))
    pure (sort_by by_security (existing ++ filter (missing_from existing) fresh))

  abbrev pub status_now : Option StoredRun → RunStatus
  status_now none = partial
  status_now (some r) = r.status

  -- the result with the switch engaged
  unfoldable pub stopped : ℕ → List ExecutionOutcome → Stage ExecutionResult
  unfolding ask_store
  stopped run_id outcomes = do
    now ← ask_store read_run (λ s. store.load_run s run_id)
    pure
        (record { run_id = run_id; status = status_now now; advanced = false; outcomes = outcomes })

  -- the end of a run whose orders are all complete
  unfoldable pub conclude_run :
      ℕ → List ExecutionTarget → List ExecutionOutcome → Stage ExecutionResult
  unfolding ask_store on_market evidence_of
  conclude_run run_id targets outcomes = do
    found ← on_market (evidence_of env targets)
    lift (demand (all is_some found) evidence_missing)
    at ← on_market (call Call.clock (λ h. ok (env.now h)))
    advanced ← ask_store (mark_executed run_id) (λ s. store.set_executed s run_id at)
    pure (record { run_id = run_id; status = executed; advanced = advanced; outcomes = outcomes })

  -- what follows the orders
  unfoldable pub after_orders :
      ℕ → List ExecutionTarget → List ExecutionOutcome → Bool → Stage ExecutionResult
  unfolding stopped conclude_run
  after_orders run_id targets outcomes is_halted =
      if is_halted
      then stopped run_id outcomes
      else if not (all is_done outcomes)
      then pure
          (record { run_id = run_id; status = anchored; advanced = false; outcomes = outcomes })
      else conclude_run run_id targets outcomes

  unfoldable pub send_orders : Bool → List ExecutionTarget → M (List ExecutionOutcome × Bool)
  unfolding execute_book
  send_orders flattened targets = do
    outcomes ←
        execute_book env cfg.settings (exposure_gate print sha256 lib env store cfg flattened)
          targets
    ks ← gets (λ w. w.kill_switch)
    pure (outcomes, halted ks)

  -- the orders of a run, with the switch not engaged
  unfoldable pub trade_book : ℕ → Bool → CommittedBook → Stage ExecutionResult
  unfolding targets_of report after_orders on_market
  trade_book run_id flattened book = do
    targets ← targets_of run_id book
    (outcomes, is_halted) ←
        attempt (on_market (send_orders flattened targets))
          (λ e. do report print sha256 lib env store cfg run_id; raise e)
    after_orders run_id targets outcomes is_halted

  -- a run that is anchored
  unfoldable pub execute_anchored_run : ℕ → CommittedBook → Stage ExecutionResult
  unfolding on_market stopped trade_book
  execute_anchored_run run_id book = do
    flattened ← on_market (rebuild print sha256 lib env store cfg)
    on_market (guard_market print sha256 lib env store cfg flattened)
    is_halted ← gets (λ s. halted s.world.kill_switch)
    if is_halted then stopped run_id [] else trade_book run_id flattened book

  -- `_settle_halted`
  unfoldable pub settle_halted : ℕ → StoredRun → Stage ExecutionResult
  unfolding on_market
  settle_halted run_id run = do
    flattened ← on_market (rebuild print sha256 lib env store cfg)
    on_market (settle print sha256 lib env store cfg flattened)
    pure (record { run_id = run_id; status = run.status; advanced = false; outcomes = [] })

  unfoldable pub execute_stored : ℕ → StoredRun → Stage ExecutionResult
  unfolding settle_halted eligible execute_anchored_run
  execute_stored run_id run = if is_halted_run run then settle_halted run_id run else do
    book ← eligible print sha256 lib env store cfg run_id run
    if same run.status executed
        then pure (record { run_id = run_id; status = executed; advanced = false; outcomes = [] })
        else execute_anchored_run run_id book

  -- `execute_run`
  unfoldable pub execute_run : ℕ → Stage ExecutionResult
  unfolding ask_store execute_stored
  execute_run run_id = do
    found ← ask_store read_run (λ s. store.load_run s run_id)
    run ← lift (required not_eligible found)
    execute_stored run_id run
