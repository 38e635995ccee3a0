-- ===== src/Orchestration/ExecutionStage/Marked.antt =====
-- A run is marked as executed only with evidence for everything.
use asymmetric_committee.Base.{
  ℕ, String, ◌≡◌, refl, ap, ◌∙◌, Bool, true, false, not, some, List, [], Result, ok, err, continue,
  gets, pure, ◌>>=◌, Triple-pure, Triple-raise, Triple-if, Triple-given, Triple-bind,
  Triple-gets_from, Triple-lift, Triple-attempt, Ends, all, not-false, ==→eq, Bool-cases, inl, inr,
}
use asymmetric_committee.Contracts.RunStatus.{RunStatus, same, member, anchored, executed}
use asymmetric_committee.Contracts.RunStatus.Paths.{position-injective}
use asymmetric_committee.Contracts.Commitment.Canonical.{Printer}
use asymmetric_committee.Evaluation.Anchoring.{Library}
use asymmetric_committee.Execution.Gateway.{Error, Env, World}
use asymmetric_committee.Execution.Leg.{ExecutionTarget, ExecutionOutcome}
use asymmetric_committee.Execution.Book.{execute_book}
use asymmetric_committee.Orchestration.ExecutionStage.{
  ExecutionError, not_eligible, StoredRun, CommittedBook, StageState, read_run, read_market,
  mark_executed, Store, StageConfig, Stage, executable, is_halted_run, is_done, exposure_gate,
}
use asymmetric_committee.Orchestration.ExecutionStage.Run.{
  targets_of, stopped, conclude_run, after_orders, send_orders, trade_book, execute_anchored_run,
  settle_halted, execute_stored, execute_run,
}
use asymmetric_committee.Risk.KillSwitch.{halted}
use asymmetric_committee.Orchestration.ExecutionStage.Evidence.{
  ReadAnchored, ReadBook, Traded, AllExecuted, Good, Always, ask_store-then, on_market_run,
  on_market-then, required-some, demand-true, returned, Planned,
}
use asymmetric_committee.Orchestration.ExecutionStage.Eligible.{report-Keeps, eligible-Read}

module _ (print : Printer) (sha256 : String → String) (lib : Library) (env : Env) (store : Store)
    (cfg : StageConfig) where
  abbrev Keeps : {A : Type 0} → Stage A → Type 0
  Keeps = Always print sha256 lib env store cfg

  stopped-Keeps :
      (run_id : ℕ) (outcomes : List ExecutionOutcome)
      → Keeps (stopped print sha256 lib env store cfg run_id outcomes)
  unfolding stopped
  stopped-Keeps run_id outcomes =
      ask_store-then print sha256 lib env store cfg read_run _ _ _ (λ past h. h)
        (λ s now e. Triple-pure _ _ (λ s h. h))

  anchored_only :
      (status : RunStatus)
      → member status executable ≡ true
      → same status executed ≡ false
      → status ≡ anchored
  anchored_only status m n = elim (Bool-cases (same status anchored)) [
    | inl e ↦ position-injective status anchored (==→eq _ _ e)
    | inr e ↦ absurd (cc (rw (e, n) at m))
  ]

  -- With the evidence for a run the end of it may mark it.
  conclude_run-Keeps :
      (run_id : ℕ) (targets : List ExecutionTarget) (outcomes : List ExecutionOutcome)
      → ReadAnchored print sha256 lib env store cfg run_id
      → (book : CommittedBook) × ReadBook print sha256 lib env store cfg run_id book
        × Planned print sha256 lib env store cfg run_id book targets
      → Traded print sha256 lib env store cfg targets
      → Keeps (conclude_run print sha256 lib env store cfg run_id targets outcomes)
  unfolding conclude_run
  conclude_run-Keeps run_id targets outcomes run book traded =
      on_market-then print sha256 lib env store cfg _ _ _ (λ w w' found e.
        Triple-lift _ _ _ (λ s h. h)
          (λ _ all_there. on_market-then print sha256 lib env store cfg _ _ _ (λ _ _ at _.
            ask_store-then print sha256 lib env store cfg (mark_executed run_id) _ _ _
              (λ past h. (
                (
                  run,
                  (
                    book.0,
                    book.1,
                    (
                      targets,
                      book.2,
                      traded,
                      (w, w', found, e, demand-true print sha256 lib env store cfg _ _ all_there),
                    ),
                  ),
                ),
                h,
              ))
              (λ s advanced _. Triple-pure _ _ (λ s h. h)))))

  after_orders-Keeps :
      (run_id : ℕ) (targets : List ExecutionTarget) (outcomes : List ExecutionOutcome)
      (is_halted : Bool)
      → ReadAnchored print sha256 lib env store cfg run_id
      → (book : CommittedBook) × ReadBook print sha256 lib env store cfg run_id book
        × Planned print sha256 lib env store cfg run_id book targets
      → (is_halted ≡ false
          → all is_done outcomes ≡ true
          → Traded print sha256 lib env store cfg targets)
      → Keeps (after_orders print sha256 lib env store cfg run_id targets outcomes is_halted)
  unfolding after_orders
  after_orders-Keeps run_id targets outcomes is_halted run book traded =
      Triple-if _ is_halted _ _ (λ _. stopped-Keeps run_id outcomes)
        (λ calm.
          Triple-if _ (not (all is_done outcomes)) _ _ (λ _. Triple-pure _ _ (λ s h. h))
            (λ done.
              conclude_run-Keeps run_id targets outcomes run book (traded calm (not-false _ done))))

  -- What the orders answered, of the executor and of the switch that it left
  send_orders-Traded :
      (flattened : Bool) (targets : List ExecutionTarget) (outcomes : List ExecutionOutcome)
      (is_halted : Bool) (w w' : World)
      → send_orders print sha256 lib env store cfg flattened targets w
        ≡ (ok (outcomes, is_halted), w')
      → is_halted ≡ false
      → all is_done outcomes ≡ true
      → Traded print sha256 lib env store cfg targets
  unfolding send_orders ◌>>=◌ gets pure
  send_orders-Traded flattened targets outcomes is_halted w w' h calm done =
      go
        (execute_book env cfg.settings (exposure_gate print sha256 lib env store cfg flattened)
          targets w)
        refl h
    where
      go :
          (r : Result Error (List ExecutionOutcome) × World)
          → execute_book env cfg.settings
              (exposure_gate print sha256 lib env store cfg flattened)
              targets
              w
            ≡ r
          → continue {B = List ExecutionOutcome × Bool} r.0
              (λ os. gets (λ v. v.kill_switch) >>= λ ks. pure (os, halted ks))
              r.1
            ≡ (ok (outcomes, is_halted), w')
          → Traded print sha256 lib env store cfg targets
      go (ok os, v) e k =
          let same_outcomes : os ≡ outcomes = cc (k) in
          let same_switch : halted v.kill_switch ≡ is_halted = cc (k) in
          (flattened, w, v, os, e, same_switch ∙ calm, ap (all is_done) same_outcomes ∙ done)
      go (err x, v) e k = absurd (cc)

  targets_of-Keeps :
      (run_id : ℕ) (book : CommittedBook)
      → Keeps (targets_of print sha256 lib env store cfg run_id book)
  unfolding targets_of
  targets_of-Keeps run_id book =
      ask_store-then print sha256 lib env store cfg read_market _ _ _ (λ past h. h)
        (λ _ view _. on_market-then print sha256 lib env store cfg _ _ _ (λ _ _ existing _.
          on_market-then print sha256 lib env store cfg _ _ _ (λ _ _ equity _.
            on_market-then print sha256 lib env store cfg _ _ _ (λ _ _ held _.
              Triple-lift _ _ _ (λ s h. h) (λ fresh _. Triple-pure _ _ (λ s h. h))))))

  trade_book-Keeps :
      (run_id : ℕ) (flattened : Bool) (book : CommittedBook)
      → ReadAnchored print sha256 lib env store cfg run_id
      → ReadBook print sha256 lib env store cfg run_id book
      → Keeps (trade_book print sha256 lib env store cfg run_id flattened book)
  unfolding trade_book targets_of
  trade_book-Keeps run_id flattened book run evidence =
      Triple-bind _ _ _ _ (returned print sha256 lib env store cfg _ (targets_of-Keeps run_id book))
        (λ targets. Triple-given _ _ _ (λ from_book.
          Triple-bind _
            (λ p s.
              Good print sha256 lib env store cfg s
              × ((w : World) × (w' : World) × (send_orders print sha256 lib env store cfg flattened
                      targets w
                    ≡ (ok p, w'))))
            _ _
            (Triple-attempt _ (Good print sha256 lib env store cfg) _ _
              (on_market_run print sha256 lib env store cfg
                (send_orders print sha256 lib env store cfg flattened targets))
              (λ e.
                Triple-bind _ (λ _. Good print sha256 lib env store cfg) _ _
                  (report-Keeps print sha256 lib env store cfg run_id)
                  (λ _. Triple-raise _ _ (λ s h. h))))
            (λ p. Triple-given _ _ _ (λ (w, w', sent).
              after_orders-Keeps run_id targets p.0 p.1 run (book, evidence, from_book)
                (send_orders-Traded flattened targets p.0 p.1 w w' sent)))))

  execute_anchored_run-Keeps :
      (run_id : ℕ) (book : CommittedBook)
      → ReadAnchored print sha256 lib env store cfg run_id
      → ReadBook print sha256 lib env store cfg run_id book
      → Keeps (execute_anchored_run print sha256 lib env store cfg run_id book)
  unfolding execute_anchored_run
  execute_anchored_run-Keeps run_id book run evidence =
      on_market-then print sha256 lib env store cfg _ _ _ (λ _ _ flattened _.
        on_market-then print sha256 lib env store cfg _ _ _ (λ _ _ _ _. Triple-gets_from _ _ _ (λ s.
          Triple-if _ (halted s.world.kill_switch) _ _ (λ _. stopped-Keeps run_id [])
            (λ _. trade_book-Keeps run_id flattened book run evidence))))

  settle_halted-Keeps :
      (run_id : ℕ) (run : StoredRun)
      → Keeps (settle_halted print sha256 lib env store cfg run_id run)
  unfolding settle_halted
  settle_halted-Keeps run_id run =
      on_market-then print sha256 lib env store cfg _ _ _ (λ _ _ flattened _.
        on_market-then print sha256 lib env store cfg _ _ _ (λ _ _ _ _. Triple-pure _ _ (λ s h. h)))

  execute_stored-Keeps :
      (run_id : ℕ) (run : StoredRun)
      → (s : StageState) × (store.load_run s run_id ≡ ok (some run))
      → Keeps (execute_stored print sha256 lib env store cfg run_id run)
  unfolding execute_stored
  execute_stored-Keeps run_id run (s, loaded) =
      Triple-if _ (is_halted_run run) _ _ (λ _. settle_halted-Keeps run_id run)
        (λ _. Triple-bind _ _ _ _ (eligible-Read print sha256 lib env store cfg run_id run) (λ book.
          Triple-given _ _ _ (λ (live, status, evidence).
            Triple-if _ (same run.status executed) _ _ (λ _. Triple-pure _ _ (λ s h. h))
              (λ fresh.
                execute_anchored_run-Keeps run_id book
                  (s, run, loaded, live, anchored_only run.status status fresh) evidence))))

  execute_run-Keeps : (run_id : ℕ) → Keeps (execute_run print sha256 lib env store cfg run_id)
  unfolding execute_run
  execute_run-Keeps run_id =
      ask_store-then print sha256 lib env store cfg read_run _ _ _ (λ past h. h)
        (λ s found e.
          Triple-lift _ _ _ (λ s h. h)
            (λ run there. execute_stored-Keeps run_id run (
              s,
              e ∙ ap ok (required-some print sha256 lib env store cfg not_eligible found run there),
            )))

  always :
      {A : Type 0} (r : Result ExecutionError A × StageState)
      → Ends (λ _. Good print sha256 lib env store cfg) (Good print sha256 lib env store cfg) r
      → Good print sha256 lib env store cfg r.1
  always (ok a, s) h = h
  always (err e, s) h = h

  -- Whether the stage returns or raises, and whatever the broker and the store answer, it marks a
  -- run as executed only when the run was read as live and anchored; a book was read for it whose
  -- commitment was recomputed from the rows and whose proof is bound to the digest; the executor
  -- returned for the targets of that book with each outcome complete, none blocked, and the switch not engaged;
  -- and a stored execution was found for every target.
  pub execute_run-AllExecuted :
      (run_id : ℕ) (s : StageState)
      → AllExecuted print sha256 lib env store cfg s.past
      → AllExecuted print sha256 lib env store cfg
          (execute_run print sha256 lib env store cfg run_id s).1.past
  execute_run-AllExecuted run_id s h =
      always (execute_run print sha256 lib env store cfg run_id s)
        ((execute_run-Keeps run_id).run s h)
