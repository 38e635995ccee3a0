-- ===== src/Orchestration/ExecutionStage/Evidence.antt =====
-- What stands behind a run that is marked as executed.
use asymmetric_committee.Base.{
  ℕ, String, ◌≡◌, refl, Bool, true, false, Option, none, some, List, [], ◌∷◌, Result, ok, err,
  ◌>>=◌, Triple, Triple-lifted, Triple-given, Triple-bind, Triple-gets_from, Triple-modify, Ends,
  all, is_some,
}
use asymmetric_committee.Contracts.RunStatus.{anchored}
use asymmetric_committee.Contracts.Commitment.Canonical.{Printer}
use asymmetric_committee.Contracts.Commitment.{verify_material}
use asymmetric_committee.Evaluation.Anchoring.Hex.{Bytes}
use asymmetric_committee.Evaluation.Anchoring.{Library, TimestampFile}
use asymmetric_committee.Evaluation.Anchoring.Lowest.{BoundProof}
use asymmetric_committee.Execution.Gateway.{Error, ExecutionRecord, Env, World, M}
use asymmetric_committee.Execution.Leg.{ExecutionTarget, ExecutionOutcome}
use asymmetric_committee.Execution.Book.{execute_book}
use asymmetric_committee.Orchestration.Pipeline.Resume.{is_live}
use asymmetric_committee.Orchestration.ExecutionStage.{
  ExecutionError, StoredRun, CommittedBook, StoreCall, StageState, read_run, read_material,
  read_market, dead_letter, mark_executed, Store, StageConfig, Stage, ask_store, on_market,
  required, from_trading, demand, is_done, exposure_gate,
}
use asymmetric_committee.Orchestration.ExecutionStage.Run.{evidence_of, targets_of}
use asymmetric_committee.Risk.KillSwitch.{halted}

module _ (print : Printer) (sha256 : String → String) (lib : Library) (env : Env) (store : Store)
    (cfg : StageConfig) where
  -- The run was read as live and anchored.
  abbrev pub ReadAnchored : ℕ → Type 0
  ReadAnchored run_id =
      (s : StageState) × (r : StoredRun) × (store.load_run s run_id ≡ ok (some r))
      × (is_live r.mode ≡ true)
      × (r.status ≡ anchored)

  -- Its committed book was read, its commitment recomputed, and its proof bound to the digest.
  abbrev pub ReadBook : ℕ → CommittedBook → Type 0
  ReadBook run_id book =
      (s : StageState) × (sha : String) × (proof : Bytes) × (file : TimestampFile)
      × (store.load_commitment_material s run_id ≡ ok (some book))
      × (verify_material print sha256 book.stored.material ≡ ok sha)
      × (book.stored.ots_proof ≡ some proof)
      × BoundProof lib proof sha file

  -- These are the targets of the book.
  abbrev pub Planned : ℕ → CommittedBook → List ExecutionTarget → Type 0
  Planned run_id book targets =
      (s : StageState) × (s' : StageState) × (targets_of print sha256 lib env store cfg run_id book
          s
        ≡ (ok targets, s'))

  -- The executor returned outcomes for the targets, each complete and none blocked, and left the
  -- kill switch not engaged.
  abbrev pub Traded : List ExecutionTarget → Type 0
  Traded targets =
      (flattened : Bool) × (before : World) × (after : World) × (outcomes : List ExecutionOutcome)
      × (execute_book env cfg.settings (exposure_gate print sha256 lib env store cfg flattened)
            targets before
          ≡ (ok outcomes, after))
      × (halted after.kill_switch ≡ false)
      × (all is_done outcomes ≡ true)

  -- A stored execution was found for each.
  abbrev pub Stored : List ExecutionTarget → Type 0
  Stored targets =
      (before : World) × (after : World) × (found : List (Option ExecutionRecord)) × (evidence_of
          env targets before
        ≡ (ok found, after))
      × (all is_some found ≡ true)

  abbrev pub Executed : ℕ → Type 0
  Executed run_id =
      ReadAnchored run_id
      × ((book : CommittedBook) × ReadBook run_id book
          × ((targets : List ExecutionTarget) × Planned run_id book targets
              × Traded targets
              × Stored targets))

  abbrev pub AllExecuted : List StoreCall → Type 0
  AllExecuted [] = Unit
  AllExecuted (mark_executed run_id ∷ past) = Executed run_id × AllExecuted past
  AllExecuted (read_run ∷ past) = AllExecuted past
  AllExecuted (read_material ∷ past) = AllExecuted past
  AllExecuted (read_market ∷ past) = AllExecuted past
  AllExecuted (dead_letter ∷ past) = AllExecuted past

  abbrev pub Good : StageState → Type 0
  Good s = AllExecuted s.past

  abbrev pub Always : {A : Type 0} → Stage A → Type 0
  Always m = Triple Good m (λ _. Good) Good

  pub ask_store-then :
      {A B : Type 0} (c : StoreCall) (answer : StageState → Result ExecutionError A)
      (f : A → Stage B) (Q : B → StageState → Type 0)
      → ((past : List StoreCall) → AllExecuted past → AllExecuted (c ∷ past))
      → ((s : StageState) (a : A) → answer s ≡ ok a → Triple Good (f a) Q Good)
      → Triple Good (ask_store c answer >>= f) Q Good
  unfolding ask_store
  ask_store-then c answer f Q stays k =
      Triple-bind _ (λ a s. Good s × ((s' : StageState) × (answer s' ≡ ok a))) _ _
        (Triple-gets_from _ _ _ (λ s'.
          Triple-modify Good _ _ _ (λ s. stays s.past)
            (Triple-lifted _ _ (λ a e s h. (h, (s', e))) (λ s h. h))))
        (λ a. Triple-given _ _ _ (λ p. k p.0 a p.1))

  -- An action on the shared world asks the store nothing.
  pub on_market_run :
      {A : Type 0} (m : M A)
      → Triple Good
          (on_market m)
          (λ a s. Good s × ((w : World) × (w' : World) × (m w ≡ (ok a, w'))))
          Good
  unfolding on_market
  on_market_run {A = A} m = record { run = λ s h. go s h (m s.world) refl }
    where
      go :
          (s : StageState)
          → Good s
          → (r : Result Error A × World) → m s.world ≡ r
          → Ends
              (λ a s. Good s × ((w : World) × (w' : World) × (m w ≡ (ok a, w'))))
              Good
              (from_trading r.0, record s { world = r.1 })
      go s h (ok a, w') e = (h, (s.world, w', e))
      go s h (err x, w') e = h

  pub on_market-then :
      {A B : Type 0} (m : M A) (f : A → Stage B) (Q : B → StageState → Type 0)
      → ((w w' : World) (a : A) → m w ≡ (ok a, w') → Triple Good (f a) Q Good)
      → Triple Good (on_market m >>= f) Q Good
  on_market-then m f Q k =
      Triple-bind _ _ _ _ (on_market_run m) (λ a. Triple-given _ _ _ (λ p. k p.0 p.1 a p.2))

  pub required-some :
      {A : Type 0} (e : ExecutionError) (o : Option A) (a : A) → required e o ≡ ok a → o ≡ some a
  required-some e none a h = absurd (cc)
  required-some e (some b) a h = cc

  pub demand-true : (b : Bool) (e : ExecutionError) → demand b e ≡ ok tt → b ≡ true
  demand-true true e h = refl
  demand-true false e h = absurd (cc)

  -- how an action ended that returned
  pub returned :
      {A : Type 0} (m : Stage A)
      → Always m
      → Triple Good m
          (λ a s.
            Good s × ((before : StageState) × (after : StageState) × (m before ≡ (ok a, after))))
          Good
  returned {A = A} m keeps = record { run = λ s h. go s (m s) refl (keeps.run s h) }
    where
      go :
          (s : StageState) (r : Result ExecutionError A × StageState)
          → m s ≡ r
          → Ends (λ _. Good) Good r
          → Ends
              (λ a s'.
                Good s'
                × ((before : StageState) × (after : StageState) × (m before ≡ (ok a, after))))
              Good
              r
      go s (ok a, s') e h = (h, (s, s', e))
      go s (err x, s') e h = h
