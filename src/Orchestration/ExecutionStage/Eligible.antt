-- ===== src/Orchestration/ExecutionStage/Eligible.antt =====
-- What `_eligible` has checked of a book that it returns.
use asymmetric_committee.Base.{
  ℕ, String, ◌≡◌, refl, ap, ◌∙◌, true, Option, none, some, Result, ok, err, Triple, Triple-pure,
  Triple-raise, Triple-lifted, Triple-given, Triple-bind, Triple-gets_from, Triple-lift,
  Triple-modify, Triple-attempt,
}
use asymmetric_committee.Contracts.RunStatus.{member}
use asymmetric_committee.Contracts.Commitment.Canonical.{Printer}
use asymmetric_committee.Contracts.Commitment.{IntegrityError, verify_material}
use asymmetric_committee.Evaluation.Anchoring.Hex.{Bytes}
use asymmetric_committee.Evaluation.Anchoring.{
  Library, AnchorError, ProofStatus, TimestampFile, check_binding,
}
use asymmetric_committee.Evaluation.Anchoring.Lowest.{BoundProof, check_binding-BoundProof}
use asymmetric_committee.Execution.Gateway.{Env}
use asymmetric_committee.Orchestration.AnchorStage.{StoredMaterial}
use asymmetric_committee.Orchestration.Pipeline.Resume.{is_live}
use asymmetric_committee.Orchestration.ExecutionStage.{
  ExecutionError, evidence_missing, not_eligible, store_error, proof_error, plan, trading,
  integrity, StoredRun, CommittedBook, StageState, read_material, Store, StageConfig, Stage,
  ask_store, required, demand, executable, binding_result, check_anchor, check_digest,
  check_material, report, after_integrity, eligible,
}
use asymmetric_committee.Orchestration.ExecutionStage.Evidence.{
  ReadBook, Good, Always, ask_store-then, required-some, demand-true,
}

module _ (print : Printer) (sha256 : String → String) (lib : Library) (env : Env) (store : Store)
    (cfg : StageConfig) where
  abbrev Keeps : {A : Type 0} → Stage A → Type 0
  Keeps = Always print sha256 lib env store cfg

  binding_result-ok :
      (r : Result AnchorError ProofStatus)
      → binding_result print sha256 lib env store cfg r ≡ ok tt
      → (status : ProofStatus) × (r ≡ ok status)
  binding_result-ok (ok status) h = (status, refl)
  binding_result-ok (err e) h = absurd (cc)

  check_anchor-bound :
      (sha : String) (o : Option Bytes) (commit : Option ℕ)
      → check_anchor print sha256 lib env store cfg sha o commit ≡ ok tt
      → (proof : Bytes) × (file : TimestampFile) × (o ≡ some proof) × BoundProof lib proof sha file
  check_anchor-bound sha none commit h = absurd (cc)
  check_anchor-bound sha (some proof) none h = absurd (cc)
  check_anchor-bound sha (some proof) (some commit) h =
      let (status, bound_) = binding_result-ok (check_binding lib proof sha) h in
      let (file, evidence) = check_binding-BoundProof lib proof sha status bound_ in
      (proof, file, refl, evidence)

  check_digest-Checked :
      (m : StoredMaterial) (r : Result IntegrityError String)
      → check_digest print sha256 lib env store cfg m r ≡ ok tt
      → (sha : String) × (proof : Bytes) × (file : TimestampFile) × (r ≡ ok sha)
        × (m.ots_proof ≡ some proof)
        × BoundProof lib proof sha file
  check_digest-Checked m (err e) h = absurd (cc)
  check_digest-Checked m (ok sha) h =
      let (proof, file, found, evidence) = check_anchor-bound sha m.ots_proof m.git_commit h in
      (sha, proof, file, refl, found, evidence)

  pub report-Keeps : (run_id : ℕ) → Keeps (report print sha256 lib env store cfg run_id)
  unfolding report ask_store
  report-Keeps run_id =
      Triple-attempt _ (Good print sha256 lib env store cfg) _ _
        (Triple-gets_from _ _ _ (λ s'.
          Triple-modify (Good print sha256 lib env store cfg) _ _ _ (λ s h. h)
            (Triple-lifted _ _ (λ a e s h. h) (λ s h. h))))
        (λ e. Triple-pure _ tt (λ s h. h))

  after_integrity-Keeps :
      {A : Type 0} (run_id : ℕ) (Q : A → StageState → Type 0) (e : ExecutionError)
      → Triple
          (Good print sha256 lib env store cfg)
          (after_integrity print sha256 lib env store cfg run_id e)
          Q
          (Good print sha256 lib env store cfg)
  after_integrity-Keeps run_id Q integrity =
      Triple-bind _ (λ _. Good print sha256 lib env store cfg) _ _ (report-Keeps run_id)
        (λ _. Triple-raise _ _ (λ s h. h))
  after_integrity-Keeps run_id Q not_eligible = Triple-raise _ _ (λ s h. h)
  after_integrity-Keeps run_id Q evidence_missing = Triple-raise _ _ (λ s h. h)
  after_integrity-Keeps run_id Q store_error = Triple-raise _ _ (λ s h. h)
  after_integrity-Keeps run_id Q proof_error = Triple-raise _ _ (λ s h. h)
  after_integrity-Keeps run_id Q (plan p) = Triple-raise _ _ (λ s h. h)
  after_integrity-Keeps run_id Q (trading p) = Triple-raise _ _ (λ s h. h)

  evidence_for :
      (run_id : ℕ) (run : StoredRun) (book : CommittedBook) (s : StageState)
      (found : Option CommittedBook)
      → demand (is_live run.mode) not_eligible ≡ ok tt
      → demand (member run.status executable) not_eligible ≡ ok tt
      → store.load_commitment_material s run_id ≡ ok found
      → required not_eligible found ≡ ok book
      → check_material print sha256 lib env store cfg book.stored ≡ ok tt
      → (is_live run.mode ≡ true)
        × (member run.status executable ≡ true)
        × ReadBook print sha256 lib env store cfg run_id book
  evidence_for run_id run book s found live status read is_there checked =
      let (sha, proof, file, recomputed, proven, evidence) =
        check_digest-Checked book.stored (verify_material print sha256 book.stored.material)
          checked in
      (
        demand-true print sha256 lib env store cfg _ _ live,
        demand-true print sha256 lib env store cfg _ _ status,
        (
          s,
          sha,
          proof,
          file,
          read
              ∙ ap ok
                  (required-some print sha256 lib env store cfg not_eligible found book is_there),
          recomputed,
          proven,
          evidence,
        ),
      )

  pub eligible-Read :
      (run_id : ℕ) (run : StoredRun)
      → Triple
          (Good print sha256 lib env store cfg)
          (eligible print sha256 lib env store cfg run_id run)
          (λ book s.
            Good print sha256 lib env store cfg s
            × ((is_live run.mode ≡ true)
                × (member run.status executable ≡ true)
                × ReadBook print sha256 lib env store cfg run_id book))
          (Good print sha256 lib env store cfg)
  unfolding eligible
  eligible-Read run_id run =
      Triple-lift _ _ _ (λ s h. h)
        (λ _ live.
          Triple-lift _ _ _ (λ s h. h)
            (λ _ status.
              ask_store-then print sha256 lib env store cfg read_material _ _ _ (λ past h. h)
                (λ s found e.
                  Triple-lift _ _ _ (λ s h. h)
                    (λ book b.
                      Triple-bind _
                        (λ _ s'.
                          Good print sha256 lib env store cfg s'
                          × (check_material print sha256 lib env store cfg book.stored ≡ ok tt))
                        _ _
                        (Triple-attempt _ (Good print sha256 lib env store cfg) _ _
                          (Triple-lifted _ _ (λ _ c s h. (h, c)) (λ s h. h))
                          (after_integrity-Keeps run_id _))
                        (λ _. Triple-given _ _ _ (λ c.
                          Triple-lift _ _ _ (λ s h. h)
                            (λ _ _.
                              Triple-lift _ _ _ (λ s h. h)
                                (λ _ _. Triple-pure _ book (λ s' h. (
                                  h,
                                  evidence_for run_id run book s found live status e b c,
                                ))))))))))
