-- ===== src/Evaluation/Scorable.antt =====
-- evaluation/scorable.py: admission of a run to scoring. What it calls is a parameter (`Sources`):
-- the read of the evidence, the recomputation of the commitment (contracts/commitment.py), the two
-- checks of a timestamp proof (evaluation/anchoring.py), the git remote and the clock. Digests,
-- proofs, commits and instants are numbers that are only compared; an instant without a zone is
-- none.
pub mod Admission
mod Tests
use asymmetric_committee.Base.{
  ℕ, String, Bool, true, false, not, ◌&&◌, ◌||◌, Option, none, some, List, [], ◌∷◌, Result, ok, err,
  and_then, if◌then◌else◌, ltb, leb, ◌==◌,
}
use asymmetric_committee.Contracts.RunStatus.{
  RunStatus, anchored, executed, scored, partial, member,
}

-- `RunMode`
pub data RunMode : Type 0 where
  live backtest ablation : RunMode

-- `Completeness`, of a ticket
pub data Completeness : Type 0 where
  complete halted : Completeness

-- `RefusalReason`, and the exceptions that are not refusals
pub data RefusalReason : Type 0 where
  run_missing no_commitment not_scorable_status halt_evidence_missing material_incomplete :
      RefusalReason
  commitment_mismatch anchor_missing anchor_invalid ots_not_confirmed : RefusalReason
  header_verification_failed git_unreachable anchor_timing evidence_unavailable : RefusalReason
  naive_clock : RefusalReason

-- The fields of `RunRecord` that are read; `halt_reason` tells whether the status reason begins
-- with `HALT_REASON_PREFIX`.
pub record Run : Type 0 where
  pub status : RunStatus
  pub mode : RunMode
  pub halt_reason : Bool

-- `DecisionCommitment`
pub record Commitment : Type 0 where
  pub sha256 : ℕ
  pub committed_at : ℕ

-- `CommitmentAnchor`
pub record Anchor : Type 0 where
  pub sha256 : ℕ
  pub ots_proof : Option ℕ
  pub git_commit : Option ℕ
  pub anchored_at : ℕ

-- `ScoringEvidence`: of the decisions, the book, the events and the defects only what is asked
pub record Evidence : Type 0 where
  pub run : Option Run
  pub commitment : Option Commitment
  pub has_snapshot : Bool
  pub anchor : Option Anchor
  pub has_events : Bool
  pub has_defects : Bool

-- `BitcoinConfirmation`
pub record Confirmation : Type 0 where
  pub height : ℕ
  pub block_time : ℕ

-- Why a check of a proof raises: the proof, or that a source could not be asked.
pub data ProofError : Type 0 where
  binding other : ProofError

pub record Sources : Type 0 where
  pub load : ℕ → Option Evidence
  pub verify_commitment : ℕ → Evidence → Option ℕ
  pub check_binding : ℕ → ℕ → Option Bool
  pub confirm_bitcoin : ℕ → ℕ → Result ProofError Confirmation
  pub is_reachable : ℕ → Option Bool
  pub clock : Option ℕ

-- `ScoringRequest`
pub record ScoringRequest : Type 0 where
  pub run_id : ℕ
  pub earliest_resolution_at : Option ℕ

-- `ScoringTicket`
pub record ScoringTicket : Type 0 where
  pub run_id : ℕ
  pub mode : RunMode
  pub completeness : Completeness
  pub commitment_sha256 : ℕ
  pub git_commit : ℕ
  pub bitcoin_height : ℕ
  pub bitcoin_block_time : ℕ
  pub requested_at : ℕ

abbrev pub Admitted : Type 0 → Type 0
Admitted = Result RefusalReason

-- `if not holds: raise ScoringRefusedError(reason)`
abbrev pub need : Bool → RefusalReason → Admitted Unit
need true reason = ok tt
need false reason = err reason

abbrev pub present : {A : Type 0} → Option A → RefusalReason → Admitted A
present none reason = err reason
present (some a) reason = ok a

-- `_COMPLETE_STATUSES`
abbrev pub complete_statuses : RunMode → List RunStatus
complete_statuses live = executed ∷ scored ∷ []
complete_statuses backtest = anchored ∷ scored ∷ []
complete_statuses ablation = anchored ∷ scored ∷ []

-- `_classify`
unfoldable pub classify : Run → Bool → Admitted Completeness
classify run has_events =
    if member run.status (complete_statuses run.mode)
    then ok complete
    else if member run.status (partial ∷ []) && run.halt_reason
    then (if has_events then ok halted else err halt_evidence_missing)
    else err not_scorable_status

-- The binding of the proof, and then that it is confirmed.
abbrev pub bound : Option Bool → Admitted Unit
bound none = err anchor_invalid
bound (some confirmed) = need confirmed ots_not_confirmed

abbrev pub confirmed_by : Result ProofError Confirmation → Admitted Confirmation
confirmed_by (ok c) = ok c
confirmed_by (err ProofError.binding) = err header_verification_failed
confirmed_by (err ProofError.other) = err evidence_unavailable

abbrev pub reached : Option Bool → Admitted Unit
reached none = err evidence_unavailable
reached (some r) = need r git_unreachable

-- The last check, of a live run only.
abbrev pub before_outcomes : RunMode → Option ℕ → ℕ → Admitted Unit
before_outcomes live none block_time = err anchor_timing
before_outcomes live (some earliest) block_time = need (ltb block_time earliest) anchor_timing
before_outcomes _ _ block_time = ok tt

-- `admit_run`
unfoldable pub admit_run : Sources → ScoringRequest → Admitted ScoringTicket
unfolding classify
admit_run src request =
    and_then (present (src.load request.run_id) evidence_unavailable) (λ evidence.
      and_then (present evidence.run run_missing) (λ run.
        and_then (present evidence.commitment no_commitment) (λ commitment.
          and_then (classify run evidence.has_events) (λ completeness.
            and_then (need (not evidence.has_defects && evidence.has_snapshot) material_incomplete)
              (λ _.
                and_then
                  (present (src.verify_commitment commitment.sha256 evidence) commitment_mismatch)
                  (λ digest. and_then (present evidence.anchor anchor_missing) (λ anchor.
                    and_then (present anchor.ots_proof anchor_missing) (λ proof.
                      and_then (present anchor.git_commit anchor_missing) (λ commit.
                        and_then (need (anchor.sha256 == digest) anchor_invalid) (λ _.
                          and_then (bound (src.check_binding proof digest)) (λ _.
                            and_then (confirmed_by (src.confirm_bitcoin proof digest))
                              (λ confirmation. and_then (reached (src.is_reachable commit)) (λ _.
                                and_then (present src.clock naive_clock) (λ requested_at.
                                  and_then
                                    (need
                                      (leb commitment.committed_at anchor.anchored_at
                                        && leb anchor.anchored_at requested_at)
                                      anchor_timing)
                                    (λ _.
                                      and_then
                                        (need (leb confirmation.block_time requested_at)
                                          anchor_timing)
                                        (λ _.
                                          and_then
                                            (before_outcomes run.mode request.earliest_resolution_at
                                              confirmation.block_time)
                                            (λ _. ok (record {
                                              run_id = request.run_id;
                                              mode = run.mode;
                                              completeness = completeness;
                                              commitment_sha256 = digest;
                                              git_commit = commit;
                                              bitcoin_height = confirmation.height;
                                              bitcoin_block_time = confirmation.block_time;
                                              requested_at = requested_at;
                                            }))))))))))))))))))

-- `run_scoring`, where the loader answers a value or raises
unfoldable pub run_scoring :
    {T : Type 0} → Sources → ScoringRequest → (ScoringTicket → Admitted T) → Admitted T
unfolding admit_run
run_scoring src request load_outcomes = and_then (admit_run src request) load_outcomes
