-- ===== src/Evaluation/Scorable/Admission.antt =====
-- What a ticket guarantees, and that no outcome is read without one.
use asymmetric_committee.Base.{
  ℕ, ◌≤◌, ◌<◌, ◌≡◌, refl, ap, subst, Bool, true, false, not, ◌&&◌, Option, none, some, [], ◌∷◌,
  arith, Result, ok, err, and_then-ok, IfOk, IfOk-and_then, leb, ◌==◌,
}
use asymmetric_committee.Contracts.RunStatus.{partial, member}
use asymmetric_committee.Evaluation.Scorable.{
  RunMode, live, backtest, ablation, Completeness, complete, halted, RefusalReason, Run, Commitment,
  Anchor, Evidence, Confirmation, ProofError, Sources, ScoringRequest, ScoringTicket, Admitted,
  need, present, complete_statuses, classify, bound, confirmed_by, reached, before_outcomes,
  admit_run, run_scoring, run_missing, no_commitment, material_incomplete, commitment_mismatch,
  anchor_missing, anchor_invalid, evidence_unavailable, naive_clock, anchor_timing,
}

-- The run has a complete status of its mode, or was halted with an event on record.
abbrev pub HasEnded : Run → Bool → Completeness → Type 0
HasEnded run has_events complete = member run.status (complete_statuses run.mode) ≡ true
HasEnded run has_events halted =
    (member run.status (partial ∷ []) ≡ true) × (run.halt_reason ≡ true) × (has_events ≡ true)

-- All that was established when the ticket was given.
pub record Admissible (src : Sources) (request : ScoringRequest) (t : ScoringTicket) : Type 0 where
  pub evidence : Evidence
  pub run : Run
  pub commitment : Commitment
  pub anchor : Anchor
  pub proof : ℕ
  pub loaded : src.load request.run_id ≡ some evidence
  pub of_run : (evidence.run ≡ some run) × (t.run_id ≡ request.run_id) × (t.mode ≡ run.mode)
  pub ended : HasEnded run evidence.has_events t.completeness
  pub material : (evidence.has_defects ≡ false) × (evidence.has_snapshot ≡ true)
  pub recomputed :
      (evidence.commitment ≡ some commitment)
      × (src.verify_commitment commitment.sha256 evidence ≡ some t.commitment_sha256)
  pub anchored :
      (evidence.anchor ≡ some anchor)
      × (anchor.ots_proof ≡ some proof)
      × (anchor.git_commit ≡ some t.git_commit)
      × (anchor.sha256 ≡ t.commitment_sha256)
  pub proved :
      (src.check_binding proof t.commitment_sha256 ≡ some true)
      × (src.confirm_bitcoin proof t.commitment_sha256
          ≡ ok (record { height = t.bitcoin_height; block_time = t.bitcoin_block_time }))
  pub on_remote : src.is_reachable t.git_commit ≡ some true
  pub in_order :
      (src.clock ≡ some t.requested_at)
      × (commitment.committed_at ≤ anchor.anchored_at)
      × (anchor.anchored_at ≤ t.requested_at)
      × (t.bitcoin_block_time ≤ t.requested_at)
  pub in_time :
      t.mode ≡ live
      → (earliest : ℕ) × (request.earliest_resolution_at ≡ some earliest)
        × (t.bitcoin_block_time < earliest)

classify-HasEnded :
    (run : Run) (has_events : Bool) (c : Completeness)
    → classify run has_events ≡ ok c
    → HasEnded run has_events c
unfolding classify
classify-HasEnded run has_events complete h = ground arith
classify-HasEnded run has_events halted h = ground arith

present-some :
    {A : Type 0} (o : Option A) (r : RefusalReason) (a : A) → present o r ≡ ok a → o ≡ some a
present-some none r a h = absurd (cc)
present-some (some x) r a h = ap (λ y. elim y [ ok z ↦ some z | err _ ↦ some x ]) h

need-true : (b : Bool) (r : RefusalReason) (u : Unit) → need b r ≡ ok u → b ≡ true
need-true b r u h = ground arith

bound-true : (o : Option Bool) (u : Unit) → bound o ≡ ok u → o ≡ some true
bound-true o u h = ground arith

reached-true : (o : Option Bool) (u : Unit) → reached o ≡ ok u → o ≡ some true
reached-true o u h = ground arith

confirmed_by-ok :
    (r : Result ProofError Confirmation) (c : Confirmation) → confirmed_by r ≡ ok c → r ≡ ok c
confirmed_by-ok (ok x) c h = ap (λ y. elim y [ ok z ↦ ok z | err _ ↦ ok x ]) h
confirmed_by-ok (err ProofError.binding) c h = absurd (cc)
confirmed_by-ok (err ProofError.other) c h = absurd (cc)

before_outcomes-live :
    (m : RunMode) (o : Option ℕ) (time : ℕ) (u : Unit)
    → before_outcomes m o time ≡ ok u
    → m ≡ live
    → (earliest : ℕ) × (o ≡ some earliest) × (time < earliest)
before_outcomes-live live none time u h e = absurd (cc)
before_outcomes-live live (some x) time u h e = (x, refl, ground arith)
before_outcomes-live backtest o time u h e = absurd (cc)
before_outcomes-live ablation o time u h e = absurd (cc)

admit_run-IfOk :
    (src : Sources) (request : ScoringRequest)
    → IfOk (Admissible src request) (admit_run src request)
unfolding admit_run
admit_run-IfOk src request =
    let Q = Admissible src request in
    IfOk-and_then Q (present (src.load request.run_id) evidence_unavailable) _ (λ evidence e₁.
      IfOk-and_then Q (present evidence.run run_missing) _ (λ run e₂.
        IfOk-and_then Q (present evidence.commitment no_commitment) _ (λ commitment e₃.
          IfOk-and_then Q (classify run evidence.has_events) _ (λ completeness e₄.
            IfOk-and_then Q
              (need (not evidence.has_defects && evidence.has_snapshot) material_incomplete) _
              (λ u₅ e₅.
                IfOk-and_then Q
                  (present (src.verify_commitment commitment.sha256 evidence) commitment_mismatch) _
                  (λ digest e₆.
                    IfOk-and_then Q (present evidence.anchor anchor_missing) _ (λ anchor e₇.
                      IfOk-and_then Q (present anchor.ots_proof anchor_missing) _ (λ proof e₈.
                        IfOk-and_then Q (present anchor.git_commit anchor_missing) _ (λ commit e₉.
                          IfOk-and_then Q (need (anchor.sha256 == digest) anchor_invalid) _
                            (λ u₁₀ e₁₀.
                              IfOk-and_then Q (bound (src.check_binding proof digest)) _ (λ u₁₁ e₁₁.
                                IfOk-and_then Q (confirmed_by (src.confirm_bitcoin proof digest)) _
                                  (λ confirmation e₁₂.
                                    IfOk-and_then Q (reached (src.is_reachable commit)) _
                                      (λ u₁₃ e₁₃.
                                        IfOk-and_then Q (present src.clock naive_clock) _
                                          (λ requested_at e₁₄.
                                            IfOk-and_then Q
                                              (need
                                                (leb commitment.committed_at anchor.anchored_at
                                                  && leb anchor.anchored_at requested_at)
                                                anchor_timing)
                                              _
                                              (λ u₁₅ e₁₅.
                                                IfOk-and_then Q
                                                  (need (leb confirmation.block_time requested_at)
                                                    anchor_timing)
                                                  _
                                                  (λ u₁₆ e₁₆.
                                                    IfOk-and_then Q
                                                      (before_outcomes run.mode
                                                        request.earliest_resolution_at
                                                        confirmation.block_time)
                                                      _
                                                      (λ u₁₇ e₁₇. record {
                                                        evidence = evidence;
                                                        run = run;
                                                        commitment = commitment;
                                                        anchor = anchor;
                                                        proof = proof;
                                                        loaded = present-some _ _ evidence e₁;
                                                        of_run =
                                                            (present-some _ _ run e₂, refl, refl);
                                                        ended =
                                                            classify-HasEnded run
                                                            evidence.has_events completeness e₄;
                                                        material =
                                                            ground (arith, need-true _ _ u₅ e₅);
                                                        recomputed = (
                                                          present-some _ _ commitment e₃,
                                                          present-some _ _ digest e₆,
                                                        );
                                                        anchored = (
                                                          present-some _ _ anchor e₇,
                                                          present-some _ _ proof e₈,
                                                          present-some _ _ commit e₉,
                                                          ground (arith, need-true _ _ u₁₀ e₁₀),
                                                        );
                                                        proved = (
                                                          bound-true _ u₁₁ e₁₁,
                                                          confirmed_by-ok _ confirmation e₁₂,
                                                        );
                                                        on_remote = reached-true _ u₁₃ e₁₃;
                                                        in_order = (
                                                          present-some _ _ requested_at e₁₄,
                                                          ground (arith, need-true _ _ u₁₅ e₁₅),
                                                          ground (arith, need-true _ _ u₁₅ e₁₅),
                                                          ground (arith, need-true _ _ u₁₆ e₁₆),
                                                        );
                                                        in_time =
                                                            before_outcomes-live run.mode _ _ u₁₇
                                                            e₁₇;
                                                      })))))))))))))))))

-- A run is admitted only with evidence for everything: its status, its complete material, the
-- commitment recomputed from it, an anchor of that digest with a confirmed proof and a commit that
-- the remote has, the instants in order, and, for a live run, a block before the first outcome.
pub admit_run-Admissible :
    (src : Sources) (request : ScoringRequest) (t : ScoringTicket)
    → admit_run src request ≡ ok t
    → Admissible src request t
admit_run-Admissible src request t h =
    subst (IfOk (Admissible src request)) h (admit_run-IfOk src request)

-- Scoring answers only what the loader answers for a ticket that was admitted.
pub run_scoring-Admissible :
    {T : Type 0} (src : Sources) (request : ScoringRequest)
    (load_outcomes : ScoringTicket → Admitted T) (v : T)
    → run_scoring src request load_outcomes ≡ ok v
    → (t : ScoringTicket) × Admissible src request t × (load_outcomes t ≡ ok v)
unfolding run_scoring
run_scoring-Admissible src request load_outcomes v h =
    let (t, admitted, loaded) = and_then-ok (admit_run src request) load_outcomes v h in
    (t, admit_run-Admissible src request t admitted, loaded)
