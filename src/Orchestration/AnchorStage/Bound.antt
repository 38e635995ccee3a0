-- ===== src/Orchestration/AnchorStage/Bound.antt =====
-- What is marked as anchored was verified, bound and found on the remote.
use asymmetric_committee.Base.{
  ℕ, String, ◌≡◌, refl, sym, ap, ◌∙◌, Bool, true, false, not, Option, none, some, [], ◌∷◌, Result,
  ok, err, ◌>>=◌, if◌then◌else◌, Triple, Triple-pure, Triple-raise, Triple-if, Triple-lifted,
  Triple-given, Triple-bind, Triple-gets_from, Triple-lift, Triple-modify, Triple-attempt, Ends,
  not-false, ==→eq,
}
use asymmetric_committee.Contracts.RunStatus.{RunStatus, same, member, committed}
use asymmetric_committee.Contracts.RunStatus.Paths.{position-injective}
use asymmetric_committee.Contracts.Commitment.Canonical.{Printer}
use asymmetric_committee.Contracts.Commitment.{CommitmentMaterial, IntegrityError, verify_material}
use asymmetric_committee.Contracts.Commitment.Verified.{verify_material_iff}
use asymmetric_committee.Evaluation.Anchoring.Hex.{Bytes}
use asymmetric_committee.Evaluation.Anchoring.{Library, AnchorError, TimestampFile}
use asymmetric_committee.Evaluation.Anchoring.Lowest.{BoundProof, check_binding-BoundProof}
use asymmetric_committee.Orchestration.AnchorStage.{
  StageError, StoredMaterial, CommitmentAnchor, StageEvent, read_run, read_material, stamped,
  pushed, asked_remote, read_clock, dead_letter, marked, Past, Parts, Stage, ask_part, needed,
  from_anchoring, anchoring, anchored_or_later, intact, dead_letter_for, after_mismatch, verified,
  replay, proof_for, anchor_committed, anchor_by_status, anchor_run,
}

module _ (print : Printer) (sha256 : String → String) (lib : Library) (parts : Parts) where
  -- The material of the run was read and its commitment recomputed.
  abbrev pub VerifiedFor : ℕ → String → Type 0
  VerifiedFor run_id sha =
      (past : Past) × (m : StoredMaterial) × (parts.load_commitment_material past run_id
        ≡ ok (some m))
      × (verify_material print sha256 m.material ≡ ok sha)

  -- What stands behind an anchor
  abbrev pub Justified : CommitmentAnchor → Type 0
  Justified a =
      ((past : Past) × (parts.load_run past a.run_id ≡ some committed))
      × VerifiedFor a.run_id a.sha256
      × ((file : TimestampFile) × BoundProof lib a.ots_proof a.sha256 file)
      × ((past : Past) × (parts.is_reachable past a.git_commit ≡ ok true))

  abbrev pub AllJustified : Past → Type 0
  AllJustified [] = Unit
  AllJustified (marked a ∷ past) = Justified a × AllJustified past
  AllJustified (read_run ∷ past) = AllJustified past
  AllJustified (read_material ∷ past) = AllJustified past
  AllJustified (stamped ∷ past) = AllJustified past
  AllJustified (pushed ∷ past) = AllJustified past
  AllJustified (asked_remote ∷ past) = AllJustified past
  AllJustified (read_clock ∷ past) = AllJustified past
  AllJustified (dead_letter ∷ past) = AllJustified past

  abbrev Always : {A : Type 0} → Stage A → Type 0
  Always m = Triple AllJustified m (λ _. AllJustified) AllJustified

  -- After a part has answered, what it answered is known.
  ask_part-then :
      {A B : Type 0} (e : StageEvent) (answer : Past → Result StageError A) (f : A → Stage B)
      (Q : B → Past → Type 0)
      → ((past : Past) → AllJustified past → AllJustified (e ∷ past))
      → ((past : Past) (a : A) → answer past ≡ ok a → Triple AllJustified (f a) Q AllJustified)
      → Triple AllJustified (ask_part e answer >>= f) Q AllJustified
  unfolding ask_part
  ask_part-then e answer f Q stays k =
      Triple-bind _ (λ a s. AllJustified s × ((past : Past) × (answer past ≡ ok a))) _ _
        (Triple-gets_from _ _ _ (λ past.
          Triple-modify AllJustified _ _ _ stays
            (Triple-lifted _ _ (λ a e s h. (h, (past, e))) (λ s h. h))))
        (λ a. Triple-given _ _ _ (λ p. k p.0 a p.1))

  needed-some :
      {A : Type 0} (o : Option A) (e : StageError) (a : A) → needed o e ≡ ok a → o ≡ some a
  needed-some none e a h = absurd (cc)
  needed-some (some b) e a h = cc

  from_anchoring-ok :
      {A : Type 0} (r : Result AnchorError A) (a : A) → from_anchoring r ≡ ok a → r ≡ ok a
  from_anchoring-ok (ok b) a h = cc
  from_anchoring-ok (err e) a h = absurd (cc)

  intact-ok :
      (m : CommitmentMaterial) (sha : String)
      → intact print sha256 lib parts m ≡ ok sha
      → verify_material print sha256 m ≡ ok sha
  intact-ok m sha h = go (verify_material print sha256 m) h
    where
      go :
          (r : Result IntegrityError String)
          → (elim r as (λ _. Result StageError String) [
            | ok digest ↦ ok digest
            | err e ↦ err StageError.integrity
          ])
            ≡ ok sha
          → r ≡ ok sha
      go (ok d) k = cc
      go (err e) k = absurd (cc)

  dead_letter_for-Always : (run_id : ℕ) → Always (dead_letter_for print sha256 lib parts run_id)
  unfolding dead_letter_for ask_part
  dead_letter_for-Always run_id =
      Triple-attempt _ AllJustified _ _
        (Triple-gets_from _ _ _ (λ past.
          Triple-modify AllJustified _ _ _ (λ s h. h)
            (Triple-lifted _ _ (λ a e s h. h) (λ s h. h))))
        (λ e. Triple-pure _ tt (λ s h. h))

  -- The material that `_verified` returns
  abbrev Read : ℕ → StoredMaterial → Type 0
  Read run_id m =
      (sha : String) × (past : Past) × (parts.load_commitment_material past run_id ≡ ok (some m))
      × (verify_material print sha256 m.material ≡ ok sha)

  after_mismatch-Always :
      (run_id : ℕ) (Q : StoredMaterial → Past → Type 0) (e : StageError)
      → Triple AllJustified (after_mismatch print sha256 lib parts run_id e) Q AllJustified
  after_mismatch-Always run_id Q StageError.integrity =
      Triple-bind _ (λ _. AllJustified) _ _ (dead_letter_for-Always run_id)
        (λ _. Triple-raise _ _ (λ s h. h))
  after_mismatch-Always run_id Q StageError.not_eligible = Triple-raise _ _ (λ s h. h)
  after_mismatch-Always run_id Q StageError.store_error = Triple-raise _ _ (λ s h. h)
  after_mismatch-Always run_id Q (anchoring e) = Triple-raise _ _ (λ s h. h)

  verified-Read :
      (run_id : ℕ)
      → Triple AllJustified
          (verified print sha256 lib parts run_id)
          (λ m s. AllJustified s × Read run_id m)
          AllJustified
  unfolding verified
  verified-Read run_id =
      Triple-attempt _ AllJustified _ _
        (ask_part-then read_material _ _ _ (λ past h. h)
          (λ past found e.
            Triple-lift _ _ _ (λ s h. h)
              (λ m q.
                Triple-lift _ _ _ (λ s h. h)
                  (λ sha v. Triple-pure _ m (λ s h. (
                    h,
                    (
                      sha,
                      past,
                      e ∙ ap ok (needed-some found StageError.not_eligible m q),
                      intact-ok m.material sha v,
                    ),
                  ))))))
        (after_mismatch-Always run_id _)

  Read-VerifiedFor :
      (run_id : ℕ) (m : StoredMaterial)
      → Read run_id m
      → VerifiedFor run_id m.material.stored_sha256
  Read-VerifiedFor run_id m (sha, past, found, v) =
      let same_digest : m.material.stored_sha256 ≡ sha =
        ((verify_material_iff print sha256 m.material sha).0 v).1 in
      (past, m, found, v ∙ ap ok (sym same_digest))

  proof_for-then :
      {B : Type 0} (sha : String) (stored : Option Bytes) (f : Bytes → Stage B)
      (Q : B → Past → Type 0)
      → ((proof : Bytes) → Triple AllJustified (f proof) Q AllJustified)
      → Triple AllJustified (proof_for print sha256 lib parts sha stored >>= f) Q AllJustified
  proof_for-then sha (some proof) f Q k =
      Triple-bind _ (λ _. AllJustified) _ _ (Triple-pure _ proof (λ s h. h)) k
  proof_for-then sha none f Q k =
      ask_part-then stamped _ _ _ (λ past h. h) (λ past proof _. k proof)

  reachable_or :
      (reachable : Bool)
      → ◌≡◌ {A = Result StageError Unit}
          (if reachable then ok tt else err (anchoring AnchorError.binding))
          (ok tt)
      → reachable ≡ true
  reachable_or true h = refl
  reachable_or false h = absurd (cc)

  anchor_committed-Always :
      (run_id : ℕ) (m : StoredMaterial)
      → (past : Past) × (parts.load_run past run_id ≡ some committed)
      → Read run_id m
      → Always (anchor_committed print sha256 lib parts run_id m)
  unfolding anchor_committed
  anchor_committed-Always run_id m was_committed read = proof_for-then _ _ _ _ (λ proof.
      Triple-lift _ _ _ (λ s h. h)
        (λ status bound.
          ask_part-then pushed _ _ _ (λ past h. h)
            (λ _ commit _.
              ask_part-then asked_remote _ _ _ (λ past h. h)
                (λ past reachable r.
                  Triple-lift _ _ _ (λ s h. h)
                    (λ _ yes_.
                      ask_part-then read_clock _ _ _ (λ past h. h)
                        (λ _ at _.
                          ask_part-then (marked _) _ _ _
                            (λ _ h. (
                              (
                                was_committed,
                                Read-VerifiedFor run_id m read,
                                check_binding-BoundProof lib proof m.material.stored_sha256 status
                                    (from_anchoring-ok _ status bound),
                                (past, r ∙ ap ok (reachable_or reachable yes_)),
                              ),
                              h,
                            ))
                            (λ _ advanced _. Triple-pure _ _ (λ s h. h))))))))

  replay-Always :
      (run_id : ℕ) (status : RunStatus) (m : StoredMaterial)
      → Always (replay print sha256 lib parts run_id status m)
  unfolding replay
  replay-Always run_id status m =
      Triple-lift _ _ _ (λ s h. h)
        (λ proof _.
          Triple-lift _ _ _ (λ s h. h)
            (λ commit _. Triple-lift _ _ _ (λ s h. h) (λ _ _. Triple-pure _ _ (λ s h. h))))

  anchor_by_status-Always :
      (run_id : ℕ) (status : RunStatus) (m : StoredMaterial)
      → (past : Past) × (parts.load_run past run_id ≡ some status)
      → Read run_id m
      → Always (anchor_by_status print sha256 lib parts run_id status m)
  unfolding anchor_by_status
  anchor_by_status-Always run_id status m (past, loaded) read =
      Triple-if _ (member status anchored_or_later) _ _ (λ _. replay-Always run_id status m)
        (λ _.
          Triple-if _ (not (same status committed)) _ _ (λ _. Triple-raise _ _ (λ s h. h))
            (λ c.
              anchor_committed-Always run_id m
                (
                  past,
                  loaded
                      ∙ ap some (position-injective status committed (==→eq _ _ (not-false _ c))),
                )
                read))

  anchor_run-Always : (run_id : ℕ) → Always (anchor_run print sha256 lib parts run_id)
  unfolding anchor_run
  anchor_run-Always run_id =
      ask_part-then read_run _ _ _ (λ past h. h)
        (λ past status e. Triple-bind _ _ _ _ (verified-Read run_id) (λ m.
          Triple-given _ _ _ (λ read.
            anchor_by_status-Always run_id status m
              (past, needed-some _ StageError.not_eligible status e) read)))

  always :
      {A : Type 0} (r : Result StageError A × Past)
      → Ends (λ _. AllJustified) AllJustified r
      → AllJustified r.1
  always (ok a, s) h = h
  always (err e, s) h = h

  -- Whether the stage returns or raises, each anchor that it marks is of a run that was read as
  -- committed; its digest is that of the material read for the run, recomputed from the rows; its
  -- proof is bound to that digest; and the remote answered that it has its commit.
  pub anchor_run-AllJustified :
      (run_id : ℕ) (past : Past)
      → AllJustified past
      → AllJustified (anchor_run print sha256 lib parts run_id past).1
  anchor_run-AllJustified run_id past h =
      always (anchor_run print sha256 lib parts run_id past) ((anchor_run-Always run_id).run past h)
