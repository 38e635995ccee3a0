-- ===== src/Orchestration/AnchorStage.antt =====
-- orchestration/anchor_stage.py: from COMMITTED to ANCHORED. The store, the calendars, the git remote
-- and the clock are functions of what happened before (`Parts`); a commit and an instant are numbers.
-- The verification of the material and of a proof are those of contracts/commitment.py and
-- evaluation/anchoring.py.
pub mod Bound
mod Tests
use asymmetric_committee.Base.{
  ℕ, String, Bool, true, false, not, ◌&&◌, Option, none, some, List, [], ◌∷◌, Result, ok, err, Exec,
  pure, raise, lift, gets, modify, attempt, ◌>>=◌, ◌>>◌, if◌then◌else◌,
}
use asymmetric_committee.Contracts.RunStatus.{
  RunStatus, same, member, committed, anchored, executed, scored,
}
use asymmetric_committee.Contracts.Commitment.Canonical.{Printer}
use asymmetric_committee.Contracts.Commitment.{CommitmentMaterial, verify_material}
use asymmetric_committee.Evaluation.Anchoring.Hex.{Bytes}
use asymmetric_committee.Evaluation.Anchoring.{Library, AnchorError, ProofStatus, check_binding}

-- `AnchorNotEligibleError`, `CommitmentIntegrityError`, those of evaluation/anchoring.py, and what
-- the store raises
pub data StageError : Type 0 where
  not_eligible integrity store_error : StageError
  anchoring : AnchorError → StageError

-- The material, with the proof and the commit of its anchor
pub record StoredMaterial : Type 0 where
  pub material : CommitmentMaterial
  pub ots_proof : Option Bytes
  pub git_commit : Option ℕ

-- `CommitmentAnchor`
pub record CommitmentAnchor : Type 0 where
  pub run_id : ℕ
  pub sha256 : String
  pub ots_proof : Bytes
  pub git_commit : ℕ
  pub anchored_at : ℕ

-- `AnchorResult`
pub record AnchorResult : Type 0 where
  pub run_id : ℕ
  pub status : RunStatus
  pub advanced : Bool
  pub git_commit : ℕ

pub data StageEvent : Type 0 where
  read_run read_material stamped pushed asked_remote read_clock dead_letter : StageEvent
  marked : CommitmentAnchor → StageEvent

abbrev pub Past : Type 0
Past = List StageEvent

pub record Parts : Type 0 where
  pub load_run : Past → ℕ → Option RunStatus
  pub load_commitment_material : Past → ℕ → Result StageError (Option StoredMaterial)
  pub mark_anchored : Past → CommitmentAnchor → Result StageError Bool
  pub record_dlq : Past → ℕ → Result StageError Unit
  pub stamp : Past → String → Result StageError Bytes
  pub push : Past → ℕ → String → Result StageError ℕ
  pub is_reachable : Past → ℕ → Result StageError Bool
  pub clock : Past → ℕ

abbrev pub Stage : Type 0 → Type 0
Stage = Exec StageError Past

-- A part is asked, and what it answers or raises
unfoldable pub ask_part : {A : Type 0} → StageEvent → (Past → Result StageError A) → Stage A
ask_part e answer = do r ← gets answer; modify (λ past. e ∷ past); lift r

abbrev pub needed : {A : Type 0} → Option A → StageError → Result StageError A
needed none e = err e
needed (some a) e = ok a

abbrev pub from_anchoring : {A : Type 0} → Result AnchorError A → Result StageError A
from_anchoring (ok a) = ok a
from_anchoring (err e) = err (anchoring e)

abbrev pub anchored_or_later : List RunStatus
anchored_or_later = anchored ∷ executed ∷ scored ∷ []

-- the stored proof, where there are any bytes
abbrev pub usable : Option Bytes → Option Bytes
usable none = none
usable (some []) = none
usable (some (b ∷ bs)) = some (b ∷ bs)

module _ (print : Printer) (sha256 : String → String) (lib : Library) (parts : Parts) where
  abbrev pub intact : CommitmentMaterial → Result StageError String
  intact m = elim (verify_material print sha256 m) [
    | ok digest ↦ ok digest
    | err e ↦ err StageError.integrity
  ]

  -- `_dead_letter`, whose own errors are not raised
  unfoldable pub dead_letter_for : ℕ → Stage Unit
  unfolding ask_part
  dead_letter_for run_id =
      attempt (ask_part dead_letter (λ past. parts.record_dlq past run_id)) (λ _. pure tt)

  abbrev pub after_mismatch : ℕ → StageError → Stage StoredMaterial
  after_mismatch run_id StageError.integrity =
      dead_letter_for run_id >>= λ _. raise StageError.integrity
  after_mismatch run_id StageError.not_eligible = raise StageError.not_eligible
  after_mismatch run_id StageError.store_error = raise StageError.store_error
  after_mismatch run_id (anchoring e) = raise (anchoring e)

  -- `_verified`
  unfoldable pub verified : ℕ → Stage StoredMaterial
  unfolding ask_part dead_letter_for
  verified run_id =
      attempt
        (do
          found ← ask_part read_material (λ past. parts.load_commitment_material past run_id)
          m ← lift (needed found StageError.not_eligible)
          lift (intact m.material)
          pure m)
        (after_mismatch run_id)

  -- the replay of a run that is anchored
  unfoldable pub replay : ℕ → RunStatus → StoredMaterial → Stage AnchorResult
  replay run_id status m = do
    proof ← lift (needed m.ots_proof StageError.integrity)
    commit ← lift (needed m.git_commit StageError.integrity)
    lift (from_anchoring (check_binding lib proof m.material.stored_sha256))
    pure (record { run_id = run_id; status = status; advanced = false; git_commit = commit })

  abbrev pub proof_for : String → Option Bytes → Stage Bytes
  proof_for sha (some proof) = pure proof
  proof_for sha none = ask_part stamped (λ past. parts.stamp past sha)

  -- the anchoring of a committed run
  unfoldable pub anchor_committed : ℕ → StoredMaterial → Stage AnchorResult
  unfolding ask_part
  anchor_committed run_id m = do
    proof ← proof_for m.material.stored_sha256 (usable m.ots_proof)
    lift (from_anchoring (check_binding lib proof m.material.stored_sha256))
    commit ← ask_part pushed (λ past. parts.push past run_id m.material.stored_sha256)
    reachable ← ask_part asked_remote (λ past. parts.is_reachable past commit)
    lift (if reachable then ok tt else err (anchoring AnchorError.binding))
    at ← ask_part read_clock (λ past. ok (parts.clock past))
    advanced ←
        ask_part
          (marked (record {
            run_id = run_id;
            sha256 = m.material.stored_sha256;
            ots_proof = proof;
            git_commit = commit;
            anchored_at = at;
          }))
          (λ past. parts.mark_anchored past (record {
            run_id = run_id;
            sha256 = m.material.stored_sha256;
            ots_proof = proof;
            git_commit = commit;
            anchored_at = at;
          }))
    pure (record { run_id = run_id; status = anchored; advanced = advanced; git_commit = commit })

  unfoldable pub anchor_by_status : ℕ → RunStatus → StoredMaterial → Stage AnchorResult
  unfolding replay anchor_committed
  anchor_by_status run_id status m =
      if member status anchored_or_later
      then replay run_id status m
      else if not (same status committed)
      then raise StageError.not_eligible
      else anchor_committed run_id m

  -- `AnchorStage.anchor_run`
  unfoldable pub anchor_run : ℕ → Stage AnchorResult
  unfolding verified anchor_by_status ask_part
  anchor_run run_id = do
    status ← ask_part read_run (λ past. needed (parts.load_run past run_id) StageError.not_eligible)
    m ← verified run_id
    anchor_by_status run_id status m
