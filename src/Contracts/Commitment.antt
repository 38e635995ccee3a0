-- ===== src/Contracts/Commitment.antt =====
-- contracts/commitment.py: the commitment of a run, recomputed and compared. The hash, and the text
-- of the digest, are a parameter (hashlib). The dump of a record by pydantic is a field of the
-- record; digests are texts, run and security ids are the integers of their UUIDs.
pub mod Canonical
pub mod Ordered
pub mod Verified
mod Tests
use Prim.Native.String.{String}
use asymmetric_committee.Base.{
  ℕ, Bool, true, false, not, ◌||◌, ◌&&◌, Option, none, some, List, [], ◌∷◌, Result, ok, err,
  and_then, if◌then◌else◌, ltb, leb, ◌==◌, same_text, any, sort_by,
}
use asymmetric_committee.Contracts.Commitment.Canonical.{
  Value, Items, Values, Printer, CommitmentError, canon, canonical_bytes, aware_datetime, uuid,
  text, enum, mapping, sequence, end_items, item, end_values, value, other_snapshot, other_decision,
}

-- The fields of `RunRecord` that a commitment depends on
pub record RunRecord : Type 0 where
  pub run_id : ℕ
  pub mode : String
  pub as_of : ℕ
  pub config_hash : String

-- `CommitteeDecisionRecord`
pub record Decision : Type 0 where
  pub run_id : ℕ
  pub security_id : ℕ
  pub horizon_days : ℕ
  pub dump : Value

-- `PortfolioSnapshot`
pub record Snapshot : Type 0 where
  pub run_id : ℕ
  pub dump : Value

-- `CommitmentMaterial`; of the anchor its digest
pub record CommitmentMaterial : Type 0 where
  pub run : RunRecord
  pub decisions : List Decision
  pub snapshot : Snapshot
  pub stored_sha256 : String
  pub anchor_sha256 : Option String

abbrev pub commitment_version : String
commitment_version = "commitment_v1"

-- `(security_id, horizon_days)` of one decision is not after that of another.
abbrev pub key_leq : Decision → Decision → Bool
key_leq a b =
    ltb a.security_id b.security_id
    || ((a.security_id == b.security_id) && leb a.horizon_days b.horizon_days)

abbrev run_items : RunRecord → Items
run_items run = item "run_id" (uuid run.run_id) (
    item "mode" (enum (text run.mode)) (
      item "as_of" (aware_datetime run.as_of)
        (item "config_hash" (text run.config_hash) end_items)))

abbrev pub payload_of : RunRecord → Values → Value → Value
payload_of run vs s = mapping (
    item "v" (text commitment_version) (
      item "run" (mapping (run_items run))
        (item "decisions" (sequence vs) (item "snapshot" s end_items))))

module _ (print : Printer) where
  -- `[_canon(d.model_dump(mode="python")) for d in ordered]`
  unfoldable pub canon_dumps : List Decision → Result CommitmentError Values
  canon_dumps [] = ok end_values
  canon_dumps (d ∷ ds) =
      and_then (canon print d.dump) (λ v. and_then (canon_dumps ds) (λ vs. ok (value v vs)))

  -- `commitment_payload`
  unfoldable pub commitment_payload :
      RunRecord → List Decision → Snapshot → Result CommitmentError Value
  unfolding canon_dumps
  commitment_payload run decisions snapshot =
      if not (snapshot.run_id == run.run_id)
      then err other_snapshot
      else let ordered = sort_by key_leq decisions in
        if any (λ d. not (d.run_id == run.run_id)) ordered
        then err other_decision
        else and_then (canon_dumps ordered)
            (λ vs. and_then (canon print snapshot.dump) (λ s. ok (payload_of run vs s)))

-- `CommitmentIntegrityError`
pub data IntegrityError : Type 0 where
  not_recomputable : CommitmentError → IntegrityError
  recomputed_differs anchor_differs : IntegrityError

module _ (print : Printer) (sha256 : String → String) where
  -- `commitment_hash`
  unfoldable pub commitment_hash :
      RunRecord → List Decision → Snapshot → Result CommitmentError String
  unfolding canonical_bytes commitment_payload
  commitment_hash run decisions snapshot =
      and_then (commitment_payload print run decisions snapshot)
        (λ payload. and_then (canonical_bytes print payload) (λ bytes. ok (sha256 bytes)))

  abbrev pub compared : String → Result CommitmentError String → Result IntegrityError String
  compared stored (err e) = err (not_recomputable e)
  compared stored (ok recomputed) =
      if not (same_text recomputed stored) then err recomputed_differs else ok recomputed

  -- `verify_commitment`
  unfoldable pub verify_commitment :
      String → RunRecord → List Decision → Snapshot → Result IntegrityError String
  unfolding commitment_hash
  verify_commitment stored run decisions snapshot =
      compared stored (commitment_hash run decisions snapshot)

  abbrev pub anchored_as : Option String → String → Result IntegrityError String
  anchored_as none recomputed = ok recomputed
  anchored_as (some anchor) recomputed =
      if not (same_text anchor recomputed) then err anchor_differs else ok recomputed

  -- `verify_material`
  unfoldable pub verify_material : CommitmentMaterial → Result IntegrityError String
  unfolding verify_commitment
  verify_material m =
      and_then (verify_commitment m.stored_sha256 m.run m.decisions m.snapshot)
        (anchored_as m.anchor_sha256)
