-- ===== src/Orchestration/AnchorStage/Tests.antt =====
-- A run that is anchored, and an instance of the theorem on the stage.
use Prim.Native.String.{String}
use asymmetric_committee.Base.{
  ◌≡◌, refl, true, none, some, [], ◌∷◌, ok, err, pure, raise, lift, gets, modify, attempt, ◌>>=◌,
}
use asymmetric_committee.Contracts.RunStatus.{committed, anchored}
use asymmetric_committee.Contracts.Commitment.Canonical.{
  Printer, canon, dumps, canonical_bytes, sequence, end_values,
}
use asymmetric_committee.Contracts.Commitment.{
  canon_dumps, commitment_payload, commitment_hash, verify_commitment, verify_material,
}
use asymmetric_committee.Evaluation.Anchoring.Hex.{fromhex}
use asymmetric_committee.Evaluation.Anchoring.{
  Library, bitcoin, refuted, loads, check_file, check_binding,
}
use asymmetric_committee.Orchestration.AnchorStage.{
  StageError, StoredMaterial, Parts, ask_part, dead_letter_for, verified, anchor_committed,
  anchor_by_status, anchor_run,
}
use asymmetric_committee.Orchestration.AnchorStage.Bound.{AllJustified, anchor_run-AllJustified}

abbrev print : Printer
print = record {
  integer_text = λ n. "1";
  quoted = λ s. s;
  uuid_text = λ u. "u";
  utc_text = λ t. "t";
}

abbrev digest : String → String
digest bytes = "0af1"

abbrev lib : Library
lib = record {
  deserialize_file = λ bytes. some (record {
    is_sha256 = true;
    file_digest = 10 ∷ 241 ∷ [];
    timestamp = record { msg = 10 ∷ 241 ∷ []; all_attestations = (2 ∷ [], bitcoin 900) ∷ [] };
  });
  deserialize_fragment = λ bytes msg. none;
  verify = λ h msg. refuted;
}

abbrev material : String → StoredMaterial
material stored = record {
  material = record {
    run = record { run_id = 7; mode = "live"; as_of = 3; config_hash = "c" };
    decisions = [];
    snapshot = record { run_id = 7; dump = sequence end_values };
    stored_sha256 = stored;
    anchor_sha256 = none;
  };
  ots_proof = none;
  git_commit = none;
}

abbrev parts : String → Parts
parts stored = record {
  load_run = λ past id. some committed;
  load_commitment_material = λ past id. ok (some (material stored));
  mark_anchored = λ past a. ok true;
  record_dlq = λ past id. ok tt;
  stamp = λ past sha. ok (1 ∷ []);
  push = λ past id sha. ok 5;
  is_reachable = λ past commit. ok true;
  clock = λ past. 9;
}

anchors :
    (anchor_run print digest lib (parts "0af1") 7 []).0
    ≡ ok (record { run_id = 7; status = anchored; advanced = true; git_commit = 5 })
unfolding anchor_run anchor_by_status anchor_committed verified ask_part verify_material
    verify_commitment commitment_hash commitment_payload canon_dumps canonical_bytes canon dumps
    check_binding loads check_file fromhex ◌>>=◌ attempt modify gets lift pure
anchors = refl

tampered : (anchor_run print digest lib (parts "ffff") 7 []).0 ≡ err StageError.integrity
unfolding anchor_run anchor_by_status anchor_committed verified dead_letter_for ask_part
    verify_material verify_commitment commitment_hash commitment_payload canon_dumps canonical_bytes
    canon dumps check_binding loads check_file fromhex ◌>>=◌ attempt modify gets lift pure raise
tampered = refl

anchor_run-AllJustified_example :
    AllJustified print digest lib (parts "0af1") (anchor_run print digest lib (parts "0af1") 7 []).1
anchor_run-AllJustified_example = anchor_run-AllJustified print digest lib (parts "0af1") 7 [] tt
