-- ===== src/Evaluation/Scorable/Tests.antt =====
-- A live run that is admitted, and one whose block came too late.
use asymmetric_committee.Base.{ℕ, ◌≡◌, refl, true, false, none, some, ok, err, if◌then◌else◌, ◌==◌}
use asymmetric_committee.Contracts.RunStatus.{executed}
use asymmetric_committee.Evaluation.Scorable.{
  live, complete, Evidence, Sources, ScoringRequest, ScoringTicket, Admitted, classify, admit_run,
  run_scoring, anchor_timing,
}
use asymmetric_committee.Evaluation.Scorable.Admission.{Admissible, admit_run-Admissible}

abbrev evidence : Evidence
evidence = record {
  run = some (record { status = executed; mode = live; halt_reason = false });
  commitment = some (record { sha256 = 77; committed_at = 100 });
  has_snapshot = true;
  anchor =
      some (record { sha256 = 77; ots_proof = some 5; git_commit = some 9; anchored_at = 110 });
  has_events = false;
  has_defects = false;
}

abbrev sources : Sources
sources = record {
  load = λ id. if id == 1 then some evidence else none;
  verify_commitment = λ sha e. some sha;
  check_binding = λ proof digest. some (proof == 5);
  confirm_bitcoin = λ proof digest. ok (record { height = 800; block_time = 120 });
  is_reachable = λ commit. some (commit == 9);
  clock = some 150;
}

abbrev request : ScoringRequest
request = record { run_id = 1; earliest_resolution_at = some 121 }

abbrev late : ScoringRequest
late = record { run_id = 1; earliest_resolution_at = some 120 }

abbrev ticket : ScoringTicket
ticket = record {
  run_id = 1;
  mode = live;
  completeness = complete;
  commitment_sha256 = 77;
  git_commit = 9;
  bitcoin_height = 800;
  bitcoin_block_time = 120;
  requested_at = 150;
}

admitted : admit_run sources request ≡ ok ticket
unfolding admit_run classify
admitted = refl

too_late : admit_run sources late ≡ err anchor_timing
unfolding admit_run classify
too_late = refl

admit_run-Admissible_example : Admissible sources request ticket
admit_run-Admissible_example = admit_run-Admissible sources request ticket admitted

abbrev load_height : ScoringTicket → Admitted ℕ
load_height t = ok t.bitcoin_height

scored_height : run_scoring sources request load_height ≡ ok 800
unfolding run_scoring admit_run classify
scored_height = refl
