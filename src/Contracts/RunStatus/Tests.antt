-- ===== src/Contracts/RunStatus/Tests.antt =====
-- Tests and instances for the run state machine.
use asymmetric_committee.Base.{◌≡◌, refl, true, false, List, [], ◌∷◌}
use asymmetric_committee.Contracts.RunStatus.{
  RunStatus, pending, ingest_ok, features_ok, gated, agents_ok, committed, anchored, scored,
  can_transition,
}

abbrev live_history : List RunStatus
live_history = anchored ∷ committed ∷ agents_ok ∷ gated ∷ features_ok ∷ ingest_ok ∷ pending ∷ []

no_way_back : can_transition committed agents_ok ≡ false
unfolding can_transition
no_way_back = refl

backtests_score_from_anchored : can_transition anchored scored ≡ true
unfolding can_transition
backtests_score_from_anchored = refl
