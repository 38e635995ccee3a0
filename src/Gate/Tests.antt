-- ===== src/Gate/Tests.antt =====
-- Three rows, and instances of the theorems on the gate.
use asymmetric_committee.Base.{ℕ, ◌≡◌, refl, true, false, List, [], ◌∷◌, inl, inr}
use asymmetric_committee.Gate.{
  Row, GateLabel, GateDecision, example_of, decide_gate, decisions_for, scores_onto,
  eligible_training_set, stands_before,
}
use asymmetric_committee.Gate.Top.{decide_gate-Leads}
use asymmetric_committee.Gate.NoLeak.{Eligible, eligible_training_set-Eligible}

abbrev row : ℕ → ℕ → Row
row id values = record { security_id = id; event_time = 10; values = values }

abbrev rows : List Row
rows = row 1 5 ∷ row 2 9 ∷ row 3 9 ∷ []

abbrev decision : ℕ → ℕ → GateDecision
decision id score = record { security_id = id; score = score; passed = false }

abbrev passes : GateDecision → GateDecision
passes d = record d { passed = true }

one_passes : decide_gate (λ v. v) rows 1 ≡ decision 1 5 ∷ passes (decision 2 9) ∷ decision 3 9 ∷ []
unfolding decide_gate decisions_for scores_onto
one_passes = refl

decide_gate-Leads_example : stands_before (2, 9) (3, 9) ≡ true
unfolding decide_gate decisions_for scores_onto
decide_gate-Leads_example =
    decide_gate-Leads (λ v. v) rows 1 (passes (decision 2 9)) (decision 3 9) (inr (inl refl))
      (inr (inr (inl refl))) refl refl

abbrev label : ℕ → GateLabel
label end = record { security_id = 2; feature_time = 10; label_end = end; is_top_tercile = true }

late_label : eligible_training_set rows (label 30 ∷ []) 30 ≡ []
unfolding eligible_training_set
late_label = refl

eligible_training_set-Eligible_example :
    Eligible rows (label 29 ∷ []) 30 (example_of (label 29) (row 2 9))
unfolding eligible_training_set
eligible_training_set-Eligible_example =
    eligible_training_set-Eligible rows (label 29 ∷ []) 30 (example_of (label 29) (row 2 9))
      (inl refl)
