-- ===== src/Gate.antt =====
-- gate/model.py: the training set and the decision of the gate. The fitted model is a parameter: the
-- score of a row is a rank, since scores are only compared. An instant is a number.
pub mod Top
pub mod NoLeak
mod Tests
use asymmetric_committee.Base.{
  ℕ, Bool, true, false, ◌&&◌, ◌||◌, Option, none, some, List, [], ◌∷◌, if◌then◌else◌, ltb, leb,
  ◌==◌, any, filter, sort_by, take, is_some,
}

-- `FeatureRow`
pub record Row : Type 0 where
  pub security_id : ℕ
  pub event_time : ℕ
  pub values : ℕ

-- `GateLabel`
pub record GateLabel : Type 0 where
  pub security_id : ℕ
  pub feature_time : ℕ
  pub label_end : ℕ
  pub is_top_tercile : Bool

-- `TrainingExample`
pub record TrainingExample : Type 0 where
  pub security_id : ℕ
  pub feature_time : ℕ
  pub label_end : ℕ
  pub values : ℕ
  pub target : Bool

abbrev pub keyed : GateLabel → Row → Bool
keyed l r = (r.security_id == l.security_id) && (r.event_time == l.feature_time)

-- `by_key`: of rows with one key the last
abbrev pub row_of : GateLabel → List Row → Option Row
row_of l [] = none
row_of l (r ∷ rs) = elim (row_of l rs) [
  | none ↦ if keyed l r then some r else none
  | some last ↦ some last
]

abbrev pub example_of : GateLabel → Row → TrainingExample
example_of l r = record {
  security_id = l.security_id;
  feature_time = l.feature_time;
  label_end = l.label_end;
  values = r.values;
  target = l.is_top_tercile;
}

abbrev with_example : Option Row → GateLabel → List TrainingExample → List TrainingExample
with_example none l rest = rest
with_example (some r) l rest = example_of l r ∷ rest

-- `eligible_training_set`
unfoldable pub eligible_training_set : List Row → List GateLabel → ℕ → List TrainingExample
eligible_training_set features [] as_of = []
eligible_training_set features (l ∷ ls) as_of =
    let rest = eligible_training_set features ls as_of in
    if ltb l.label_end as_of then with_example (row_of l features) l rest else rest

-- `GateDecision`
pub record GateDecision : Type 0 where
  pub security_id : ℕ
  pub score : ℕ
  pub passed : Bool

-- the dictionary `scores`
abbrev pub put_score : ℕ → ℕ → List (ℕ × ℕ) → List (ℕ × ℕ)
put_score id score [] = (id, score) ∷ []
put_score id score ((j, s) ∷ rest) =
    let later = put_score id score rest in if j == id then (id, score) ∷ rest else (j, s) ∷ later

abbrev pub score_of : ℕ → List (ℕ × ℕ) → ℕ
score_of id [] = 0
score_of id ((j, s) ∷ rest) = if j == id then s else score_of id rest

-- `(-scores[sid], sid)` of one is not after that of the other.
abbrev pub stands_before : ℕ × ℕ → ℕ × ℕ → Bool
stands_before a b = ltb b.1 a.1 || ((a.1 == b.1) && leb a.0 b.0)

abbrev pub is_among : ℕ → List (ℕ × ℕ) → Bool
is_among id = any (λ p. p.0 == id)

module _ (score : ℕ → ℕ) where
  unfoldable pub scores_onto : List (ℕ × ℕ) → List Row → List (ℕ × ℕ)
  scores_onto scores [] = scores
  scores_onto scores (r ∷ rs) = scores_onto (put_score r.security_id (score r.values) scores) rs

  unfoldable pub decisions_for : List (ℕ × ℕ) → List (ℕ × ℕ) → List Row → List GateDecision
  decisions_for scores best [] = []
  decisions_for scores best (r ∷ rs) =
      record {
        security_id = r.security_id;
        score = score_of r.security_id scores;
        passed = is_among r.security_id best;
      }
      ∷ decisions_for scores best rs

  -- `decide`
  unfoldable pub decide_gate : List Row → ℕ → List GateDecision
  unfolding scores_onto decisions_for
  decide_gate rows top_k =
      let scores = scores_onto [] rows in
      decisions_for scores (take top_k (sort_by stands_before scores)) rows
