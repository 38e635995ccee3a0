-- ===== src/Evaluation/Sequential/Tests.antt =====
-- The test on a coarse arithmetic: whole hundredths that stop at zero.
use asymmetric_committee.Base.{
  ℕ, ◌+◌, ◌-◌, ◌*◌, ◌/◌, ◌≡◌, ◌<◌, refl, true, some, List, [], ◌∷◌, length, Result, ok, err, ltb,
  leb,
}
use asymmetric_committee.Evaluation.Sequential.{
  Floats, SequentialTest, running, pass, both_e_processes, SequentialError, clipped_y, bet,
  verdict_at, observe_running, observe, observe_all, fresh_test, max_week,
}
use asymmetric_committee.Evaluation.Sequential.Window.{Sound, observe_all-Sound, observe_all-frozen}

abbrev coarse : Floats
coarse = record {
  Float = ℕ;
  literal = λ n d. n * 100 / d;
  negate = λ x. 0;
  add = λ x y. x + y;
  sub = λ x y. x - y;
  mul = λ x y. x * y / 100;
  div = λ x y. x * 100 / y;
  below = ltb;
  at_most = leb;
  is_finite = λ x. true;
}

abbrev weeks : List (ℕ × ℕ)
weeks = (2, 1) ∷ (3, 0) ∷ []

abbrev result_of : Result SequentialError (SequentialTest coarse) → SequentialTest coarse
result_of (ok s) = s
result_of (err e) = fresh_test coarse

abbrev after_two : SequentialTest coarse
after_two = result_of (observe_all coarse (fresh_test coarse) weeks)

two_weeks : observe_all coarse (fresh_test coarse) weeks ≡ ok after_two
unfolding observe_all observe observe_running clipped_y bet verdict_at
two_weeks = refl

observe_all-Sound_example :
    Sound coarse after_two
    × (after_two.status ≡ running → (after_two.week ≡ length weeks) × (length weeks < max_week))
observe_all-Sound_example = observe_all-Sound coarse after_two weeks two_weeks

abbrev passed_test : SequentialTest coarse
passed_test = record (fresh_test coarse) {
  week = 30;
  status = pass;
  terminal_week = some 30;
  terminal_reason = some both_e_processes;
}

stays : observe_all coarse passed_test weeks ≡ ok passed_test
unfolding observe_all observe
stays = refl

observe_all-frozen_example : passed_test ≡ passed_test
observe_all-frozen_example =
    observe_all-frozen coarse passed_test passed_test weeks (λ h. cc h) stays
