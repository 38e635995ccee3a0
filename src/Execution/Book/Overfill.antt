-- ===== src/Execution/Book/Overfill.antt =====
-- What `execute_book` promises of the outcomes that it returns.
use asymmetric_committee.Base.{
  ℕ, zero, suc, ◌+◌, ◌≤◌, ◌≡◌, ◌↔◌, refl, ap, Bool, true, ◌&&◌, ◌==◌, none, List, [], ◌∷◌, map, any,
  AllPairs, arith, Result, ok, err, pure, ◌>>=◌, continue, Keeps, keeps_rules, Option-cases,
  Bool-cases, subst, inl, inr, is_some,
}
use asymmetric_committee.Execution.Gateway.{Error, call, Env, World, M}
use asymmetric_committee.Execution.Leg.{
  ExecutionTarget, ExecutionOutcome, Leg, Step, Settings, shared, update_leg, new_leg,
  submit_market, close_limit, close_market, filled_of, outcome,
}
use asymmetric_committee.Execution.Leg.Residual.{LimitDone, close_limit-done, close_market-done}
use asymmetric_committee.Execution.Leg.Stages.{
  Early, SameLimit, submit_limit-Early, resolve_reference-Early, cancel_limit-Early, new_leg-Early,
  open_for_submit-Early, fresh-Early, submit_market-SameLimit,
}
use asymmetric_committee.Execution.Book.{
  BookState, is_live, execute_book, run_phases, drive, conclude, finish, new_legs, mark_fresh,
  await_all, poll, poll_order, is_waiting, wait_once, sleep, poll_again, start_book, phase,
  each_leg, on_legs,
}
use asymmetric_committee.Execution.Book.Rules.{
  LegFact, Stands, Takes, StepTakes, OnLegs, OnReturn, phase-Takes, each_leg-takes, on_legs-Takes,
  on_world-Takes, Takes-then, OnLegs-bind, OnLegs-after, OnLegs-if,
}

-- The limit is settled; the market order, if any, is not yet.
pub record Closed (t : ExecutionTarget) (l : Leg) : Type 0 where
  pub target : l.target ≡ t
  pub error : l.error ≡ none
  pub limit_done : LimitDone t.qty l.limit_order

-- Both orders are within the target and the tolerance.
pub record Within (t : ExecutionTarget) (l : Leg) : Type 0 where
  pub target : l.target ≡ t
  pub filled : filled_of l.limit_order + filled_of l.market_order ≤ t.qty + 1

module _ (env : Env) (settings : Settings) where
  -- A step that keeps the early stage takes it to itself, whichever legs it is run on.
  Keeps-StepTakes :
      (choose : Bool → Leg → Bool) (step : Step Unit)
      → ((t : ExecutionTarget) → Keeps (λ s. Early t s.leg) step)
      → StepTakes choose Early Early step
  Keeps-StepTakes choose step k = record {
    run = λ t stop s s' p c e. subst (λ y. Early t y.1.leg) e ((k t).at s p);
    skip = λ t stop l p c. p;
  }

  close_limit-Closes : StepTakes (λ _ l. is_live l) Early Closed (close_limit env settings)
  close_limit-Closes = record {
    run = λ t stop s s' p c e.
        ground (arith, close_limit-done env settings s s' e p.residual_pending);
    skip = λ t stop l p c. ground arith;
  }

  same_limit : (l : Leg) → SameLimit l l
  same_limit l = ground arith

  submit_market-Closed :
      (choose : Bool → Leg → Bool) → StepTakes choose Closed Closed (submit_market env settings)
  submit_market-Closed choose = record {
    run = λ t stop s s' p c e.
        ground (arith, (submit_market-SameLimit env settings s.leg).at s (same_limit s.leg));
    skip = λ t stop l p c. p;
  }

  poll-Early : StepTakes (λ _. is_waiting env settings) Early Early (poll env settings)
  unfolding poll poll_order shared call update_leg ◌>>=◌
  poll-Early = record {
    run = λ t stop s s' p c e. elim (Option-cases s.leg.limit_order) [
      | inl absent ↦ ground arith
      | inr (o, f) ↦ ground arith
    ];
    skip = λ t stop l p c. p;
  }

  poll-Closed : StepTakes (λ _. is_waiting env settings) Closed Closed (poll env settings)
  unfolding poll poll_order shared call update_leg ◌>>=◌
  poll-Closed = record {
    run = λ t stop s s' p c e. elim (Option-cases s.leg.market_order) [
      | inl absent ↦ ground arith
      | inr (o, f) ↦ ground arith
    ];
    skip = λ t stop l p c. p;
  }

  close_market-Within :
      StepTakes
        (λ _ l. is_live l && is_some l.market_order)
        Closed
        Within
        (close_market env settings)
  close_market-Within = record {
    run = λ t stop s s' p c e. ground (arith, close_market-done env settings s s' e);
    skip = λ t stop l p c. ground arith;
  }

  poll_again-takes :
      (P : List Leg → Type 0) (polled : List Leg) (rest : M (List Leg)) (w : World)
      → P polled
      → ((w' : World) → OnLegs P (rest w'))
      → OnLegs P (poll_again env settings polled rest w)
  unfolding poll_again pure
  poll_again-takes P polled rest w p k =
      OnLegs-if P (any (is_waiting env settings) polled) _ _ w
        (OnLegs-after P (sleep env settings settings.poll_seconds) rest w k) p

  await_all-takes :
      (P : LegFact) (attempts : ℕ) (ts : List ExecutionTarget) (ls : List Leg) (w : World)
      → StepTakes (λ _. is_waiting env settings) P P (poll env settings)
      → AllPairs P ts ls
      → OnLegs (AllPairs P ts) (await_all env settings attempts ls w)
  unfolding await_all pure
  await_all-takes P zero ts ls w k p = p
  await_all-takes P (suc attempts) ts ls w k p =
      OnLegs-bind (AllPairs P ts) (AllPairs P ts)
        (each_leg (is_waiting env settings) (poll env settings) ls)
        (λ polled. poll_again env settings polled (await_all env settings attempts polled)) w
        (each_leg-takes (is_waiting env settings) (poll env settings) k ts ls w p)
        λ polled w' q.
          poll_again-takes (AllPairs P ts) polled (await_all env settings attempts polled) w' q
            (λ w''. await_all-takes P attempts ts polled w'' k q)

  await-Takes :
      (P : LegFact) (ts : List ExecutionTarget)
      → StepTakes (λ _. is_waiting env settings) P P (poll env settings)
      → Takes (Stands P ts) (Stands P ts) (on_legs (await_all env settings settings.poll_attempts))
  await-Takes P ts k =
      on_legs-Takes ts _ (λ ls w p. await_all-takes P settings.poll_attempts ts ls w k p)

  wait-Takes :
      (P : LegFact) (ts : List ExecutionTarget)
      → Takes
          (Stands P ts)
          (Stands P ts)
          (on_legs (λ legs. wait_once env settings legs >>= λ _. pure legs))
  unfolding pure
  wait-Takes P ts =
      on_legs-Takes ts _
        (λ ls w p. OnLegs-after (AllPairs P ts) (wait_once env settings ls) (pure ls) w (λ _. p))

  mark_fresh-Early : (t : ExecutionTarget) → Keeps (λ s. Early t s.leg) (mark_fresh env settings)
  unfolding mark_fresh
  mark_fresh-Early t =
      search (keeps_rules, open_for_submit-Early env settings t, fresh-Early env settings t)

  fresh-Takes :
      (ts : List ExecutionTarget)
      → Takes
          (Stands Early ts)
          (Stands Early ts)
          (on_legs (each_leg (λ _. true) (mark_fresh env settings)))
  fresh-Takes ts = on_legs-Takes ts _ (
      each_leg-takes (λ _. true) (mark_fresh env settings) (Keeps-StepTakes _ _ mark_fresh-Early)
        ts)

  Early-Takes :
      (choose : Bool → Leg → Bool) (step : Step Unit) (ts : List ExecutionTarget)
      → ((t : ExecutionTarget) → Keeps (λ s. Early t s.leg) step)
      → Takes (Stands Early ts) (Stands Early ts) (phase choose step)
  Early-Takes choose step ts k = phase-Takes choose step (Keeps-StepTakes choose step k) ts

  run_phases-Within :
      (gate : M Unit) (ts : List ExecutionTarget)
      → Takes (Stands Early ts) (Stands Within ts) (run_phases env settings gate)
  unfolding run_phases
  run_phases-Within gate ts = Takes-then _ _ (on_world-Takes ts gate) (
      Takes-then _ _ (fresh-Takes ts) (
        Takes-then _ _ (Early-Takes _ _ ts (resolve_reference-Early env settings)) (
          Takes-then _ _ (Early-Takes _ _ ts (submit_limit-Early env settings)) (
            Takes-then _ _ (wait-Takes Early ts) (
              Takes-then _ _ (Early-Takes _ _ ts (cancel_limit-Early env settings)) (
                Takes-then _ _ (await-Takes Early ts poll-Early) (
                  Takes-then _ _ (phase-Takes _ _ close_limit-Closes ts) (
                    Takes-then _ _ (on_world-Takes ts gate) (
                      Takes-then _ _ (phase-Takes _ _ (submit_market-Closed _) ts) (
                        Takes-then _ _ (await-Takes Closed ts poll-Closed)
                          (phase-Takes _ _ close_market-Within ts)))))))))))

  new_legs-Early :
      (ts : List ExecutionTarget) (w w' : World) (ls : List Leg)
      → new_legs env settings ts w ≡ (ok ls, w')
      → AllPairs Early ts ls
  unfolding new_legs ◌>>=◌
  new_legs-Early [] w w' [] h = tt
  new_legs-Early [] w w' (l ∷ ls) h = ground arith
  new_legs-Early (t ∷ ts) w w' [] h = ground arith
  new_legs-Early (t ∷ ts) w w' (l ∷ ls) h =
      let w₁ = (new_leg env settings t w).1 in
      let w₂ = (new_legs env settings ts w₁).1 in
      (
        new_leg-Early env settings t w w₁ l (ground arith),
        new_legs-Early ts w₁ w₂ ls (ground arith),
      )

-- What is promised of the outcome for a target: the fill is at most the target and the tolerance,
-- and it is reported complete exactly when it also reaches the target up to the tolerance.
abbrev pub Promised : ExecutionTarget → ExecutionOutcome → Type 0
Promised t o = (o.filled_qty ≤ t.qty + 1) × ((o.complete ≡ true) ↔ (t.qty ≤ o.filled_qty + 1))

Within→Promised : (t : ExecutionTarget) (l : Leg) → Within t l → Promised t (outcome l)
unfolding outcome
Within→Promised t l h = ground arith

outcomes-Promised :
    (ts : List ExecutionTarget) (ls : List Leg)
    → AllPairs Within ts ls
    → AllPairs Promised ts (map outcome ls)
outcomes-Promised [] [] h = tt
outcomes-Promised [] (l ∷ ls) h = absurd h
outcomes-Promised (t ∷ ts) [] h = absurd h
outcomes-Promised (t ∷ ts) (l ∷ ls) h = (Within→Promised t l h.0, outcomes-Promised ts ls h.1)

conclude-Promised :
    (ts : List ExecutionTarget) (es : List Error) (ls : List Leg) (os : List ExecutionOutcome)
    → (es ≡ [] → AllPairs Within ts ls)
    → conclude es ls ≡ ok os
    → AllPairs Promised ts os
unfolding conclude
conclude-Promised ts [] ls os p h =
    let e : map outcome ls ≡ os = cc in
    subst (AllPairs Promised ts) e (outcomes-Promised ts ls (p refl))
conclude-Promised ts (e ∷ es) ls os p h = absurd (cc)

finish-Promised :
    (ts : List ExecutionTarget) (y : Result Error Unit × BookState) (os : List ExecutionOutcome)
    (w : World)
    → OnReturn (Stands Within ts) y
    → finish y ≡ (ok os, w)
    → AllPairs Promised ts os
finish-Promised ts (ok _, s) os w p h =
    conclude-Promised ts s.errors s.legs os p.pairs (ap (λ z. z.0) h)
finish-Promised ts (err e, s) os w p h = absurd (cc)

-- If `execute_book` returns, there is one outcome for each target, in order, and whatever the
-- broker did, none of them has filled more than its target and the tolerance of 1e-6 shares; an
-- outcome is complete exactly when it has filled its target up to that tolerance.
pub execute_book-Promised :
    (env : Env) (settings : Settings) (gate : M Unit) (targets : List ExecutionTarget)
    (w w' : World) (outcomes : List ExecutionOutcome)
    → execute_book env settings gate targets w ≡ (ok outcomes, w')
    → AllPairs Promised targets outcomes
unfolding execute_book ◌>>=◌
execute_book-Promised env settings gate targets w w' outcomes h =
    elim (Bool-cases (any (λ t. t.qty == 0) targets)) [
      | inl invalid ↦ absurd (cc (rw invalid at h))
      | inr valid ↦ go (new_legs env settings targets w) refl (rw valid at h)
    ]
  where
    go :
        (y : Result Error (List Leg) × World)
        → new_legs env settings targets w ≡ y
        → continue y.0 (drive env settings gate) y.1 ≡ (ok outcomes, w')
        → AllPairs Promised targets outcomes
    go (ok legs, w₁) e k =
        finish-Promised targets (run_phases env settings gate (start_book w₁ legs)) outcomes w'
          ((run_phases-Within env settings gate targets).at (start_book w₁ legs)
            (record { pairs = λ _. new_legs-Early env settings targets w w₁ legs e }))
          k
    go (err x, w₁) e k = absurd (cc)
