-- ===== src/Orchestration/Pipeline/Stages.antt =====
-- The stages after a step, and a whole step, fresh or resumed, keep its history sound.
use asymmetric_committee.Base.{
  ℕ, String, ◌≡◌, inl, inr, refl, ap, ◌∙◌, Bool, true, false, not, ◌&&◌, ◌||◌, Option, none, some,
  List, [], ◌∷◌, Result, ok, err, Elem, attempt, ◌>>=◌, Keeps, Keeps-pure, Keeps-lift, Keeps-gets,
  Keeps-modify, Keeps-bind, Triple, Triple-pure, Triple-raise, Triple-if, Triple-Keeps,
  Triple-weaken, Triple-attempt, Triple-bind, Triple-gets, Triple-gets_from, Triple-lift,
  Triple-modify, ==→eq, and_left, Ends,
}
use asymmetric_committee.Contracts.RunStatus.{RunStatus, same, member, committed, anchored}
use asymmetric_committee.Contracts.RunStatus.Paths.{position-injective}
use asymmetric_committee.Orchestration.Pipeline.{
  StepError, Entity, AgentVerdict, RunRow, Book, StepResult, Event, History, World, Config, State,
  Step, tell, was_halted, anchored_run,
}
use asymmetric_committee.Orchestration.Pipeline.Attempt.{execute}
use asymmetric_committee.Orchestration.Pipeline.Resume.{
  is_live, maybe_anchor, execute_anchored, maybe_execute, anchor_known, execute_known, seed,
  seed_stored, started_of, start_step, resumed, resume_step, run_step, named_run, fresh,
  spent_before, failed_with, stored_result, advanced, seeded,
}
use asymmetric_committee.Orchestration.Pipeline.Sealed.{
  Sound, Inv, Told, CommittedBefore, execute-Told, record_failure-Keeps, now-Keeps,
}

same→eq : (s t : RunStatus) → same s t ≡ true → s ≡ t
same→eq s t h = position-injective s t (==→eq _ _ h)

module _ (env : World) (cfg : Config) where
  -- another event keeps what is known of a run
  later_CommittedBefore :
      (id : ℕ) (e : Event) (h : History)
      → CommittedBefore env cfg id h
      → CommittedBefore env cfg id (e ∷ h)
  later_CommittedBefore id e h (inl (a, m, p, q)) = inl (a, inr m, p, q)
  later_CommittedBefore id e h (inr k) = inr k

  abbrev Answered : StepResult → Result StepError RunStatus → State → Type 0
  Answered r answer s =
      Inv env cfg s
      × CommittedBefore env cfg r.run_id s.events
      × ((past : History) × Elem (anchored_run r.run_id) s.events
          × (env.anchor_run past r.run_id ≡ answer))

  anchor_known-Told :
      (r : StepResult) (answer : Result StepError RunStatus)
      → Triple (Answered r answer) (anchor_known r answer) (Told env cfg) (Inv env cfg)
  anchor_known-Told r (err e) = Triple-raise _ e (λ s h. h.0)
  anchor_known-Told r (ok status) =
      Triple-pure _ _
        (λ s (inv, before, (past, m, a)). (inv, λ _. before, λ k. inl (past, m, a ∙ ap ok k)))

  maybe_anchor-Told :
      (r : StepResult)
      → Triple (Told env cfg r) (maybe_anchor env cfg r) (Told env cfg) (Inv env cfg)
  unfolding maybe_anchor tell
  maybe_anchor-Told r =
      Triple-if _ (same r.status committed && cfg.has_anchoring) _ _
        (λ c. Triple-gets _ _ _ (λ answer.
          Triple-modify (Answered r answer) _ _ _
            (λ s ((inv, told, _), a).
              let before = told (same→eq _ _ (and_left _ _ c)) in
              (
                (before, inv),
                later_CommittedBefore r.run_id _ s.events before,
                (s.events, inl refl, a),
              ))
            (anchor_known-Told r answer)))
        (λ _. Triple-pure _ r (λ s h. h))

  execute_known-Keeps :
      (r : StepResult) (answer : Result StepError (RunStatus × Option String))
      → Triple (Inv env cfg) (execute_known r answer) (λ _. Inv env cfg) (Inv env cfg)
  execute_known-Keeps r (err e) = Triple-raise _ e (λ s h. h)
  execute_known-Keeps r (ok (status, reason)) = Triple-pure _ _ (λ s h. h)

  live_and_anchored : (a b c : Bool) → a || (not b || not c) ≡ false → (b ≡ true) × (c ≡ true)
  live_and_anchored false true true h = (refl, refl)
  live_and_anchored true b c h = absurd (cc)
  live_and_anchored false false c h = absurd (cc)
  live_and_anchored false true false h = absurd (cc)

  execute_anchored-Keeps :
      (r : StepResult)
      → Triple (Told env cfg r) (execute_anchored env cfg r) (λ _. Inv env cfg) (Inv env cfg)
  unfolding execute_anchored tell
  execute_anchored-Keeps r =
      Triple-if _
        (not cfg.has_execution || (not (is_live cfg.mode) || not (same r.status anchored))) _ _
        (λ _. Triple-pure _ r (λ s h. h.0))
        (λ c. Triple-gets _ _ _ (λ answer.
          Triple-modify (Inv env cfg) _ _ _
            (λ s ((inv, _, told), _).
              let (l, a) = live_and_anchored (not cfg.has_execution) _ _ c in
              (l, told (same→eq _ _ a), inv))
            (execute_known-Keeps r answer)))

  maybe_execute-Keeps :
      (r : StepResult)
      → Triple (Told env cfg r) (maybe_execute env cfg r) (λ _. Inv env cfg) (Inv env cfg)
  unfolding maybe_execute
  maybe_execute-Keeps r =
      Triple-bind _ (Told env cfg) _ _ (maybe_anchor-Told r) execute_anchored-Keeps

  seed-Keeps :
      (entities : List Entity) (vs : List (ℕ × AgentVerdict))
      → Keeps (Inv env cfg) (seed env cfg entities vs)
  unfolding seed
  seed-Keeps entities [] = Keeps-pure tt
  seed-Keeps entities ((id, v) ∷ rest) =
      Keeps-bind _ _ (Keeps-lift _) (λ _.
        Keeps-bind _ _ (Keeps-modify (seeded v id) (λ s h. h)) (λ _. seed-Keeps entities rest))

  seed_stored-Keeps :
      (run_id : ℕ) (entities : List Entity) (prior : Option RunRow)
      → Keeps (Inv env cfg) (seed_stored env cfg run_id entities prior)
  seed_stored-Keeps run_id entities none = Keeps-pure tt
  seed_stored-Keeps run_id entities (some prior) =
      Keeps-bind _ _ (Keeps-gets _) (λ vs. seed-Keeps entities vs)

  started_of-Keeps : (prior : Option RunRow) → Keeps (Inv env cfg) (started_of env cfg prior)
  started_of-Keeps none = now-Keeps env cfg
  started_of-Keeps (some prior) = Keeps-pure _

  from_Keeps :
      {A : Type 0} (m : Step A)
      → Keeps (Inv env cfg) m
      → Triple (Inv env cfg) m (λ _. Inv env cfg) (Inv env cfg)
  from_Keeps m k = Triple-Keeps (Inv env cfg) m k (λ s h. h) (λ s h. h)

-- an assertion that holds after each result and after each raise
always :
    {A : Type 0} (R : State → Type 0) (r : Result StepError A × State) → Ends (λ _. R) R r → R r.1
always R (ok a, s) h = h
always R (err e, s) h = h

module _ (env : World) (cfg : Config) (describe : StepError → String) where
  start_step-Keeps :
      (run_id as_of : ℕ) (prior : Option RunRow)
      → Triple
          (Inv env cfg)
          (start_step env cfg describe run_id as_of prior)
          (λ _. Inv env cfg)
          (Inv env cfg)
  unfolding start_step tell
  start_step-Keeps run_id as_of prior = Triple-gets _ _ _ (λ answer.
      Triple-modify (Inv env cfg) _ _ _ (λ s h. h.0)
        (Triple-lift _ _ _ (λ s h. h)
          (λ inputs _.
            Triple-lift _ _ _ (λ s h. h)
              (λ _ _.
                Triple-lift _ _ _ (λ s h. h)
                  (λ _ _.
                    Triple-bind _ (λ _. Inv env cfg) _ _
                      (from_Keeps env cfg _ (started_of-Keeps env cfg prior))
                      (λ started.
                        Triple-modify (Inv env cfg) _ (fresh (spent_before prior)) _ (λ s h. h)
                          (Triple-bind _ (λ _. Inv env cfg) _ _
                            (from_Keeps env cfg _
                              (seed_stored-Keeps env cfg run_id inputs.entities prior))
                            (λ _. attempted started inputs.entities))))))))
    where
      attempted :
          (started : ℕ) (entities : List Entity)
          → Triple
              (Inv env cfg)
              (attempt
                  (execute env cfg run_id as_of started entities)
                  (failed_with env cfg describe run_id as_of started entities)
                >>= maybe_execute env cfg)
              (λ _. Inv env cfg)
              (Inv env cfg)
      attempted started entities =
          Triple-bind _ (Told env cfg) _ _
            (Triple-attempt _ (Inv env cfg) _ _ (execute-Told env cfg run_id as_of started entities)
              (λ e.
                Triple-bind _ (λ _. Inv env cfg) _ _
                  (record_failure-Keeps env cfg run_id as_of started entities describe e)
                  (λ _. Triple-raise _ e (λ s h. h))))
            (maybe_execute-Keeps env cfg)

  stored-Told :
      (past : History) (prior : RunRow) (run_id as_of : ℕ) (reason : Option String)
      (book : Option Book)
      → env.load_run past run_id ≡ some prior
      → (s : State) → Inv env cfg s
      → Told env cfg (stored_result prior run_id as_of reason book) s
  stored-Told past prior run_id as_of reason book e s h =
      (h, λ k. inr (past, (prior, e, k)), λ k. inr (past, (prior, e, k)))

  resumed-Keeps :
      (past : History) (prior : RunRow) (run_id as_of : ℕ) (book : Option Book)
      → env.load_run past run_id ≡ some prior
      → Triple
          (Inv env cfg)
          (resumed env cfg describe prior run_id as_of book)
          (λ _. Inv env cfg)
          (Inv env cfg)
  unfolding resumed
  resumed-Keeps past prior run_id as_of book e =
      Triple-if _ (was_halted prior) _ _ (λ _. Triple-pure _ _ (λ s h. h))
        (λ _.
          Triple-if _ (member prior.status advanced) _ _
            (λ _.
              Triple-weaken (Told env cfg (stored_result prior run_id as_of none book)) _ _ _
                (maybe_execute-Keeps env cfg _) (stored-Told past prior run_id as_of none book e)
                (λ _ s h. h))
            (λ _. start_step-Keeps run_id as_of (some prior)))

  resume_step-Keeps :
      (past : History) (run_id as_of : ℕ) (prior : Option RunRow)
      → env.load_run past run_id ≡ prior
      → Triple
          (Inv env cfg)
          (resume_step env cfg describe run_id as_of prior)
          (λ _. Inv env cfg)
          (Inv env cfg)
  unfolding resume_step
  resume_step-Keeps past run_id as_of none e = start_step-Keeps run_id as_of none
  resume_step-Keeps past run_id as_of (some prior) e =
      Triple-lift _ _ _ (λ s h. h)
        (λ _ _. Triple-gets _ _ _ (λ book.
          Triple-weaken (Inv env cfg) _ _ _ (resumed-Keeps past prior run_id as_of book e)
            (λ s h. h.0) (λ _ s h. h)))

  named_run-Keeps :
      (run_id : Option ℕ) (as_of : ℕ)
      → Triple
          (Inv env cfg)
          (named_run env cfg describe run_id as_of)
          (λ _. Inv env cfg)
          (Inv env cfg)
  unfolding resume_step
  named_run-Keeps (some run_id) as_of =
      Triple-gets_from _ _ _
        (λ s. resume_step-Keeps s.events run_id as_of (env.load_run s.events run_id) refl)
  named_run-Keeps none as_of = Triple-gets _ _ _ (λ run_id.
      Triple-modify (Inv env cfg) _ _ _ (λ s h. h.0) (start_step-Keeps run_id as_of none))

  pub run_step-Keeps :
      (as_of run_id : Option ℕ)
      → Triple
          (Inv env cfg)
          (run_step env cfg describe as_of run_id)
          (λ _. Inv env cfg)
          (Inv env cfg)
  unfolding run_step
  run_step-Keeps as_of run_id = Triple-lift _ _ _ (λ s h. h) (λ t _. named_run-Keeps run_id t)

  -- Whether a step returns or raises, and whatever the agents, the sink and the stages do, its
  -- history stays sound: each flush of a committed run has the portfolio and the decisions that its
  -- commitment is of and every other flush has neither, a run is anchored only after it was flushed
  -- as committed or found so in the store, and executed only by a live orchestrator and after it
  -- was answered to be anchored or found so.
  pub run_step-Sound :
      (as_of run_id : Option ℕ) (s : State)
      → Sound env cfg s.events
      → Sound env cfg (run_step env cfg describe as_of run_id s).1.events
  run_step-Sound as_of run_id s h =
      always (Inv env cfg) (run_step env cfg describe as_of run_id s)
        ((run_step-Keeps as_of run_id).run s h)
