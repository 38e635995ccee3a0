-- ===== src/Orchestration/Pipeline/Sealed.antt =====
-- What a step leaves in its history: every flush is sealed, and no stage runs too early.
use Prim.Native.String.{◌++◌ as ◌<>◌}
use asymmetric_committee.Base.{
  ℕ, String, ◌≡◌, ◌⊎◌, inl, inr, refl, true, Option, none, some, List, [], ◌∷◌, ◌++◌, Result, ok,
  err, Elem, ◌>>=◌, Keeps, Keeps-pure, Keeps-lift, Keeps-gets, Keeps-modify, Keeps-bind, Triple,
  Triple-pure, Triple-raise, Triple-if, Triple-Keeps, Triple-weaken, Triple-attempt, Triple-bind,
  Triple-gets, Triple-lift, Triple-modify,
}
use asymmetric_committee.Contracts.RunStatus.{partial, committed, anchored, failed}
use asymmetric_committee.Orchestration.Pipeline.{
  StepError, Entity, Key, Forecast, CioResult, CioError, aborts, raises, RunRow, Portfolio,
  StepArtifacts, StepResult, History, World, Config, State, tell, flushed, clock_read, agents_ran,
  cio_asked, loaded, new_run, anchored_run, executed_run,
}
use asymmetric_committee.Orchestration.Pipeline.Attempt.{
  Sized, now, flush_step, flush_partial, record_failure, call_agents, commit, review, decide_book,
  red_team, pool_votes, execute, raising, taken, undecided, new_verdict_records,
}
use asymmetric_committee.Orchestration.Pipeline.Resume.{is_live}

module _ (env : World) (cfg : Config) where
  -- Artifacts with a commitment are those of a committed run, with the portfolio and the decisions
  -- that the commitment is of. Others are of a partial or failed run, with neither.
  abbrev pub Sealed : StepArtifacts → Type 0
  Sealed a = elim a.commitment [
    | none ↦
        ((a.run.status ≡ partial) ⊎ (a.run.status ≡ failed))
        × (a.decisions ≡ [])
        × (a.portfolio ≡ none)
    | some sha256 ↦
        (a.run.status ≡ committed)
        × ((p : Portfolio) × (a.portfolio ≡ some p)
            × (env.hash_commitment a.run a.decisions p ≡ ok sha256))
  ]

  -- The run was flushed as committed, or was stored as such when it was read.
  abbrev pub CommittedBefore : ℕ → History → Type 0
  CommittedBefore id h =
      ((a : StepArtifacts) × Elem (flushed true a) h
        × (a.run.run_id ≡ id)
        × (a.run.status ≡ committed))
      ⊎ ((past : History) × ((p : RunRow) × (env.load_run past id ≡ some p)
            × (p.status ≡ committed)))

  -- The run was anchored, and is so by the answer, or was stored as such when it was read.
  abbrev pub AnchoredBefore : ℕ → History → Type 0
  AnchoredBefore id h =
      ((past : History) × Elem (anchored_run id) h × (env.anchor_run past id ≡ ok anchored))
      ⊎ ((past : History) × ((p : RunRow) × (env.load_run past id ≡ some p)
            × (p.status ≡ anchored)))

  abbrev pub Sound : History → Type 0
  Sound [] = Unit
  Sound (flushed taken a ∷ h) = Sealed a × Sound h
  Sound (anchored_run id ∷ h) = CommittedBefore id h × Sound h
  Sound (executed_run id ∷ h) = (is_live cfg.mode ≡ true) × AnchoredBefore id h × Sound h
  Sound (new_run ∷ h) = Sound h
  Sound (loaded ∷ h) = Sound h
  Sound (clock_read ∷ h) = Sound h
  Sound (agents_ran ∷ h) = Sound h
  Sound (cio_asked ∷ h) = Sound h

  abbrev pub Inv : State → Type 0
  Inv s = Sound s.events

  pub now-Keeps : Keeps Inv (now env cfg)
  unfolding now tell
  now-Keeps =
      Keeps-bind _ _ (Keeps-gets _)
        (λ t. Keeps-bind _ _ (Keeps-modify _ (λ s h. h)) (λ _. Keeps-pure t))

  call_agents-Keeps :
      (run_id as_of started : ℕ) (all_entities es : List Entity) (red_ids : List ℕ)
      (done : List Key)
      → Keeps Inv (call_agents env cfg run_id as_of started all_entities es red_ids done)
  unfolding call_agents
  call_agents-Keeps run_id as_of started all_entities es red_ids done =
      Keeps-bind _ _ (Keeps-gets _) (λ a. Keeps-bind _ _ (Keeps-modify _ (λ s h. h)) (λ _.
        Keeps-bind _ _ (Keeps-lift a.result)
          (λ r. Keeps-bind _ _ (Keeps-modify _ (λ s h. h)) (λ _. Keeps-pure r))))

  abbrev FlushedNow : StepArtifacts → State → Type 0
  FlushedNow a s = Inv s × Elem (flushed true a) s.events

  raising-Flushed :
      (a : StepArtifacts)
      → Sealed a
      → (e : Option StepError)
      → Triple Inv (tell (flushed (taken e) a) >>= λ _. raising e) (λ _. FlushedNow a) Inv
  unfolding tell
  raising-Flushed a sealed none =
      Triple-modify (FlushedNow a) _ _ _ (λ s h. ((sealed, h), inl refl))
        (Triple-pure _ tt (λ s h. h))
  raising-Flushed a sealed (some e) =
      Triple-modify Inv _ _ _ (λ s h. (sealed, h)) (Triple-raise _ e (λ s h. h))

  flush_step-Flushed :
      (a : StepArtifacts) → Sealed a → Triple Inv (flush_step env cfg a) (λ _. FlushedNow a) Inv
  unfolding flush_step tell
  flush_step-Flushed a sealed =
      Triple-gets _ _ _
        (λ e. Triple-weaken Inv _ _ _ (raising-Flushed a sealed e) (λ s h. h.0) (λ _ s h. h))

  -- A result that tells of a committed or an anchored run tells the truth.
  abbrev pub Told : StepResult → State → Type 0
  Told r s =
      Inv s
      × (r.status ≡ committed → CommittedBefore r.run_id s.events)
      × (r.status ≡ anchored → AnchoredBefore r.run_id s.events)

  module _ (run_id as_of started : ℕ) (entities : List Entity) where
    flush_partial-Told :
        (reason : String)
        → Triple Inv (flush_partial env cfg run_id as_of started entities reason) Told Inv
    unfolding flush_partial now flush_step new_verdict_records
    flush_partial-Told reason =
        Triple-bind _ (λ _. Inv) _ _ (Triple-Keeps Inv _ now-Keeps (λ s h. h) (λ s h. h))
          (λ ended. Triple-gets _ _ _ (λ s.
            Triple-lift _ _ _ (λ s h. h.0)
              (λ keys e.
                Triple-bind _ (λ _. Inv) _ _
                  (Triple-weaken Inv _ _ _ (flush_step-Flushed _ (inl refl, refl, refl))
                    (λ s h. h.0) (λ _ s h. h.0))
                  (λ _. Triple-pure _ _ (λ s h. (h, λ k. absurd (cc), λ k. absurd (cc)))))))

    commit-Told :
        (sized : Sized) (cio : CioResult)
        → Triple Inv (commit env cfg run_id as_of started entities sized cio) Told Inv
    unfolding commit now flush_step new_verdict_records
    commit-Told sized cio =
        Triple-lift _ _ _ (λ s h. h)
          (λ records _.
            Triple-bind _ (λ _. Inv) _ _ (Triple-Keeps Inv _ now-Keeps (λ s h. h) (λ s h. h))
              (λ ended. Triple-gets _ _ _ (λ s.
                Triple-lift _ _ _ (λ s h. h.0)
                  (λ keys _.
                    Triple-lift _ _ _ (λ s h. h.0)
                      (λ sha256 e.
                        Triple-bind _ (λ _. FlushedNow _) _ _
                          (Triple-weaken Inv _ _ _ (flush_step-Flushed _ (refl, (_, refl, e)))
                            (λ s h. h.0) (λ _ s h. h))
                          (λ _.
                            Triple-pure _ _
                              (λ s h. (h.0, λ k. inl (_, h.1, refl, refl), λ k. absurd (cc)))))))))

    review-Told :
        (sized : Sized) (answer : Result CioError CioResult)
        → Triple Inv (review env cfg run_id as_of started entities sized answer) Told Inv
    unfolding review
    review-Told sized (ok cio) =
        Triple-if _ (undecided sized.book cio) _ _
          (λ _. flush_partial-Told "CIO produced no valid decision") (λ _. commit-Told sized cio)
    review-Told sized (err (aborts name)) = flush_partial-Told _
    review-Told sized (err (raises e)) = Triple-raise _ e (λ s h. h)

    decide_book-Told :
        (pooled : List (ℕ × Forecast))
        → Triple Inv (decide_book env cfg run_id as_of started entities pooled) Told Inv
    unfolding decide_book
    decide_book-Told pooled =
        Triple-bind _ (λ _. Inv) _ _
          (Triple-Keeps Inv _ (Keeps-bind _ _ (Keeps-gets _) (λ r. Keeps-lift r)) (λ s h. h)
            (λ s h. h))
          (λ sized.
            Triple-gets _ _ _ (λ a. Triple-modify Inv _ _ _ (λ s h. h.0) (review-Told sized a.2)))

    red_team-Told :
        (pooled : List (ℕ × Forecast)) (ids : List ℕ) (done : List Key)
        → Triple Inv (red_team env cfg run_id as_of started entities pooled ids done) Told Inv
    unfolding red_team
    red_team-Told pooled [] done = decide_book-Told pooled
    red_team-Told pooled (id ∷ ids) done =
        Triple-bind _ (λ _. Inv) _ _
          (Triple-Keeps Inv _ (call_agents-Keeps run_id as_of started entities _ _ done) (λ s h. h)
            (λ s h. h))
          (λ r. go r.0)
      where
        go :
            (aborted : Option String)
            → Triple Inv
                (elim aborted [
                  | none ↦ decide_book env cfg run_id as_of started entities pooled
                  | some _ ↦
                      flush_partial env cfg run_id as_of started entities "red team stage aborted"
                ])
                Told
                Inv
        go none = decide_book-Told pooled
        go (some _) = flush_partial-Told "red team stage aborted"

    pool_votes-Told :
        (done : List Key)
        → Triple Inv (pool_votes env cfg run_id as_of started entities done) Told Inv
    unfolding pool_votes
    pool_votes-Told done = Triple-gets _ _ _ (λ voters.
        Triple-weaken Inv _ _ _
          (Triple-lift _ _ _ (λ s h. h)
            (λ pooled _. Triple-lift _ _ _ (λ s h. h) (λ ids _. red_team-Told pooled ids done)))
          (λ s h. h.0) (λ _ s h. h))

    pub execute-Told : Triple Inv (execute env cfg run_id as_of started entities) Told Inv
    unfolding execute
    execute-Told = Triple-gets _ _ _ (λ stored.
        Triple-bind _ (λ _. Inv) _ _
          (Triple-Keeps Inv _ (call_agents-Keeps run_id as_of started entities entities [] stored)
            (λ s h. h.0) (λ s h. h))
          (λ r. go stored r.1 r.0))
      where
        go :
            (stored completed : List Key) (aborted : Option String)
            → Triple Inv
                (elim aborted [
                  | none ↦ pool_votes env cfg run_id as_of started entities (stored ++ completed)
                  | some reasons ↦
                      flush_partial env cfg run_id as_of started entities
                        ("voting stage aborted: " <> reasons)
                ])
                Told
                Inv
        go stored completed none = pool_votes-Told (stored ++ completed)
        go stored completed (some reasons) = flush_partial-Told _

    pub record_failure-Keeps :
        (describe : StepError → String) (e : StepError)
        → Triple Inv
            (record_failure env cfg run_id as_of started entities describe e)
            (λ _. Inv)
            Inv
    unfolding record_failure now flush_step new_verdict_records
    record_failure-Keeps describe e =
        Triple-attempt _ Inv _ _
          (Triple-bind _ (λ _. Inv) _ _ (Triple-Keeps Inv _ now-Keeps (λ s h. h) (λ s h. h))
            (λ ended. Triple-gets _ _ _ (λ s.
              Triple-lift _ _ _ (λ s h. h.0)
                (λ keys _.
                  Triple-weaken Inv _ _ _ (flush_step-Flushed _ (inr refl, refl, refl)) (λ s h. h.0)
                    (λ _ s h. h.0)))))
          (λ _. Triple-pure _ tt (λ s h. h))
