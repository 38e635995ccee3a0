-- ===== src/Orchestration/Pipeline/Stops.antt =====
-- A backtest stops at the first step that is not done, and executes nothing. A halted run is never
-- resumed.
use asymmetric_committee.Base.{
  ℕ, ◌+◌, String, ◌≡◌, ◌⊎◌, inl, inr, refl, sym, subst, Bool, true, false, Option, some, List, [],
  ◌∷◌, ok, pure, raise, lift, gets, ◌>>=◌, Triple, Triple-pure, Triple-bind, Ends, Ends-weaken,
  arith, if◌then◌else◌,
}
use asymmetric_committee.Contracts.RunStatus.{member}
use asymmetric_committee.Evaluation.Scorable.{backtest}
use asymmetric_committee.Orchestration.Pipeline.{
  StepError, RunRow, StepResult, History, World, Config, State, was_halted, flushed, clock_read,
  agents_ran, cio_asked, loaded, new_run, anchored_run, executed_run,
}
use asymmetric_committee.Orchestration.Pipeline.Resume.{
  is_live, same_mode, step_done, run_step, run_steps, run_backtest, weekly_steps, with_resume,
  go_on, stored_result, check_same_run, resume_step, resumed,
}
use asymmetric_committee.Orchestration.Pipeline.Sealed.{Sound, Inv}
use asymmetric_committee.Orchestration.Pipeline.Stages.{run_step-Keeps}

-- The runs that were handed to execution
abbrev pub executions : History → ℕ
executions [] = 0
executions (executed_run id ∷ h) = 1 + executions h
executions (e ∷ h) = executions h

-- One result for each step, up to the first that is not done.
abbrev pub Stopped : List (ℕ × Option ℕ) → List StepResult → Type 0
Stopped [] rs = rs ≡ []
Stopped (t ∷ ts) [] = ⊥
Stopped (t ∷ ts) (r ∷ rs) =
    ((member r.status step_done ≡ true) × Stopped ts rs)
    ⊎ ((member r.status step_done ≡ false) × (rs ≡ []))

module _ (env : World) (cfg : Config) where
  Sound-executions : (h : History) → Sound env cfg h → is_live cfg.mode ≡ false → executions h ≡ 0
  Sound-executions [] sound dead = refl
  Sound-executions (executed_run id ∷ h) (live_, _, sound) dead = absurd (cc)
  Sound-executions (flushed t a ∷ h) (_, sound) dead = Sound-executions h sound dead
  Sound-executions (anchored_run id ∷ h) (_, sound) dead = Sound-executions h sound dead
  Sound-executions (new_run ∷ h) sound dead = Sound-executions h sound dead
  Sound-executions (loaded ∷ h) sound dead = Sound-executions h sound dead
  Sound-executions (clock_read ∷ h) sound dead = Sound-executions h sound dead
  Sound-executions (agents_ran ∷ h) sound dead = Sound-executions h sound dead
  Sound-executions (cio_asked ∷ h) sound dead = Sound-executions h sound dead

  module _ (describe : StepError → String) where
    run_steps-Stopped :
        (steps : List (ℕ × Option ℕ))
        → Triple
            (Inv env cfg)
            (run_steps env cfg describe steps)
            (λ rs s. Inv env cfg s × Stopped steps rs)
            (Inv env cfg)
    unfolding run_steps
    run_steps-Stopped [] = Triple-pure _ [] (λ s h. (h, refl))
    run_steps-Stopped ((as_of, resume) ∷ steps) =
        Triple-bind _ (λ _. Inv env cfg) _ _ (run_step-Keeps env cfg describe (some as_of) resume)
          (λ r. go r (run_steps-Stopped steps) (member r.status step_done) refl)
      where
        go :
            (r : StepResult)
            → Triple
                (Inv env cfg)
                (run_steps env cfg describe steps)
                (λ rs s. Inv env cfg s × Stopped steps rs)
                (Inv env cfg)
            → (done : Bool) → member r.status step_done ≡ done
            → Triple
                (Inv env cfg)
                (go_on r done (run_steps env cfg describe steps))
                (λ rs s. Inv env cfg s × Stopped ((as_of, resume) ∷ steps) rs)
                (Inv env cfg)
        go r rest true e =
            Triple-bind _ _ _ _ rest (λ rs. Triple-pure _ _ (λ s h. (h.0, inl (e, h.1))))
        go r rest false e = Triple-pure _ _ (λ s h. (h, inr (e, refl)))

    backtest-dead : same_mode cfg.mode backtest ≡ true → is_live cfg.mode ≡ false
    backtest-dead h = ground arith

    -- A backtest that starts with an empty history executes no run, whether it returns or raises.
    -- When it returns there is one result for each weekly step up to the first that is not done.
    pub run_backtest-Stopped :
        (days start end : ℕ) (resume : List (ℕ × ℕ)) (s : State)
        → s.events ≡ []
        → Ends
            (λ rs s'.
              (executions s'.events ≡ 0)
              × Stopped (with_resume resume (weekly_steps days start end)) rs)
            (λ s'. executions s'.events ≡ 0)
            (run_backtest env cfg describe days start end resume s)
    unfolding run_backtest raise
    run_backtest-Stopped days start end resume s h = go (same_mode cfg.mode backtest) refl
      where
        steps : List (ℕ × Option ℕ)
        steps = with_resume resume (weekly_steps days start end)

        go :
            (b : Bool)
            → same_mode cfg.mode backtest ≡ b
            → Ends
                (λ rs s'. (executions s'.events ≡ 0) × Stopped steps rs)
                (λ s'. executions s'.events ≡ 0)
                ((if b then run_steps env cfg describe steps else raise StepError.value_error) s)
        go false e = rw h refl
        go true e =
            Ends-weaken (run_steps env cfg describe steps s)
              (λ rs s' k. (Sound-executions s'.events k.0 (backtest-dead e), k.1))
              (λ s' k. Sound-executions s'.events k (backtest-dead e))
              ((run_steps-Stopped steps).run s (subst (Sound env cfg) (sym h) tt))

    -- A run that a halt moved to PARTIAL is answered as it is stored, and nothing is done.
    pub run_step-halted :
        (as_of run_id : ℕ) (prior : RunRow) (s : State)
        → env.load_run s.events run_id ≡ some prior
        → check_same_run env cfg prior as_of ≡ ok tt
        → was_halted prior ≡ true
        → run_step env cfg describe (some as_of) (some run_id) s ≡ (
          ok (stored_result prior run_id as_of prior.status_reason (env.load_book s.events run_id)),
          s,
        )
    unfolding run_step resume_step resumed ◌>>=◌ gets lift pure
    run_step-halted as_of run_id prior s stored same_run halt = rw (stored, same_run, halt) refl
