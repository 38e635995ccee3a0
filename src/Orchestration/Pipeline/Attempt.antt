-- ===== src/Orchestration/Pipeline/Attempt.antt =====
-- orchestration/pipeline.py: one attempt, from the votes to the flush.
use Prim.Native.String.{◌++◌ as ◌<>◌}
use asymmetric_committee.Base.{
  ℕ, String, ◌+◌, Bool, true, false, not, Option, none, some, List, [], ◌∷◌, ◌++◌, Result, ok, err,
  and_then, pure, raise, lift, gets, modify, attempt, ◌>>=◌, ◌>>◌, if◌then◌else◌, ◌==◌, any, filter,
}
use asymmetric_committee.Contracts.RunStatus.{RunStatus, partial, committed, failed}
use asymmetric_committee.Orchestration.Pipeline.{
  StepError, Entity, AgentVerdict, Key, verdict_key, has_key, Forecast, Fit, Book, CioResult,
  CioError, aborts, raises, Answer, RunRow, Portfolio, StepArtifacts, StepResult, World, Config,
  State, Step, tell, lookup, required, id_of, flushed, clock_read, agents_ran, cio_asked,
}
use asymmetric_committee.Orchestration.Pipeline.Committee.{
  group, pool_groups, red_team_ids, fits_of, bears, decision_records,
}

-- `pooled`, the fits and the severities, with the book of `size_committee_book`
pub record Sized : Type 0 where
  pub pooled : List (ℕ × Forecast)
  pub fits : List (ℕ × Fit)
  pub fit : Fit
  pub bear : List (ℕ × Option ℕ)
  pub book : Book

abbrev pub raising : Option StepError → Step Unit
raising none = pure tt
raising (some e) = raise e

abbrev pub taken : Option StepError → Bool
taken none = true
taken (some _) = false

abbrev pub no_positions : Book → Bool
no_positions book = elim book.positions [ [] ↦ true | p ∷ ps ↦ false ]

abbrev pub undecided : Book → CioResult → Bool
undecided book cio = elim cio.decision [ none ↦ not (no_positions book) | some d ↦ false ]

module _ (env : World) (cfg : Config) where
  -- `self._clock()`
  unfoldable pub now : Step ℕ
  unfolding tell
  now = do t ← gets (λ s. env.clock s.events); tell clock_read; pure t

  -- `self._sink.flush_step`
  unfoldable pub flush_step : StepArtifacts → Step Unit
  unfolding tell
  flush_step step = do
    e ← gets (λ s. env.flush s.events step)
    tell (flushed (taken e) step)
    raising e

  -- `_run_record`, with the cost so far; a reason is kept whole here
  abbrev pub run_record : ℕ → ℕ → ℕ → ℕ → RunStatus → ℕ → Option String → RunRow
  run_record run_id as_of started spent status ended reason = record {
    run_id = run_id;
    mode = cfg.mode;
    as_of = as_of;
    config_hash = cfg.hash;
    status = status;
    started_at = started;
    ended_at = ended;
    status_reason = reason;
    total_cost = spent;
  }

  abbrev keep_key : Bool → State → Key → Result StepError (List Key) → Result StepError (List Key)
  keep_key complete s key rest =
      if has_key s.stored key
      then rest
      else if has_key s.telemetry key
      then and_then rest (λ keys. ok (key ∷ keys))
      else if complete
      then err StepError.no_telemetry
      else rest

  -- the loop of `_new_verdict_records`
  unfoldable pub keys_of :
      Bool → List Entity → State → List AgentVerdict → Result StepError (List Key)
  keys_of complete entities s [] = ok []
  keys_of complete entities s (v ∷ vs) =
      let rest = keys_of complete entities s vs in
      and_then (required (id_of v.entity_token entities))
        (λ id. keep_key complete s (verdict_key v id) rest)

  -- `_new_verdict_records`
  unfoldable pub new_verdict_records : Bool → List Entity → State → Result StepError (List Key)
  unfolding keys_of
  new_verdict_records complete entities s = keys_of complete entities s (s.voters ++ s.reds)

  -- the artifacts of a step without a book
  abbrev pub without_book : RunRow → List Key → List ℕ → StepArtifacts
  without_book run verdicts dlq = record {
    run = run;
    verdicts = verdicts;
    decisions = [];
    portfolio = none;
    commitment = none;
    dlq = dlq;
  }

  module _ (run_id as_of started : ℕ) (entities : List Entity) where
    -- `_flush_partial`
    unfoldable pub flush_partial : String → Step StepResult
    unfolding now flush_step new_verdict_records
    flush_partial reason = do
      ended ← now
      s ← gets (λ s. s)
      verdicts ← lift (new_verdict_records true entities s)
      flush_step (
          without_book (run_record run_id as_of started s.spent partial ended (some reason))
            verdicts s.dlq)
      pure (record {
        run_id = run_id;
        as_of = as_of;
        status = partial;
        book = none;
        cost = s.spent;
        reason = some reason;
      })

    -- the flush of `_record_failure`, whose own errors are not raised; `describe` gives the reason
    unfoldable pub record_failure : (StepError → String) → StepError → Step Unit
    unfolding now flush_step new_verdict_records
    record_failure describe e =
        attempt
          (do
            ended ← now
            s ← gets (λ s. s)
            verdicts ← lift (new_verdict_records false entities s)
            flush_step (
                without_book
                  (run_record run_id as_of started s.spent failed ended (some (describe e)))
                  verdicts s.dlq))
          (λ _. pure tt)

    abbrev votes : List AgentVerdict → List AgentVerdict
    votes = filter (λ v. not v.is_red)

    abbrev reds_of : List AgentVerdict → List AgentVerdict
    reds_of = filter (λ v. v.is_red)

    -- the collection of verdicts by `sink`, the dead letters and the budget
    abbrev collected : Answer → State → State
    collected a s = record s {
      events = agents_ran ∷ s.events;
      voters = s.voters ++ votes a.verdicts;
      reds = s.reds ++ reds_of a.verdicts;
      spent = s.spent + a.cost;
      dlq = s.dlq ++ a.letters;
    }

    abbrev with_telemetry : Option String × List Key × List Key → State → State
    with_telemetry r s = record s { telemetry = s.telemetry ++ r.2 }

    -- `call`
    unfoldable pub call_agents :
        List Entity → List ℕ → List Key → Step (Option String × List Key × List Key)
    call_agents es red_ids done = do
      a ← gets (λ s. env.run_agents s.events es red_ids done)
      modify (collected a)
      r ← lift a.result
      modify (with_telemetry r)
      pure r

    abbrev asks_cio : Book → State → List ℕ × ℕ × Result CioError CioResult
    asks_cio book s = env.cio s.events book s.reds

    abbrev after_cio : List ℕ → ℕ → State → State
    after_cio letters cost s = record s {
      events = cio_asked ∷ s.events;
      spent = s.spent + cost;
      dlq = s.dlq ++ letters;
    }

    abbrev size : List (ℕ × Forecast) → List AgentVerdict → Result StepError Sized
    size pooled reds = and_then (fits_of env cfg entities cfg.horizons) (λ fits.
        and_then (required (lookup cfg.primary fits)) (λ fit.
          and_then (bears env cfg entities [] reds) (λ bear.
            and_then (env.size_book pooled bear entities fit) (λ book.
              ok (record { pooled = pooled; fits = fits; fit = fit; bear = bear; book = book })))))

    abbrev snapshot_of : CioResult → Portfolio
    snapshot_of cio = record { run_id = run_id; book = cio.book; decision = cio.decision }

    -- the commitment and the flush
    unfoldable pub commit : Sized → CioResult → Step StepResult
    unfolding now flush_step new_verdict_records
    commit sized cio = do
      records ← lift (
          decision_records env cfg entities sized.fits sized.bear cio sized.fit.active sized.pooled)
      ended ← now
      s ← gets (λ s. s)
      verdicts ← lift (new_verdict_records true entities s)
      sha256 ← lift (
          env.hash_commitment (run_record run_id as_of started s.spent committed ended none) records
            (snapshot_of cio))
      flush_step (record {
        run = run_record run_id as_of started s.spent committed ended none;
        verdicts = verdicts;
        decisions = records;
        portfolio = some (snapshot_of cio);
        commitment = some sha256;
        dlq = s.dlq;
      })
      pure (record {
        run_id = run_id;
        as_of = as_of;
        status = committed;
        book = some cio.book;
        cost = s.spent;
        reason = none;
      })

    unfoldable pub review : Sized → Result CioError CioResult → Step StepResult
    unfolding flush_partial commit
    review sized (ok cio) =
        if undecided sized.book cio
        then flush_partial "CIO produced no valid decision"
        else commit sized cio
    review sized (err (aborts name)) = flush_partial ("CIO aborted: " <> name)
    review sized (err (raises e)) = raise e

    -- from the sizing of the book on
    unfoldable pub decide_book : List (ℕ × Forecast) → Step StepResult
    unfolding review
    decide_book pooled = do
      sized ← gets (λ s. size pooled s.reds) >>= lift
      (letters, cost, answer) ← gets (asks_cio sized.book)
      modify (after_cio letters cost)
      review sized answer

    abbrev members_of : List ℕ → List Entity → List Entity
    members_of ids = filter (λ e. any (λ i. i == e.security_id) ids)

    -- the second call, of the red team, where there is anyone to review
    unfoldable pub red_team : List (ℕ × Forecast) → List ℕ → List Key → Step StepResult
    unfolding call_agents flush_partial decide_book
    red_team pooled [] done = decide_book pooled
    red_team pooled (id ∷ ids) done = do
      (aborted, _, _) ← call_agents (members_of (id ∷ ids) entities) (id ∷ ids) done
      elim aborted [ none ↦ decide_book pooled | some _ ↦ flush_partial "red team stage aborted" ]

    -- from the votes on
    unfoldable pub pool_votes : List Key → Step StepResult
    unfolding red_team
    pool_votes done = do
      voters ← gets (λ s. s.voters)
      pooled ← lift (pool_groups env cfg entities [] (group voters))
      ids ← lift (red_team_ids env cfg entities pooled)
      red_team pooled ids done

    -- `_execute`
    unfoldable pub execute : Step StepResult
    unfolding call_agents flush_partial pool_votes
    execute = do
      stored ← gets (λ s. s.stored)
      (aborted, completed, _) ← call_agents entities [] stored
      elim aborted [
        | none ↦ pool_votes (stored ++ completed)
        | some reasons ↦ flush_partial ("voting stage aborted: " <> reasons)
      ]
