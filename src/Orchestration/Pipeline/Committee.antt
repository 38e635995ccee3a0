-- ===== src/Orchestration/Pipeline/Committee.antt =====
-- orchestration/pipeline.py: what an attempt computes from the verdicts.
use asymmetric_committee.Base.{
  take, ℕ, Bool, ◌&&◌, ◌||◌, Option, none, some, List, [], ◌∷◌, ◌++◌, Result, ok, and_then,
  if◌then◌else◌, ltb, leb, ◌==◌, sort_by,
}
use asymmetric_committee.Orchestration.Pipeline.{
  StepError, Entity, AgentVerdict, Pool, Forecast, Fit, CioDecision, CioResult, DecisionRecord,
  World, Config, lookup, required, id_of,
}

-- `d[k] = v`
abbrev pub put : {A : Type 0} → ℕ → A → List (ℕ × A) → List (ℕ × A)
put k a [] = (k, a) ∷ []
put k a ((j, b) ∷ rest) =
    let later = put k a rest in if j == k then (k, a) ∷ rest else (j, b) ∷ later

abbrev or_empty : Option (List AgentVerdict) → List AgentVerdict
or_empty none = []
or_empty (some vs) = vs

abbrev pub group_onto :
    List (ℕ × List AgentVerdict) → List AgentVerdict → List (ℕ × List AgentVerdict)
group_onto groups [] = groups
group_onto groups (v ∷ vs) =
    group_onto (put v.entity_token (or_empty (lookup v.entity_token groups) ++ v ∷ []) groups) vs

-- `_group`
unfoldable pub group : List AgentVerdict → List (ℕ × List AgentVerdict)
group = group_onto []

abbrev pub red_team_top_n : ℕ
red_team_top_n = 15

-- `PooledForecast.pool`
abbrev pub pool_at : ℕ → List Pool → Option Pool
pool_at h [] = none
pool_at h (p ∷ ps) = if p.horizon == h then some p else pool_at h ps

module _ (env : World) (cfg : Config) (entities : List Entity) where
  -- a group without a voting agent is left out
  abbrev pooled_onto :
      List (ℕ × Forecast) → ℕ → Option Forecast → Result StepError (List (ℕ × Forecast))
  pooled_onto pooled token none = ok pooled
  pooled_onto pooled token (some f) =
      and_then (required (id_of token entities)) (λ id. ok (put id f pooled))

  -- the loop that pools
  unfoldable pub pool_groups :
      List (ℕ × Forecast) → List (ℕ × List AgentVerdict) → Result StepError (List (ℕ × Forecast))
  pool_groups pooled [] = ok pooled
  pool_groups pooled ((token, vs) ∷ groups) =
      and_then (env.pool vs)
        (λ f. and_then (pooled_onto pooled token f) (λ pooled'. pool_groups pooled' groups))

  -- `pooled[s].pool(self._primary).logit`, with the security
  unfoldable pub logits : List (ℕ × Forecast) → Result StepError (List (ℕ × ℕ))
  logits [] = ok []
  logits ((id, f) ∷ rest) =
      and_then (required (pool_at cfg.primary f.pools))
        (λ pool. and_then (logits rest) (λ ls. ok ((pool.logit, id) ∷ ls)))

  abbrev pub stronger : ℕ × ℕ → ℕ × ℕ → Bool
  stronger a b = ltb b.0 a.0 || ((a.0 == b.0) && leb a.1 b.1)

  abbrev seconds : List (ℕ × ℕ) → List ℕ
  seconds [] = []
  seconds (p ∷ ps) = p.1 ∷ seconds ps

  -- `ranked[:RED_TEAM_TOP_N]`
  unfoldable pub red_team_ids : List (ℕ × Forecast) → Result StepError (List ℕ)
  unfolding logits
  red_team_ids pooled =
      and_then (logits pooled) (λ ls. ok (take red_team_top_n (seconds (sort_by stronger ls))))

  -- `_fits`
  unfoldable pub fits_of : List ℕ → Result StepError (List (ℕ × Fit))
  fits_of [] = ok []
  fits_of (h ∷ hs) = and_then (env.fit h) (λ f. and_then (fits_of hs) (λ fs. ok (put h f fs)))

  -- `bear`
  unfoldable pub bears :
      List (ℕ × Option ℕ) → List AgentVerdict → Result StepError (List (ℕ × Option ℕ))
  bears found [] = ok found
  bears found (r ∷ rs) =
      and_then (required (id_of r.entity_token entities))
        (λ id. bears (put id r.bear_severity found) rs)

  abbrev weight_of : Option ℕ → ℕ
  weight_of none = 0
  weight_of (some w) = w

  abbrev severity_of : Option (Option ℕ) → Option ℕ
  severity_of none = none
  severity_of (some b) = b

  abbrev actions_of : Option CioDecision → Bool → List (ℕ × ℕ)
  actions_of none alert = []
  actions_of (some d) alert = if alert then [] else d.actions

  abbrev rationale_of : Option CioDecision → Option ℕ
  rationale_of none = none
  rationale_of (some d) = some d.rationale

  module _ (fits : List (ℕ × Fit)) (bear : List (ℕ × Option ℕ)) (cio : CioResult)
      (calibrated : Bool) where
    abbrev decision_record : ℕ → ℕ → Pool → Fit → DecisionRecord
    decision_record id token pool fit = record {
      security_id = id;
      entity_token = token;
      horizon_days = pool.horizon;
      pooled_p = env.blend fit pool.logit;
      dispersion = pool.dispersion;
      bear_severity = severity_of (lookup id bear);
      target_weight = weight_of (lookup id cio.book.positions);
      calibrated = calibrated;
      cio_action = lookup token (actions_of cio.decision cio.alert);
      rationale = rationale_of cio.decision;
    }

    unfoldable pub pool_records : ℕ → ℕ → List Pool → Result StepError (List DecisionRecord)
    pool_records id token [] = ok []
    pool_records id token (pool ∷ pools) = and_then (required (lookup pool.horizon fits)) (λ fit.
        and_then (pool_records id token pools) (λ rs. ok (decision_record id token pool fit ∷ rs)))

    unfoldable pub records_of : List (ℕ × Forecast) → Result StepError (List DecisionRecord)
    unfolding pool_records
    records_of [] = ok []
    records_of ((id, f) ∷ rest) =
        and_then (pool_records id f.entity_token f.pools)
          (λ rs. and_then (records_of rest) (λ more. ok (rs ++ more)))

    -- `_decision_records`
    unfoldable pub decision_records : List (ℕ × Forecast) → Result StepError (List DecisionRecord)
    unfolding records_of
    decision_records pooled = records_of (sort_by (λ a b. leb a.0 b.0) pooled)
