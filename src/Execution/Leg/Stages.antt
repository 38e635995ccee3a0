-- ===== src/Execution/Leg/Stages.antt =====
-- What each step keeps of a leg, in the stage in which `execute_book` takes it.
use asymmetric_committee.Base.{
  ℕ, ◌≡◌, Bool, false, Option, none, some, arith, ok, Keeps, keeps_rules, ◌>>=◌,
}
use asymmetric_committee.Execution.Gateway.{BrokerOrder, Env, World, call, M}
use asymmetric_committee.Execution.Leg.{
  ExecutionTarget, Leg, LegState, Settings, shared, update_leg, new_leg, note, get_reference, block,
  open_for_submit, resolve_reference, send_limit, submit_limit, cancel_working, cancel_known,
  cancel_limit, send_market, market_known, submit_market,
}
use asymmetric_committee.Execution.Leg.Residual.{same, note-Unmoved, get_reference-Unmoved}

-- Before the limits are closed: no market order and no residual.
pub record Early (t : ExecutionTarget) (l : Leg) : Type 0 where
  pub target : l.target ≡ t
  pub error : l.error ≡ none
  pub market_order : l.market_order ≡ none
  pub residual_pending : l.residual_pending ≡ false

-- The limit, and all that was concluded from it, is as in `l`.
pub record SameLimit (l m : Leg) : Type 0 where
  pub target : m.target ≡ l.target
  pub limit_order : m.limit_order ≡ l.limit_order
  pub error : m.error ≡ l.error

-- A new leg is in the early stage.
pub new_leg-Early :
    (env : Env) (settings : Settings) (t : ExecutionTarget) (w w' : World) (l : Leg)
    → new_leg env settings t w ≡ (ok l, w')
    → Early t l
unfolding new_leg call ◌>>=◌
new_leg-Early env settings t w w' l h = ground arith

module _ (env : Env) (settings : Settings) (t : ExecutionTarget) where
  abbrev IsEarly : LegState → Type 0
  IsEarly s = Early t s.leg

  shared-Early : {A : Type 0} (m : M A) → Keeps IsEarly (shared m)
  unfolding shared
  shared-Early m = record { at = λ s h. h }

  note-Early : (o : BrokerOrder) → Keeps IsEarly (note env settings o)
  note-Early o = record {
    at = λ s h. ground (arith, (note-Unmoved env settings s.leg o).at s (same s.leg));
  }

  get_reference-Early : Keeps IsEarly (get_reference env settings)
  get_reference-Early = record {
    at = λ s h. ground (arith, (get_reference-Unmoved env settings s.leg).at s (same s.leg));
  }

  blocked-Early : Keeps IsEarly (block env settings)
  unfolding block update_leg
  blocked-Early = record { at = λ s h. ground arith }

  price-Early : (p : ℕ) → Keeps IsEarly (update_leg (λ l. record l { price = some p }))
  unfolding update_leg
  price-Early p = record { at = λ s h. ground arith }

  limit-Early :
      (o : BrokerOrder) → Keeps IsEarly (update_leg (λ l. record l { limit_order = some o }))
  unfolding update_leg
  limit-Early o = record { at = λ s h. ground arith }

  pub fresh-Early : (b : Bool) → Keeps IsEarly (update_leg (λ l. record l { fresh = b }))
  unfolding update_leg
  fresh-Early b = record { at = λ s h. ground arith }

  ruleset early_rules = (
    keeps_rules, shared-Early, note-Early, get_reference-Early, blocked-Early, price-Early,
    limit-Early, fresh-Early,
  )

  pub open_for_submit-Early : Keeps IsEarly (open_for_submit env settings)
  unfolding open_for_submit
  open_for_submit-Early = search early_rules depth 8

  pub resolve_reference-Early : Keeps IsEarly (resolve_reference env settings)
  unfolding resolve_reference
  resolve_reference-Early = search early_rules

  send_limit-Early :
      (u : ExecutionTarget) (p : Option ℕ) → Keeps IsEarly (send_limit env settings u p)
  unfolding send_limit
  send_limit-Early u none = search early_rules
  send_limit-Early u (some p) = search early_rules depth 8

  pub submit_limit-Early : Keeps IsEarly (submit_limit env settings)
  unfolding submit_limit
  submit_limit-Early = search (early_rules, send_limit-Early) depth 8

  cancel_working-Early : (o : BrokerOrder) → Keeps IsEarly (cancel_working env settings o)
  unfolding cancel_working
  cancel_working-Early o = search early_rules depth 8

  cancel_known-Early : (o : Option BrokerOrder) → Keeps IsEarly (cancel_known env settings o)
  unfolding cancel_known
  cancel_known-Early none = search early_rules
  cancel_known-Early (some o) = search (early_rules, cancel_working-Early)

  pub cancel_limit-Early : Keeps IsEarly (cancel_limit env settings)
  unfolding cancel_limit
  cancel_limit-Early = search (early_rules, cancel_known-Early)

module _ (env : Env) (settings : Settings) (k : Leg) where
  abbrev HasLimit : LegState → Type 0
  HasLimit s = SameLimit k s.leg

  shared-SameLimit : {A : Type 0} (m : M A) → Keeps HasLimit (shared m)
  unfolding shared
  shared-SameLimit m = record { at = λ s h. h }

  note-SameLimit : (o : BrokerOrder) → Keeps HasLimit (note env settings o)
  note-SameLimit o = record {
    at = λ s h. ground (arith, (note-Unmoved env settings s.leg o).at s (same s.leg));
  }

  blocked-SameLimit : Keeps HasLimit (block env settings)
  unfolding block update_leg
  blocked-SameLimit = record { at = λ s h. ground arith }

  market-SameLimit :
      (o : BrokerOrder) → Keeps HasLimit (update_leg (λ l. record l { market_order = some o }))
  unfolding update_leg
  market-SameLimit o = record { at = λ s h. ground arith }

  ruleset limit_rules =
      (keeps_rules, shared-SameLimit, note-SameLimit, blocked-SameLimit, market-SameLimit)

  send_market-SameLimit : (l : Leg) → Keeps HasLimit (send_market env settings l)
  unfolding send_market
  send_market-SameLimit l = search limit_rules depth 8

  market_known-SameLimit :
      (l : Leg) (o : Option BrokerOrder) → Keeps HasLimit (market_known env settings l o)
  unfolding market_known
  market_known-SameLimit l none = search (limit_rules, send_market-SameLimit) depth 8
  market_known-SameLimit l (some o) = search limit_rules

  -- The market leg leaves the limit and the target alone.
  pub submit_market-SameLimit : Keeps HasLimit (submit_market env settings)
  unfolding submit_market
  submit_market-SameLimit = search (limit_rules, market_known-SameLimit) depth 8
