-- ===== src/Execution/Leg/Adds.antt =====
-- How many orders the steps that submit add under one client id.
use asymmetric_committee.Base.{
  ℕ, ◌+◌, ◌≤◌, ◌≡◌, refl, Option, none, some, ◌∷◌, arith, Keeps, attempt, handled, ◌>>=◌,
  if◌then◌else◌, Result, ok, err, inl, inr, Keeps-bind, bind_at, raise, Bool-cases, continue,
}
use asymmetric_committee.Risk.KillSwitch.{allows}
use asymmetric_committee.Execution.Gateway.{
  Error, ClientId, BrokerOrder, Env, World, Call, call, History,
}
use asymmetric_committee.Execution.Leg.{
  ExecutionTarget, Leg, LegState, Step, Settings, shared, update_leg, new_leg, lim_id, mkt_id,
  block, submit_once, reconcile, send_limit, submit_limit, send_market, market_known, submit_market,
}
use asymmetric_committee.Execution.Leg.Submissions.{
  submits, submissions, limit_hit, market_hit, AtMost, Quiet, reconcile-AtMost, limit-Quiet,
  market-Quiet, note-Quiet,
}

-- Submitting one order and reconciling it makes one submission, whatever was answered.
submit_once-adds :
    (env : Env) (settings : Settings) (cid c : ClientId) (order : Call)
    (answer : History → Result Error BrokerOrder) (w : World)
    → submissions cid (submit_once env settings c (call order answer) w).1.history
      ≤ submissions cid w.history + (if submits cid order then 1 else 0)
unfolding submit_once attempt call
submit_once-adds env settings cid c order answer w =
    let w₁ : World = record w { history = order ∷ w.history } in
    let n = submissions cid w.history + (if submits cid order then 1 else 0) in
    go (answer (order ∷ w.history)) w₁ n (ground arith)
      (λ e. reconcile-AtMost env settings cid n c e)
  where
    go :
        (r : Result Error BrokerOrder) (w₁ : World) (n : ℕ)
        → submissions cid w₁.history ≤ n
        → ((e : Error) → Keeps (AtMost env settings cid n) (reconcile env settings c e))
        → submissions cid (handled (reconcile env settings c) r w₁).1.history ≤ n
    go (ok o) w₁ n h k = h
    go (err e) w₁ n h k = (k e).at w₁ h

module _ (env : Env) (settings : Settings) (cid : ClientId) where
  abbrev pub Adds : (ExecutionTarget → ℕ) → Step Unit → Type 0
  Adds hit step =
      (s : LegState)
      → (submissions cid (step s).1.world.history
          ≤ submissions cid s.world.history + hit s.leg.target)
        × ((step s).1.leg.target ≡ s.leg.target)

  send_limit-adds :
      (p : Option ℕ) (s : LegState)
      → (submissions cid (send_limit env settings s.leg.target p s).1.world.history
          ≤ submissions cid s.world.history + limit_hit cid s.leg.target)
        × ((send_limit env settings s.leg.target p s).1.leg.target ≡ s.leg.target)
  unfolding send_limit raise
  send_limit-adds none s = ground arith
  send_limit-adds (some p) s =
      let n = submissions cid s.world.history + limit_hit cid s.leg.target in
      bind_at (Quiet env settings cid n s.leg.target) _ _ s
        (unfold shared in
          (submit_once-adds env settings cid (lim_id s.leg.target) _ env.order s.world, refl))
        (λ o. search (
          Keeps-bind,
          limit-Quiet env settings cid n s.leg.target,
          note-Quiet env settings cid n s.leg.target,
        ))

  block-adds :
      (s : LegState) (a : ℕ)
      → (submissions cid (block env settings s).1.world.history
          ≤ submissions cid s.world.history + a)
        × ((block env settings s).1.leg.target ≡ s.leg.target)
  unfolding block update_leg
  block-adds s a = (omega arith, refl)

  -- `submit_limit` makes at most one submission, under the limit's id.
  pub submit_limit-Adds : Adds (limit_hit cid) (submit_limit env settings)
  unfolding submit_limit ◌>>=◌
  submit_limit-Adds s = elim (Bool-cases (allows s.world.kill_switch s.leg.target.side)) [
    | inl allowed ↦ rw allowed (send_limit-adds s.leg.price s)
    | inr stopped ↦ rw stopped (block-adds s (limit_hit cid s.leg.target))
  ]

  SendAdds : Leg → LegState → Result Error Unit × LegState → Type 0
  SendAdds l s y =
      (submissions cid y.1.world.history
        ≤ submissions cid s.world.history + market_hit cid l.target)
      × (y.1.leg.target ≡ s.leg.target)

  send_market-adds : (l : Leg) (s : LegState) → SendAdds l s (send_market env settings l s)
  unfolding send_market SendAdds
  send_market-adds l s =
      let n = submissions cid s.world.history + market_hit cid l.target in
      bind_at (Quiet env settings cid n s.leg.target) _ _ s
        (unfold shared in
          (submit_once-adds env settings cid (mkt_id l.target) _ env.order s.world, refl))
        (λ o. search (
          Keeps-bind,
          market-Quiet env settings cid n s.leg.target,
          note-Quiet env settings cid n s.leg.target,
        ))

  market_known-adds :
      (o : Option BrokerOrder) (l : Leg) (s : LegState)
      → SendAdds l s (market_known env settings l o s)
  unfolding market_known SendAdds ◌>>=◌ update_leg
  market_known-adds (some o) l s = (omega arith, refl)
  market_known-adds none l s = elim (Bool-cases (allows s.world.kill_switch l.target.side)) [
    | inl allowed ↦ rw allowed (send_market-adds l s)
    | inr stopped ↦ rw stopped (block-adds s (market_hit cid l.target))
  ]

  -- `submit_market` makes at most one submission, under the market order's id.
  pub submit_market-Adds : Adds (market_hit cid) (submit_market env settings)
  unfolding submit_market SendAdds ◌>>=◌ shared call
  submit_market-Adds s =
      let c : Call = Call.find_by_client_id (mkt_id s.leg.target) in
      let s₁ : LegState = record s { world = record (s.world) { history = c ∷ s.world.history } } in
      go (env.find (c ∷ s.world.history)) s₁ s.leg refl refl
    where
      go :
          (r : Result Error (Option BrokerOrder)) (s₁ : LegState) (l : Leg)
          → s₁.leg ≡ l
          → submissions cid s₁.world.history ≡ submissions cid s.world.history
          → (submissions cid (continue r (λ o. market_known env settings l o) s₁).1.world.history
              ≤ submissions cid s.world.history + market_hit cid l.target)
            × ((continue r (λ o. market_known env settings l o) s₁).1.leg.target ≡ l.target)
      go (ok o) s₁ l e h = ground (arith, market_known-adds o l s₁)
      go (err x) s₁ l e h = ground arith

-- Making a leg submits nothing, and the leg has its target.
pub new_leg-adds :
    (env : Env) (settings : Settings) (cid : ClientId) (t : ExecutionTarget) (w : World)
    → submissions cid (new_leg env settings t w).1.history ≡ submissions cid w.history
unfolding new_leg call ◌>>=◌
new_leg-adds env settings cid t w = ground arith
