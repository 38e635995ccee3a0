-- ===== src/Execution/Leg/Submissions.antt =====
-- How often the steps of a leg submit an order under one client id.
use asymmetric_committee.Base.{
  ℕ, suc, ◌≤◌, ◌≡◌, refl, Bool, false, Option, none, some, [], ◌∷◌, ◌++◌, arith, Keeps, keeps_rules,
  if◌then◌else◌, Result,
}
use asymmetric_committee.Contracts.Enums.{ReferenceSource}
use asymmetric_committee.Execution.Gateway.{
  Error, ClientId, same_id, BrokerOrder, ExecutionRecord, Env, World, Call, call, M, History,
}
use asymmetric_committee.Execution.Leg.{
  ExecutionTarget, Leg, LegState, Settings, shared, update_leg, lim_id, mkt_id, note, get_reference,
  looked_up, recorded, block, reconcile, found_or_raise, open_for_submit, resolve_reference,
  suppress_not_cancelable, request_cancel, cancel_working, cancel_known, cancel_limit,
  settle_terminal, settle_limit, close_limit, settle_market, close_market, set_residual,
  set_current,
}

module _ (cid : ClientId) where
  -- a submission under the id
  abbrev pub submits : Call → Bool
  submits (Call.submit_limit c _ _ _ _) = same_id c cid
  submits (Call.submit_market c _ _ _) = same_id c cid
  submits _ = false

  abbrev pub submissions : History → ℕ
  submissions [] = 0
  submissions (c ∷ h) = if submits c then suc (submissions h) else submissions h

  abbrev pub limit_hit : ExecutionTarget → ℕ
  limit_hit t = if same_id (lim_id t) cid then 1 else 0

  abbrev pub market_hit : ExecutionTarget → ℕ
  market_hit t = if same_id (mkt_id t) cid then 1 else 0

module _ (env : Env) (settings : Settings) (cid : ClientId) (n : ℕ) where
  abbrev pub AtMost : World → Type 0
  AtMost w = submissions cid w.history ≤ n

  pub call-AtMost :
      {A : Type 0} (c : Call) (answer : History → Result Error A)
      → submits cid c ≡ false
      → Keeps AtMost (call c answer)
  unfolding call
  call-AtMost c answer q = record { at = λ w h. rw q h }

  found_or_raise-AtMost :
      (e : Error) (o : Option BrokerOrder) → Keeps AtMost (found_or_raise env settings e o)
  unfolding found_or_raise
  found_or_raise-AtMost e none = search keeps_rules
  found_or_raise-AtMost e (some o) = search keeps_rules

  pub reconcile-AtMost : (c : ClientId) (e : Error) → Keeps AtMost (reconcile env settings c e)
  unfolding reconcile
  reconcile-AtMost c e = search (keeps_rules, call-AtMost, found_or_raise-AtMost) depth 7

  suppress-AtMost : (e : Error) → Keeps AtMost (suppress_not_cancelable env settings e)
  unfolding suppress_not_cancelable
  suppress-AtMost Error.order_not_cancelable = search keeps_rules
  suppress-AtMost _ = search keeps_rules

  request_cancel-AtMost : (id : ℕ) → Keeps AtMost (request_cancel env settings id)
  unfolding request_cancel
  request_cancel-AtMost id = search (keeps_rules, call-AtMost, suppress-AtMost) depth 7

  module _ (t : ExecutionTarget) where
    abbrev pub Quiet : LegState → Type 0
    Quiet s = (submissions cid s.world.history ≤ n) × (s.leg.target ≡ t)

    pub shared-Quiet : {A : Type 0} (m : M A) → Keeps AtMost m → Keeps Quiet (shared m)
    unfolding shared
    shared-Quiet m k = record { at = λ s h. (k.at s.world h.0, h.1) }

    pub current-Quiet : (o : BrokerOrder) → Keeps Quiet (update_leg (set_current o))
    unfolding update_leg
    current-Quiet o = record { at = λ s h. ground arith }

    looked-Quiet :
        (r : ℕ × ReferenceSource) → Keeps Quiet (update_leg (λ l. record l { reference = some r }))
    unfolding update_leg
    looked-Quiet r = record { at = λ s h. h }

    records-Quiet :
        (r : ExecutionRecord)
        → Keeps Quiet (update_leg (λ l. record l { records = l.records ++ r ∷ [] }))
    unfolding update_leg
    records-Quiet r = record { at = λ s h. h }

    pub blocked-Quiet : Keeps Quiet (block env settings)
    unfolding block update_leg
    blocked-Quiet = record { at = λ s h. h }

    price-Quiet : (p : ℕ) → Keeps Quiet (update_leg (λ l. record l { price = some p }))
    unfolding update_leg
    price-Quiet p = record { at = λ s h. h }

    pub limit-Quiet :
        (o : BrokerOrder) → Keeps Quiet (update_leg (λ l. record l { limit_order = some o }))
    unfolding update_leg
    limit-Quiet o = record { at = λ s h. h }

    pub market-Quiet :
        (o : BrokerOrder) → Keeps Quiet (update_leg (λ l. record l { market_order = some o }))
    unfolding update_leg
    market-Quiet o = record { at = λ s h. h }

    residual-Quiet : (o : BrokerOrder) → Keeps Quiet (update_leg (set_residual o))
    unfolding update_leg
    residual-Quiet o = record { at = λ s h. h }

    pub fresh-Quiet : (b : Bool) → Keeps Quiet (update_leg (λ l. record l { fresh = b }))
    unfolding update_leg
    fresh-Quiet b = record { at = λ s h. h }

    ruleset quiet_rules = (
      keeps_rules, shared-Quiet, call-AtMost, refl, looked-Quiet, records-Quiet, blocked-Quiet,
      price-Quiet, limit-Quiet, market-Quiet, residual-Quiet, fresh-Quiet, request_cancel-AtMost,
    )

    looked_up-Quiet :
        (o : Option (ℕ × ReferenceSource)) (u : ExecutionTarget)
        → Keeps Quiet (looked_up env settings o u)
    unfolding looked_up
    looked_up-Quiet none u = search quiet_rules depth 7
    looked_up-Quiet (some r) u = search quiet_rules

    recorded-Quiet :
        (o : Option ExecutionRecord) (m : Leg) → Keeps Quiet (recorded env settings o m)
    unfolding recorded
    recorded-Quiet none m = looked_up-Quiet m.reference m.target
    recorded-Quiet (some r) m = search quiet_rules

    get_reference-Quiet : Keeps Quiet (get_reference env settings)
    unfolding get_reference
    get_reference-Quiet = search (quiet_rules, recorded-Quiet) depth 7

    pub note-Quiet : (o : BrokerOrder) → Keeps Quiet (note env settings o)
    unfolding note
    note-Quiet o = search (quiet_rules, get_reference-Quiet) depth 9

    pub open_for_submit-Quiet : Keeps Quiet (open_for_submit env settings)
    unfolding open_for_submit
    open_for_submit-Quiet = search quiet_rules depth 9

    pub resolve_reference-Quiet : Keeps Quiet (resolve_reference env settings)
    unfolding resolve_reference
    resolve_reference-Quiet = search (quiet_rules, get_reference-Quiet) depth 7

    cancel_working-Quiet : (o : BrokerOrder) → Keeps Quiet (cancel_working env settings o)
    unfolding cancel_working
    cancel_working-Quiet o = search quiet_rules depth 9

    cancel_known-Quiet : (o : Option BrokerOrder) → Keeps Quiet (cancel_known env settings o)
    unfolding cancel_known
    cancel_known-Quiet none = search quiet_rules
    cancel_known-Quiet (some o) = search (quiet_rules, cancel_working-Quiet)

    pub cancel_limit-Quiet : Keeps Quiet (cancel_limit env settings)
    unfolding cancel_limit
    cancel_limit-Quiet = search (quiet_rules, cancel_known-Quiet)

    settle_terminal-Quiet :
        (u : ExecutionTarget) (o : BrokerOrder) → Keeps Quiet (settle_terminal env settings u o)
    unfolding settle_terminal
    settle_terminal-Quiet u o = search quiet_rules depth 7

    settle_limit-Quiet :
        (u : ExecutionTarget) (o : Option BrokerOrder) → Keeps Quiet (settle_limit env settings u o)
    unfolding settle_limit
    settle_limit-Quiet u none = search quiet_rules
    settle_limit-Quiet u (some o) = search (quiet_rules, note-Quiet, settle_terminal-Quiet) depth 7

    pub close_limit-Quiet : Keeps Quiet (close_limit env settings)
    unfolding close_limit
    close_limit-Quiet = search (quiet_rules, settle_limit-Quiet)

    settle_market-Quiet :
        (u : ExecutionTarget) (l m : Option BrokerOrder)
        → Keeps Quiet (settle_market env settings u l m)
    unfolding settle_market
    settle_market-Quiet u none m = search quiet_rules
    settle_market-Quiet u (some l) none = search quiet_rules
    settle_market-Quiet u (some l) (some m) = search (quiet_rules, note-Quiet)

    pub close_market-Quiet : Keeps Quiet (close_market env settings)
    unfolding close_market
    close_market-Quiet = search (quiet_rules, settle_market-Quiet)
