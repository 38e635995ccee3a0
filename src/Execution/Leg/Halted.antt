-- ===== src/Execution/Leg/Halted.antt =====
-- While the kill switch is engaged no step of a leg submits a buy.
use asymmetric_committee.Base.{
  ℕ, String, ◌+◌, ◌≡◌, refl, Bool, true, false, Option, none, some, [], ◌∷◌, arith, Result, ok, err,
  ◌>>=◌, continue, Keeps, keeps_rules, Bool-cases, inl, inr, if◌then◌else◌,
}
use asymmetric_committee.Contracts.Enums.{OrderSide, buy, sell, ReferenceSource}
use asymmetric_committee.Risk.KillSwitch.{halted, allows, KillSwitch}
use asymmetric_committee.Execution.Gateway.{
  Error, BrokerOrder, ClientId, ExecutionRecord, Call, Env, World, M, call, History,
}
use asymmetric_committee.Execution.Leg.{
  ExecutionTarget, Leg, LegState, Settings, shared, update_leg, new_leg, found_or_raise, reconcile,
  submit_once, looked_up, recorded, get_reference, note, block, open_for_submit, resolve_reference,
  send_limit, submit_limit, suppress_not_cancelable, request_cancel, cancel_working, cancel_known,
  cancel_limit, settle_terminal, settle_limit, close_limit, send_market, market_known,
  submit_market, settle_market, close_market, mkt_id,
}

abbrev pub is_buy : Call → Bool
is_buy (Call.submit_limit _ _ buy _ _) = true
is_buy (Call.submit_market _ _ buy _) = true
is_buy _ = false

-- The buy orders submitted in a history.
abbrev pub buys : History → ℕ
buys [] = 0
buys (c ∷ h) = (if is_buy c then 1 else 0) + buys h

-- The switch is engaged, and `n` buys were submitted.
abbrev pub NoBuys : ℕ → World → Type 0
NoBuys n w = (halted w.kill_switch ≡ true) × (buys w.history ≡ n)

module _ (n : ℕ) where
  pub call-NoBuys :
      {A : Type 0} (c : Call) (answer : History → Result Error A)
      → is_buy c ≡ false
      → Keeps (NoBuys n) (call c answer)
  unfolding call
  call-NoBuys c answer h = record { at = λ w k. (k.0, ground arith) }

  abbrev pub Calm : LegState → Type 0
  Calm s = NoBuys n s.world

  pub shared-Calm : {A : Type 0} (m : M A) → Keeps (NoBuys n) m → Keeps Calm (shared m)
  unfolding shared
  shared-Calm m k = record { at = λ s h. k.at s.world h }

  pub update_leg-Calm : (f : Leg → Leg) → Keeps Calm (update_leg f)
  unfolding update_leg
  update_leg-Calm f = record { at = λ s h. h }

  ruleset calm_rules = (keeps_rules, shared-Calm, call-NoBuys, update_leg-Calm, refl)

  limit_sell :
      (side : OrderSide)
      → side ≡ sell
      → (c : ClientId) (symbol : String) (q l : ℕ)
      → is_buy (Call.submit_limit c symbol side q l) ≡ false
  limit_sell sell e c symbol q l = refl
  limit_sell buy e c symbol q l = absurd (cc)

  market_sell :
      (side : OrderSide)
      → side ≡ sell
      → (c : ClientId) (symbol : String) (q : ℕ)
      → is_buy (Call.submit_market c symbol side q) ≡ false
  market_sell sell e c symbol q = refl
  market_sell buy e c symbol q = absurd (cc)

  allowed-sell :
      (ks : KillSwitch) (side : OrderSide) → halted ks ≡ true → allows ks side ≡ true → side ≡ sell
  unfolding allows
  allowed-sell ks sell h a = refl
  allowed-sell ks buy h a = absurd (ground arith)

  module _ (env : Env) (settings : Settings) where
    found_or_raise-NoBuys :
        (e : Error) (o : Option BrokerOrder) → Keeps (NoBuys n) (found_or_raise env settings e o)
    unfolding found_or_raise
    found_or_raise-NoBuys e none = search keeps_rules
    found_or_raise-NoBuys e (some o) = search keeps_rules

    reconcile-NoBuys : (c : ClientId) (e : Error) → Keeps (NoBuys n) (reconcile env settings c e)
    unfolding reconcile
    reconcile-NoBuys c e = search (calm_rules, found_or_raise-NoBuys) depth 7

    submit_once-NoBuys :
        (c : ClientId) (m : M BrokerOrder)
        → Keeps (NoBuys n) m
        → Keeps (NoBuys n) (submit_once env settings c m)
    unfolding submit_once
    submit_once-NoBuys c m k = search (calm_rules, reconcile-NoBuys, k) depth 7

    suppress-NoBuys : (e : Error) → Keeps (NoBuys n) (suppress_not_cancelable env settings e)
    unfolding suppress_not_cancelable
    suppress-NoBuys Error.order_not_cancelable = search keeps_rules
    suppress-NoBuys _ = search keeps_rules

    request_cancel-NoBuys : (id : ℕ) → Keeps (NoBuys n) (request_cancel env settings id)
    unfolding request_cancel
    request_cancel-NoBuys id = search (calm_rules, suppress-NoBuys) depth 7

    looked_up-Calm :
        (o : Option (ℕ × ReferenceSource)) (u : ExecutionTarget)
        → Keeps Calm (looked_up env settings o u)
    unfolding looked_up
    looked_up-Calm none u = search calm_rules depth 7
    looked_up-Calm (some r) u = search calm_rules

    recorded-Calm : (o : Option ExecutionRecord) (m : Leg) → Keeps Calm (recorded env settings o m)
    unfolding recorded
    recorded-Calm none m = looked_up-Calm m.reference m.target
    recorded-Calm (some r) m = search calm_rules

    get_reference-Calm : Keeps Calm (get_reference env settings)
    unfolding get_reference
    get_reference-Calm = search (calm_rules, recorded-Calm) depth 7

    note-Calm : (o : BrokerOrder) → Keeps Calm (note env settings o)
    unfolding note
    note-Calm o = search (calm_rules, get_reference-Calm) depth 9

    block-Calm : Keeps Calm (block env settings)
    unfolding block
    block-Calm = search calm_rules

    pub open_for_submit-Calm : Keeps Calm (open_for_submit env settings)
    unfolding open_for_submit
    open_for_submit-Calm = search (calm_rules, block-Calm) depth 9

    pub resolve_reference-Calm : Keeps Calm (resolve_reference env settings)
    unfolding resolve_reference
    resolve_reference-Calm = search (calm_rules, get_reference-Calm) depth 7

    send_limit-Calm :
        (t : ExecutionTarget) (p : Option ℕ)
        → t.side ≡ sell
        → Keeps Calm (send_limit env settings t p)
    unfolding send_limit
    send_limit-Calm t none h = search calm_rules
    send_limit-Calm t (some p) h =
        search (calm_rules, submit_once-NoBuys, note-Calm, limit_sell t.side h) depth 9

    pub submit_limit-Calm : Keeps Calm (submit_limit env settings)
    unfolding submit_limit ◌>>=◌
    submit_limit-Calm = record {
      at = λ s h. elim (Bool-cases (allows s.world.kill_switch s.leg.target.side)) [
        | inl allowed ↦ rw allowed (
            (send_limit-Calm s.leg.target s.leg.price
                (allowed-sell s.world.kill_switch s.leg.target.side h.0 allowed)).at
              s h)
        | inr refused ↦ rw refused (block-Calm.at s h)
      ];
    }

    cancel_working-Calm : (o : BrokerOrder) → Keeps Calm (cancel_working env settings o)
    unfolding cancel_working
    cancel_working-Calm o = search (calm_rules, request_cancel-NoBuys) depth 9

    cancel_known-Calm : (o : Option BrokerOrder) → Keeps Calm (cancel_known env settings o)
    unfolding cancel_known
    cancel_known-Calm none = search calm_rules
    cancel_known-Calm (some o) = search (calm_rules, cancel_working-Calm)

    pub cancel_limit-Calm : Keeps Calm (cancel_limit env settings)
    unfolding cancel_limit
    cancel_limit-Calm = search (calm_rules, cancel_known-Calm)

    settle_terminal-Calm :
        (u : ExecutionTarget) (o : BrokerOrder) → Keeps Calm (settle_terminal env settings u o)
    unfolding settle_terminal
    settle_terminal-Calm u o = search calm_rules depth 7

    settle_limit-Calm :
        (u : ExecutionTarget) (o : Option BrokerOrder) → Keeps Calm (settle_limit env settings u o)
    unfolding settle_limit
    settle_limit-Calm u none = search calm_rules
    settle_limit-Calm u (some o) = search (calm_rules, note-Calm, settle_terminal-Calm) depth 7

    pub close_limit-Calm : Keeps Calm (close_limit env settings)
    unfolding close_limit
    close_limit-Calm = search (calm_rules, settle_limit-Calm)

    send_market-Calm : (l : Leg) → l.target.side ≡ sell → Keeps Calm (send_market env settings l)
    unfolding send_market
    send_market-Calm l h =
        search (calm_rules, submit_once-NoBuys, note-Calm, market_sell l.target.side h) depth 9

    market_known-Calm :
        (o : Option BrokerOrder) (s : LegState)
        → Calm s
        → Calm (market_known env settings s.leg o s).1
    unfolding market_known update_leg ◌>>=◌
    market_known-Calm (some o) s h = h
    market_known-Calm none s h = elim (Bool-cases (allows s.world.kill_switch s.leg.target.side)) [
      | inl allowed ↦ rw allowed (
          (send_market-Calm s.leg
              (allowed-sell s.world.kill_switch s.leg.target.side h.0 allowed)).at
            s h)
      | inr refused ↦ rw refused (block-Calm.at s h)
    ]

    pub submit_market-Calm : Keeps Calm (submit_market env settings)
    unfolding submit_market shared call ◌>>=◌
    submit_market-Calm = record {
      at = λ s h.
          let look : History = Call.find_by_client_id (mkt_id s.leg.target) ∷ s.world.history in
          let s₁ : LegState = record s { world = record (s.world) { history = look } } in
          go s₁ (env.find look) (h.0, ground arith);
    }
      where
        go :
            (s₁ : LegState) (r : Result Error (Option BrokerOrder))
            → Calm s₁
            → Calm (continue r (λ found. market_known env settings s₁.leg found) s₁).1
        go s₁ (ok o) h = market_known-Calm o s₁ h
        go s₁ (err e) h = h

    settle_market-Calm :
        (u : ExecutionTarget) (l m : Option BrokerOrder)
        → Keeps Calm (settle_market env settings u l m)
    unfolding settle_market
    settle_market-Calm u none m = search calm_rules
    settle_market-Calm u (some l) none = search calm_rules
    settle_market-Calm u (some l) (some m) = search (calm_rules, note-Calm)

    pub close_market-Calm : Keeps Calm (close_market env settings)
    unfolding close_market
    close_market-Calm = search (calm_rules, settle_market-Calm)

    pub new_leg-NoBuys : (t : ExecutionTarget) → Keeps (NoBuys n) (new_leg env settings t)
    unfolding new_leg
    new_leg-NoBuys t = search calm_rules depth 7
