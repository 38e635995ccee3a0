-- ===== src/Execution/Halt/Fires.antt =====
-- `HaltController.check` when an automatic trigger fires.
use asymmetric_committee.Base.{
  sym, ℕ, ◌≡◌, refl, ap, ◌∙◌, all, ◌&&◌, Bool-cases, inl, inr, Bool, true, false, Option, some,
  List, [], ◌∷◌, Result, ok, err, arith, lift, pure, ◌>>=◌, ◌>>◌, if◌then◌else◌, continue,
}
use asymmetric_committee.Contracts.Enums.{KillTrigger, FeedName}
use asymmetric_committee.Risk.KillSwitch.{
  KillSwitch, Ratio, Figure, usable, halt, halted, evaluate, daily_loss, peak_drawdown, RiskError,
}
use asymmetric_committee.Execution.Gateway.{Error, Call, Env, call, History}
use asymmetric_committee.Execution.Halt.{
  Control, H, on_world, ask, halt_trading, drawdown, drawdown_of, drawdown_missing, fired, check,
  from_risk, is_ok,
}
use asymmetric_committee.Execution.Halt.Keep.{halt_trading-kill_switch}

-- The answer of `equity_history` does not stop a halt: a history, or missing evidence.
abbrev pub is_no_obstacle : Result Error (List Figure) → Bool
is_no_obstacle (ok _) = true
is_no_obstacle (err Error.equity_evidence) = true
is_no_obstacle (err _) = false

evaluate-loss :
    (equity prior : Figure) (limit : Ratio) (last_success : FeedName → Option ℕ)
    (sla : List (FeedName × ℕ)) (now : ℕ) (t : Option KillTrigger)
    → evaluate equity prior limit last_success sla now ≡ ok t
    → (loss : Ratio) × (daily_loss equity prior ≡ ok loss)
unfolding evaluate
evaluate-loss equity prior limit last_success sla now t h = go (daily_loss equity prior) refl
  where
    go :
        (r : Result RiskError Ratio)
        → daily_loss equity prior ≡ r
        → (loss : Ratio) × (daily_loss equity prior ≡ ok loss)
    go (ok loss) e = (loss, e)
    go (err x) e = absurd (ground arith)

bind_pure-state :
    {A B : Type 0} (m : H A) (b : B) (c : Control) → ((m >>= λ _. pure b) c).1 ≡ (m c).1
unfolding ◌>>=◌
bind_pure-state {A = A} m b c = go (m c)
  where
    go : (y : Result Error A × Control) → (continue y.0 (λ _. pure b) y.1).1 ≡ y.1
    go (ok a, x) = refl
    go (err e, x) = refl

module _ (env : Env) (poll_seconds poll_attempts : ℕ) where
  drawdown-is_ok :
      (current : Figure) (c : Control)
      → let h : History = Call.equity_history ∷ c.world.history in
        (is_ok (drawdown env poll_seconds poll_attempts current false c).0
          ≡ is_no_obstacle (env.equities h))
        × ((drawdown env poll_seconds poll_attempts current false c).1.world.kill_switch
            ≡ c.world.kill_switch)
  unfolding drawdown drawdown_of drawdown_missing ask on_world call ◌>>=◌ peak_drawdown
  drawdown-is_ok current c = go (env.equities h) refl
    where
      h : History
      h = Call.equity_history ∷ c.world.history

      go :
          (r : Result Error (List Figure))
          → env.equities h ≡ r
          → (is_ok (drawdown env poll_seconds poll_attempts current false c).0
              ≡ is_no_obstacle (env.equities h))
            × ((drawdown env poll_seconds poll_attempts current false c).1.world.kill_switch
                ≡ c.world.kill_switch)
      go (err Error.equity_evidence) e = rw e (refl, refl)
      go (err Error.broker_error) e = rw e (refl, refl)
      go (err Error.duplicate_client_order) e = rw e (refl, refl)
      go (err Error.order_not_cancelable) e = rw e (refl, refl)
      go (err Error.cancel_not_confirmed) e = rw e (refl, refl)
      go (err Error.overfill) e = rw e (refl, refl)
      go (err Error.value_error) e = rw e (refl, refl)
      go (err Error.assertion_error) e = rw e (refl, refl)
      go (err Error.other_error) e = rw e (refl, refl)
      go (ok []) e = rw e (refl, refl)
      go (ok (v ∷ vs)) e = elim (Bool-cases (all usable (v ∷ vs) && usable current)) [
        | inl fine ↦ rw e (rw fine (refl, refl))
        | inr unfit ↦ rw e (rw unfit (refl, refl))
      ]

  fired-engages :
      (equity prior : Figure) (t : KillTrigger) (c : Control) (loss : Ratio)
      → daily_loss equity prior ≡ ok loss
      → (fired env poll_seconds poll_attempts equity prior (some t) c).1.world.kill_switch ≡ (
          if is_no_obstacle (env.equities (Call.equity_history ∷ c.world.history))
          then (halt t c.world.kill_switch).1
          else c.world.kill_switch)
  unfolding fired ◌>>=◌
  fired-engages equity prior t c loss h =
      let (a, k) = drawdown-is_ok equity c in
      let y = drawdown env poll_seconds poll_attempts equity false c in
      go y
      ∙ ap (λ b. if b then (halt t y.1.world.kill_switch).1 else y.1.world.kill_switch) a
      ∙ ap
          (λ s.
            if is_no_obstacle (env.equities (Call.equity_history ∷ c.world.history))
            then (halt t s).1
            else s)
          k
    where
      rest : Option Ratio → H (Option KillTrigger)
      rest d = do
        l ← lift (from_risk (daily_loss equity prior))
        halt_trading env poll_seconds poll_attempts t false (some l) d
        pure (some t)

      halts :
          (d : Option Ratio) (x : Control)
          → (rest d x).1.world.kill_switch ≡ (halt t x.world.kill_switch).1
      halts d x = rw h (
          ap (λ z. z.world.kill_switch)
            (bind_pure-state (halt_trading env poll_seconds poll_attempts t false (some loss) d)
              (some t) x)
          ∙ halt_trading-kill_switch env poll_seconds poll_attempts t false (some loss) d x)

      go :
          (y : Result Error (Option Ratio) × Control)
          → (continue y.0 rest y.1).1.world.kill_switch
            ≡ (if is_ok y.0 then (halt t y.1.world.kill_switch).1 else y.1.world.kill_switch)
      go (ok d, x) = halts d x
      go (err e, x) = refl

  halt-fresh :
      (t : KillTrigger) (ks : KillSwitch)
      → halted ks ≡ false
      → (halt t ks).1 ≡ record { trigger = some t }
  unfolding halt
  halt-fresh t ks h = ground (arith, h)

  -- When an automatic trigger fires on a switch that is not engaged, `check` engages it, unless the
  -- call for the equity history fails with an error other than missing evidence: then the switch
  -- stays as it was.
  pub check-engages :
      (limit : Ratio) (last_success : FeedName → Option ℕ) (sla : List (FeedName × ℕ)) (c : Control)
      (equity prior : Figure) (t : KillTrigger)
      → let h : History = Call.account_equity ∷ c.world.history in
        let later : History = Call.clock ∷ h in
        halted c.world.kill_switch ≡ false
        → env.equity h ≡ ok (equity, prior)
        → evaluate equity prior limit last_success sla (env.now later) ≡ ok (some t)
        → (check env poll_seconds poll_attempts limit last_success sla c).1.world.kill_switch ≡ (
            if is_no_obstacle (env.equities (Call.equity_history ∷ later))
            then record { trigger = some t }
            else c.world.kill_switch)
  unfolding check ask on_world call ◌>>=◌
  check-engages limit last_success sla c equity prior t fresh eq ev =
      let (loss, l) = evaluate-loss equity prior limit last_success sla _ (some t) ev in
      let engaged : (halt t c.world.kill_switch).1 ≡ record { trigger = some t } =
        halt-fresh t c.world.kill_switch fresh in
      rw fresh (rw eq (rw ev (rw (sym engaged) (fired-engages equity prior t _ loss l))))
