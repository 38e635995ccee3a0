-- ===== src/Execution/Halt/Order.antt =====
-- What a halt does, in which order: engage, cancel and confirm, then flatten, and always record.
use asymmetric_committee.Base.{
  and_left, ℕ, zero, suc, ◌≡◌, refl, sym, subst, Bool, true, false, ◌&&◌, Option, List, [], ◌∷◌,
  arith, Result, ok, err, pure, raise, ◌>>=◌, continue,
}
use asymmetric_committee.Contracts.Enums.{KillTrigger}
use asymmetric_committee.Risk.KillSwitch.{Ratio}
use asymmetric_committee.Execution.Gateway.{Error, BrokerOrder, Call, Env, call, History}
use asymmetric_committee.Execution.Halt.{
  Control, H, on_world, engage, ask, cancel_rounds, one_round, still_open, cancel_all_confirmed,
  flatten_positions, make_event, conclude_halt, after_cancel, halt_trading, outcome_of, is_ok,
  rounds,
}

-- The newest call lists the open orders, and its answer is that there are none.
abbrev pub NothingOpen : Env → History → Type 0
NothingOpen env [] = ⊥
NothingOpen env (c ∷ h) = (c ≡ Call.open_orders) × (env.orders (c ∷ h) ≡ ok [])

-- The history begins with a halt event of that trigger.
abbrev pub Recorded : KillTrigger → History → Type 0
Recorded t [] = ⊥
Recorded t (Call.record_event e ∷ h) = e.trigger ≡ t
Recorded t (_ ∷ h) = ⊥

abbrev pub OnOk : {A : Type 0} → (Control → Type 0) → Result Error A × Control → Type 0
OnOk Q (ok a, c) = Q c
OnOk Q (err e, c) = Unit

OnOk-bind :
    {A B : Type 0} (Q : Control → Type 0) (m : H A) (f : A → H B) (c : Control)
    → ((a : A) (c' : Control) → OnOk Q (f a c'))
    → OnOk Q ((m >>= f) c)
unfolding ◌>>=◌
OnOk-bind {B = B} Q m f c k = go (m c)
  where
    go : (y : Result Error _ × Control) → OnOk Q (continue y.0 f y.1)
    go (ok a, c') = k a c'
    go (err e, c') = tt

module _ (env : Env) (poll_seconds poll_attempts : ℕ) where
  abbrev Settled : Control → Type 0
  Settled c = NothingOpen env c.world.history

  -- the answer of a listing is empty where the loop ends
  listing-Settled :
      (f : List BrokerOrder → H (List ℕ)) (cancelled : List ℕ) (c : Control)
      → (f [] ≡ pure cancelled)
      → ((o : BrokerOrder) (os : List BrokerOrder) (c' : Control) → OnOk Settled (f (o ∷ os) c'))
      → OnOk Settled ((ask env poll_seconds poll_attempts Call.open_orders env.orders >>= f) c)
  unfolding ask on_world call ◌>>=◌
  listing-Settled f cancelled c stop k = go (env.orders h) refl
    where
      h : History
      h = Call.open_orders ∷ c.world.history

      c₁ : Control
      c₁ = record c { world = record (c.world) { history = h } }

      go : (y : Result Error (List BrokerOrder)) → env.orders h ≡ y → OnOk Settled (continue y f c₁)
      go (err e) eq = tt
      go (ok []) eq = subst (λ g. OnOk Settled (g c₁)) (sym stop) (refl, eq)
      go (ok (o ∷ os)) eq = k o os c₁

  cancel_rounds-Settled :
      (n : ℕ) (cancelled : List ℕ) (c : Control)
      → OnOk Settled (cancel_rounds env poll_seconds poll_attempts n cancelled c)
  unfolding cancel_rounds one_round still_open raise
  cancel_rounds-Settled zero cancelled c =
      listing-Settled (still_open env poll_seconds poll_attempts cancelled) cancelled c refl
        (λ o os c'. tt)
  cancel_rounds-Settled (suc n) cancelled c =
      listing-Settled
        (λ os.
          one_round env poll_seconds poll_attempts cancelled os
            (cancel_rounds env poll_seconds poll_attempts n))
        cancelled c refl
        (λ o os c'.
          OnOk-bind Settled _ _ c'
            (λ ids c₂. OnOk-bind Settled _ _ c₂ (λ _ c₃. cancel_rounds-Settled n ids c₃)))

  -- When `_cancel_all_confirmed` returns, the last thing that the broker said is that no order is
  -- open.
  pub cancel_all_confirmed-NothingOpen :
      (c c' : Control) (ids : List ℕ)
      → cancel_all_confirmed env poll_seconds poll_attempts c ≡ (ok ids, c')
      → NothingOpen env c'.world.history
  unfolding cancel_all_confirmed
  cancel_all_confirmed-NothingOpen c c' ids h =
      subst (OnOk Settled) h (cancel_rounds-Settled rounds [] c)

  conclude_halt-Recorded :
      (t : KillTrigger) (loss d : Option Ratio) (cancelled : List ℕ) (flattened : Bool)
      (r : Result Error Unit) (c : Control)
      → (flattened ≡ true → t ≡ KillTrigger.manual)
      → Recorded t
          (conclude_halt env poll_seconds poll_attempts t loss d cancelled flattened r
            c).1.world.history
  unfolding conclude_halt ask on_world call make_event ◌>>=◌
  conclude_halt-Recorded t loss d cancelled flattened r c h = ground arith

  after_cancel-Recorded :
      (t : KillTrigger) (flatten : Bool) (loss d : Option Ratio) (r : Result Error (List ℕ))
      (c : Control)
      → (flatten ≡ true → t ≡ KillTrigger.manual)
      → Recorded t
          (after_cancel env poll_seconds poll_attempts t flatten loss d r c).1.world.history
  unfolding after_cancel outcome_of ◌>>=◌
  after_cancel-Recorded t flatten loss d (err e) c h =
      conclude_halt-Recorded t loss d [] false (err e) c (λ q. absurd (cc))
  after_cancel-Recorded t flatten loss d (ok ids) c h =
      let (r, c') = flatten_positions env poll_seconds poll_attempts flatten c in
      conclude_halt-Recorded t loss d ids (flatten && is_ok r) r c'
        (λ q. h (and_left flatten (is_ok r) q))

  -- A halt leaves the switch engaged and its event on record as the last call, whatever the broker
  -- does to the cancels and closes, if only a manual halt is asked to flatten.
  pub halt_trading-records :
      (t : KillTrigger) (flatten : Bool) (loss d : Option Ratio) (c : Control)
      → (flatten ≡ true → t ≡ KillTrigger.manual)
      → Recorded t (halt_trading env poll_seconds poll_attempts t flatten loss d c).1.world.history
  unfolding halt_trading outcome_of engage ◌>>=◌
  halt_trading-records t flatten loss d c h =
      let (r, c') = cancel_all_confirmed env poll_seconds poll_attempts (engage t c).1 in
      after_cancel-Recorded t flatten loss d r c' h
