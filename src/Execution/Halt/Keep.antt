-- ===== src/Execution/Halt/Keep.antt =====
-- What the calls of a halt leave alone: the switch once it is engaged, and the positions until every
-- order is confirmed to be out of the way.
use asymmetric_committee.Base.{
  ℕ, zero, suc, String, ◌+◌, ◌≡◌, refl, ◌∙◌, arith, Bool, true, false, Option, none, some, List, [],
  ◌∷◌, ◌++◌, Result, ok, err, ◌>>=◌, Keeps, Keeps-pure, Keeps-raise, Keeps-lift, Keeps-bind,
  Keeps-if, Keeps-attempt, ◌⊎◌, inl, inr,
}
use asymmetric_committee.Base.Int.{ℤ, pos, negsuc}
use asymmetric_committee.Contracts.Enums.{KillTrigger, terminal}
use asymmetric_committee.Risk.KillSwitch.{Ratio, KillSwitch, halt, halted}
use asymmetric_committee.Execution.Gateway.{Error, BrokerOrder, Call, Env, call, History}
use asymmetric_committee.Execution.Halt.{
  Control, H, on_world, engage, ask, confirm_terminal, not_cancelable, cancel_each, confirm_each,
  cancel_rounds, one_round, still_open, cancel_all_confirmed, rounds, flatten_positions, close_all,
  mark_flattened, conclude_halt, after_cancel, halt_trading, outcome_of, is_ok,
}

abbrev pub is_close : Call → Bool
is_close (Call.close_position _) = true
is_close _ = false

-- The close orders in a history.
abbrev pub closes : History → ℕ
closes [] = 0
closes (Call.close_position _ ∷ h) = 1 + closes h
closes (_ ∷ h) = closes h

abbrev Answered : (Control → Type 0) → Env → ℕ → ℕ → Call → Type 1
Answered P env s n c =
    (A : Type 0) (answer : History → Result Error A) → Keeps P (ask env s n c answer)

module _ (env : Env) (poll_seconds poll_attempts : ℕ) (P : Control → Type 0)
    (k : (c : Call) → is_close c ≡ false → Answered P env poll_seconds poll_attempts c) where
  Keeps-not_cancelable : (e : Error) → Keeps P (not_cancelable env poll_seconds poll_attempts e)
  unfolding not_cancelable
  Keeps-not_cancelable Error.order_not_cancelable = Keeps-pure tt
  Keeps-not_cancelable Error.broker_error = Keeps-raise _
  Keeps-not_cancelable Error.duplicate_client_order = Keeps-raise _
  Keeps-not_cancelable Error.cancel_not_confirmed = Keeps-raise _
  Keeps-not_cancelable Error.overfill = Keeps-raise _
  Keeps-not_cancelable Error.value_error = Keeps-raise _
  Keeps-not_cancelable Error.equity_evidence = Keeps-raise _
  Keeps-not_cancelable Error.assertion_error = Keeps-raise _
  Keeps-not_cancelable Error.other_error = Keeps-raise _

  Keeps-confirm_terminal :
      (n id : ℕ) → Keeps P (confirm_terminal env poll_seconds poll_attempts n id)
  unfolding confirm_terminal
  Keeps-confirm_terminal zero id = Keeps-raise _
  Keeps-confirm_terminal (suc n) id = Keeps-bind _ _ (k _ refl _ _) (λ o.
      Keeps-if (terminal o.status) _ _ (Keeps-pure tt)
        (Keeps-bind _ _ (k _ refl _ _) (λ _. Keeps-confirm_terminal n id)))

  Keeps-cancel_each :
      (ids : List ℕ) (os : List BrokerOrder)
      → Keeps P (cancel_each env poll_seconds poll_attempts ids os)
  unfolding cancel_each
  Keeps-cancel_each ids [] = Keeps-pure _
  Keeps-cancel_each ids (o ∷ os) =
      Keeps-bind _ _ (Keeps-attempt _ _ (k _ refl _ _) Keeps-not_cancelable)
        (λ _. Keeps-cancel_each (ids ++ o.broker_order_id ∷ []) os)

  Keeps-confirm_each :
      (os : List BrokerOrder) → Keeps P (confirm_each env poll_seconds poll_attempts os)
  unfolding confirm_each
  Keeps-confirm_each [] = Keeps-pure _
  Keeps-confirm_each (o ∷ os) =
      Keeps-bind _ _ (Keeps-confirm_terminal poll_attempts o.broker_order_id)
        (λ _. Keeps-confirm_each os)

  Keeps-still_open :
      (ids : List ℕ) (os : List BrokerOrder)
      → Keeps P (still_open env poll_seconds poll_attempts ids os)
  unfolding still_open
  Keeps-still_open ids [] = Keeps-pure ids
  Keeps-still_open ids (o ∷ os) = Keeps-raise _

  Keeps-one_round :
      (ids : List ℕ) (os : List BrokerOrder) (again : List ℕ → H (List ℕ))
      → ((ids : List ℕ) → Keeps P (again ids))
      → Keeps P (one_round env poll_seconds poll_attempts ids os again)
  unfolding one_round
  Keeps-one_round ids [] again a = Keeps-pure ids
  Keeps-one_round ids (o ∷ os) again a =
      Keeps-bind _ _ (Keeps-cancel_each ids (o ∷ os))
        (λ ids'. Keeps-bind _ _ (Keeps-confirm_each (o ∷ os)) (λ _. a ids'))

  Keeps-cancel_rounds :
      (n : ℕ) (ids : List ℕ) → Keeps P (cancel_rounds env poll_seconds poll_attempts n ids)
  unfolding cancel_rounds
  Keeps-cancel_rounds zero ids = Keeps-bind _ _ (k _ refl _ _) (Keeps-still_open ids)
  Keeps-cancel_rounds (suc n) ids =
      Keeps-bind _ _ (k _ refl _ _) (λ os. Keeps-one_round ids os _ (Keeps-cancel_rounds n))

  Keeps-cancel_all_confirmed : Keeps P (cancel_all_confirmed env poll_seconds poll_attempts)
  unfolding cancel_all_confirmed
  Keeps-cancel_all_confirmed = Keeps-cancel_rounds rounds []

  Keeps-conclude_halt :
      (t : KillTrigger) (loss d : Option Ratio) (ids : List ℕ) (flattened : Bool)
      (r : Result Error Unit)
      → Keeps P (conclude_halt env poll_seconds poll_attempts t loss d ids flattened r)
  unfolding conclude_halt
  Keeps-conclude_halt t loss d ids flattened r = Keeps-bind _ _ (k _ refl _ _) (λ now.
      Keeps-bind _ _ (Keeps-lift _) (λ event. Keeps-bind _ _ (k _ refl _ _) (λ _. Keeps-lift r)))

  module _
      (closing : (s : String) → Answered P env poll_seconds poll_attempts (Call.close_position s))
      (marking : Keeps P (mark_flattened env poll_seconds poll_attempts)) where
    Keeps-close_all :
        (ps : List (String × ℤ)) → Keeps P (close_all env poll_seconds poll_attempts ps)
    unfolding close_all
    Keeps-close_all [] = Keeps-pure tt
    Keeps-close_all ((s, pos zero) ∷ ps) = Keeps-close_all ps
    Keeps-close_all ((s, pos (suc n)) ∷ ps) =
        Keeps-bind _ _ (closing s _ _) (λ _. Keeps-close_all ps)
    Keeps-close_all ((s, negsuc n) ∷ ps) = Keeps-bind _ _ (closing s _ _) (λ _. Keeps-close_all ps)

    Keeps-flatten_positions :
        (flatten : Bool) → Keeps P (flatten_positions env poll_seconds poll_attempts flatten)
    unfolding flatten_positions
    Keeps-flatten_positions false = Keeps-pure tt
    Keeps-flatten_positions true =
        Keeps-bind _ _ (k _ refl _ _) (λ ps. Keeps-bind _ _ (Keeps-close_all ps) (λ _. marking))

    Keeps-after_cancel :
        (t : KillTrigger) (flatten : Bool) (loss d : Option Ratio) (r : Result Error (List ℕ))
        → Keeps P (after_cancel env poll_seconds poll_attempts t flatten loss d r)
    unfolding after_cancel outcome_of ◌>>=◌
    Keeps-after_cancel t flatten loss d (err e) = Keeps-conclude_halt t loss d [] false (err e)
    Keeps-after_cancel t flatten loss d (ok ids) = record {
      at = λ c p.
          let (r, c') = flatten_positions env poll_seconds poll_attempts flatten c in
          (Keeps-conclude_halt t loss d ids _ r).at c' ((Keeps-flatten_positions flatten).at c p);
    }

module _ (env : Env) (poll_seconds poll_attempts : ℕ) where
  pub ask-kill_switch :
      (s : KillSwitch) (c : Call)
      → Answered (λ x. x.world.kill_switch ≡ s) env poll_seconds poll_attempts c
  unfolding ask on_world call
  ask-kill_switch s c A answer = record { at = λ x h. h }

  ask-closes :
      (n : ℕ) (c : Call)
      → is_close c ≡ false
      → Answered (λ x. closes x.world.history ≡ n) env poll_seconds poll_attempts c
  unfolding ask on_world call
  ask-closes n c e A answer = record { at = λ x h. skip c x.world.history e ∙ h }
    where
      skip : (c : Call) (h : History) → is_close c ≡ false → closes (c ∷ h) ≡ closes h
      skip c h e = ground arith

  -- Nothing that a halt does after it has engaged the switch touches it again.
  pub halt_trading-kill_switch :
      (t : KillTrigger) (flatten : Bool) (loss d : Option Ratio) (c : Control)
      → (halt_trading env poll_seconds poll_attempts t flatten loss d c).1.world.kill_switch
        ≡ (halt t c.world.kill_switch).1
  unfolding halt_trading engage outcome_of mark_flattened ◌>>=◌
  halt_trading-kill_switch t flatten loss d c =
      let k : KillSwitch = (halt t c.world.kill_switch).1 in
      let (r, c') = cancel_all_confirmed env poll_seconds poll_attempts (engage t c).1 in
      (Keeps-after_cancel env poll_seconds poll_attempts (λ x. x.world.kill_switch ≡ k)
          (λ c _. ask-kill_switch k c) (λ s. ask-kill_switch k _) (record { at = λ x h. h }) t
          flatten loss d r).at
        c'
        ((Keeps-cancel_all_confirmed env poll_seconds poll_attempts (λ x. x.world.kill_switch ≡ k)
            (λ c _. ask-kill_switch k c)).at
          (engage t c).1 refl)

  -- After a halt the switch is engaged, whatever becomes of its cancels, closes and record: by the
  -- trigger of the halt if it was not engaged before, and by the earlier trigger if it was.
  pub halt_trading-engages :
      (t : KillTrigger) (flatten : Bool) (loss d : Option Ratio) (c : Control)
      → let after : KillSwitch =
          (halt_trading env poll_seconds poll_attempts t flatten loss d c).1.world.kill_switch in
        (halted after ≡ true)
        × (c.world.kill_switch.trigger ≡ none → after.trigger ≡ some t)
        × ((earlier : KillTrigger)
            → c.world.kill_switch.trigger ≡ some earlier
            → after.trigger ≡ some earlier)
  unfolding halt
  halt_trading-engages t flatten loss d c =
      rw (halt_trading-kill_switch t flatten loss d c) (engaged_by c.world.kill_switch)
    where
      engaged_by :
          (ks : KillSwitch)
          → (halted (halt t ks).1 ≡ true)
            × (ks.trigger ≡ none → (halt t ks).1.trigger ≡ some t)
            × ((earlier : KillTrigger)
                → ks.trigger ≡ some earlier
                → (halt t ks).1.trigger ≡ some earlier)
      engaged_by ks = ground arith

  -- A halt sends no close order unless it is asked to flatten and the cancels before it were all
  -- confirmed.
  pub halt_trading-closes :
      (t : KillTrigger) (flatten : Bool) (loss d : Option Ratio) (c : Control)
      → (flatten ≡ false)
        ⊎ (is_ok (cancel_all_confirmed env poll_seconds poll_attempts (engage t c).1).0 ≡ false)
      → closes (halt_trading env poll_seconds poll_attempts t flatten loss d c).1.world.history
        ≡ closes c.world.history
  unfolding halt_trading engage outcome_of after_cancel flatten_positions ◌>>=◌
  halt_trading-closes t flatten loss d c h =
      go flatten (cancel_all_confirmed env poll_seconds poll_attempts (engage t c).1) h (
        (Keeps-cancel_all_confirmed env poll_seconds poll_attempts P (ask-closes n)).at
          (engage t c).1 refl)
    where
      n : ℕ
      n = closes c.world.history

      P : Control → Type 0
      P x = closes x.world.history ≡ n

      go :
          (flatten : Bool) (y : Result Error (List ℕ) × Control)
          → (flatten ≡ false) ⊎ (is_ok y.0 ≡ false)
          → P y.1
          → P (after_cancel env poll_seconds poll_attempts t flatten loss d y.0 y.1).1
      go flatten (err e, x) _ p =
          (Keeps-conclude_halt env poll_seconds poll_attempts P (ask-closes n) t loss d [] false
              (err e)).at
            x p
      go false (ok ids, x) _ p =
          (Keeps-conclude_halt env poll_seconds poll_attempts P (ask-closes n) t loss d ids false
              (ok tt)).at
            x p
      go true (ok ids, x) (inl q) p = absurd (cc)
      go true (ok ids, x) (inr q) p = absurd (cc)
